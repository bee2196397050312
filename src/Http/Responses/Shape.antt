-- ===== src/Http/Responses/Shape.antt =====
-- The shape of the responses, and what requests do to the database.
use ey_ps.Prelude.{
  ℕ, ◌≤◌, ◌≡◌, refl, sym, ap, subst, ◌∙◌, Bool, true, List, [], ◌∷◌, Option, some, length, All,
  arith,
}
use ey_ps.Prelude.Bytes.{codes}
use ey_ps.Prelude.Options.{of_some, map-eq-some, bind-eq-some}
use ey_ps.Database.Collections.{Mongo}
use ey_ps.Crypto.Base64.{Base64}
use ey_ps.Config.{Config}
use ey_ps.Http.Json.{Event}
use ey_ps.Http.Regions.{RegionMessages, Keys}
use ey_ps.Http.Routes.{Route, answers}
use ey_ps.Http.Routes.Quiet.{quiet, all_quiet}
use ey_ps.Http.Routes.Answers.{answers-once}
use ey_ps.Http.Login.{Parser}
use ey_ps.Http.Responses.{
  Request, Body, Response, creat_response, Answered, with_bytes, with_json, logged, respond,
  respond_all, responses,
}
use mathlib.Core.Option

-- A response as the handlers make them.
pub record Plain (req : Request) (r : Response) : Type 0 where
  pub status : r.status ≡ 200
  pub version : r.version ≡ req.version
  pub keep_alive : r.keep_alive ≡ req.keep_alive
  pub content_type : r.content_type ≡ codes "application/json"

creat_response-Plain : (req : Request) (b : Body) → Plain req (creat_response req b)
unfolding creat_response
creat_response-Plain req b = record {
  status = refl;
  version = refl;
  keep_alive = refl;
  content_type = refl;
}

-- A response that is made of the result of something, and the database that comes with it.
made :
    (mongo : Mongo) {A : Type 0} (req : Request) (b : A → Body) (g : A → mongo.Db) (o : Option A)
    (r : Response) (db' : mongo.Db)
    → Option.map {B = Response × mongo.Db} (λ a. (creat_response req (b a), g a)) o ≡ some (r, db')
    → Plain req r × ((db : mongo.Db) → ((a : A) → g a ≡ db) → db' ≡ db)
made mongo {A} req b g o r db' e =
    let (a, e1, e2) =
      map-eq-some {B = Response × mongo.Db} (λ a. (creat_response req (b a), g a)) o e in
    (
      subst (Plain req) (ap {A = Response × mongo.Db} (λ x. x.0) e2)
          (creat_response-Plain req (b a)),
      λ db same. sym (ap {A = Response × mongo.Db} (λ x. x.1) e2) ∙ same a,
    )

module _ (parser : Parser) (mongo : Mongo) (messages : RegionMessages) (base64 : Base64)
    (config : Config) (keys : Keys) (login_token session_key : List ℕ) (req : Request) where
  abbrev answered : Route → mongo.Db → Answered parser mongo messages base64 config keys
  answered route db =
      respond parser mongo messages base64 config keys route login_token session_key req db

  -- What a route's answer is like, and whether it leaves the database as it was.
  abbrev Answers : Route → Type 0
  Answers route =
      (db : mongo.Db) (r : Response) (db' : mongo.Db)
      → answered route db ≡ some (r, db')
      → Plain req r × (quiet route ≡ true → db' ≡ db)

  of_bytes :
      (o : Option (List ℕ)) (db : mongo.Db) (r : Response) (db' : mongo.Db)
      → with_bytes parser mongo messages base64 config keys req db o ≡ some (r, db')
      → Plain req r × (db' ≡ db)
  of_bytes o db r db' e =
      let (plain, same) = made mongo req Body.bytes (λ b. db) o r db' e in
      (plain, same db (λ b. refl))

  of_json :
      (es : List Event) (db : mongo.Db) (r : Response) (db' : mongo.Db)
      → with_json parser mongo messages base64 config keys req db es ≡ some (r, db')
      → Plain req r × (db' ≡ db)
  of_json es db r db' e =
      let (plain, same) = made mongo req Body.json (λ b. db) (some es) r db' e in
      (plain, same db (λ b. refl))

  of_login :
      (o : Option (List Event × mongo.Db)) (r : Response) (db' : mongo.Db)
      → logged parser mongo messages base64 config keys req o ≡ some (r, db')
      → Plain req r
  of_login o r db' e =
      (made mongo {A = List Event × mongo.Db} req (λ x. Body.json x.0) (λ x. x.1) o r db' e).0

  quietly :
      {r : Response} {db db' : mongo.Db} {q : Bool}
      → Plain req r × (db' ≡ db)
      → Plain req r × (q ≡ true → db' ≡ db)
  quietly (plain, same) = (plain, λ q. same)

  respond-Answers : (route : Route) → Answers route
  unfolding respond
  respond-Answers Route.client_login db r db' e = (of_login _ r db' e, λ q. cc)
  respond-Answers Route.token_login db r db' e = (of_login _ r db' e, λ q. cc)
  respond-Answers Route.session_key_login db r db' e = (of_login _ r db' e, λ q. cc)
  respond-Answers Route.region_list db r db' e = quietly (of_bytes _ db r db' e)
  respond-Answers Route.cur_region db r db' e = quietly (of_bytes _ db r db' e)
  respond-Answers Route.hello db r db' e =
      quietly (of_bytes (some (codes "Hello from EyPS!")) db r db' e)
  respond-Answers Route.proc_ver db r db' e = quietly (of_json _ db r db' e)
  respond-Answers Route.get_agreement_infos db r db' e = quietly (of_json _ db r db' e)
  respond-Answers Route.account db r db' e = quietly (of_json _ db r db' e)
  respond-Answers Route.combo db r db' e = quietly (of_json _ db r db' e)
  respond-Answers Route.get_config db r db' e = quietly (of_json _ db r db' e)
  respond-Answers Route.load_config db r db' e = quietly (of_json _ db r db' e)
  respond-Answers Route.data_upload db r db' e = quietly (of_json _ db r db' e)

  respond_all-Plain :
      (routes : List Route) (db : mongo.Db) (rs : List Response) (db' : mongo.Db)
      → respond_all parser mongo messages base64 config keys routes login_token session_key req db
        ≡ some (rs, db')
      → (length rs ≡ length routes) × All (Plain req) rs × (all_quiet routes ≡ true → db' ≡ db)
  unfolding respond_all
  respond_all-Plain [] db rs db' e = (
    sym (ap {A = List Response × mongo.Db} (λ x. length x.0) (of_some e)),
    subst (All (Plain req)) (ap {A = List Response × mongo.Db} (λ x. x.0) (of_some e)) tt,
    λ q. sym (ap {A = List Response × mongo.Db} (λ x. x.1) (of_some e)),
  )
  respond_all-Plain (route ∷ routes) db rs db' e =
      let ((r, db1), e1, f1) = bind-eq-some (answered route db) _ e in
      let ((rs1, db2), e2, f2) =
        map-eq-some {B = List Response × mongo.Db} (λ x. (r ∷ x.0, x.1))
          (respond_all parser mongo messages base64 config keys routes login_token session_key req
            db1)
          f1 in
      let (plain, same) = respond-Answers route db r db1 e1 in
      let (len, plains, sames) = respond_all-Plain routes db1 rs1 db2 e2 in
      let got : r ∷ rs1 ≡ rs = ap {A = List Response × mongo.Db} (λ x. x.0) f2 in
      (
        omega (arith, len, ap length got),
        subst (All (Plain req)) got (plain, plains),
        λ q.
            let both : (quiet route ≡ true) × (all_quiet routes ≡ true) = ground arith in
            sym (ap {A = List Response × mongo.Db} (λ x. x.1) f2) ∙ sames both.1 ∙ same both.0,
      )

  abbrev all_responses : mongo.Db → Option (List Response × mongo.Db)
  all_responses = responses parser mongo messages base64 config keys login_token session_key req

  -- A request is answered by one response at most; its status is 200, its content type that of JSON,
  -- and its version and whether the connection is kept alive are the request's.
  pub responses-Plain :
      (db : mongo.Db) (rs : List Response) (db' : mongo.Db)
      → all_responses db ≡ some (rs, db')
      → (length rs ≤ 1) × All (Plain req) rs
  unfolding responses
  responses-Plain db rs db' e =
      let (routes, e1, e2) = bind-eq-some (answers req.target) _ e in
      let (len, plains, same) = respond_all-Plain routes db rs db' e2 in
      (omega (arith, len, answers-once req.target routes e1), plains)
