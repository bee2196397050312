-- ===== src/Http/Responses.antt =====
-- The responses to a request: what http/HttpSession.h has `handle_request`, `GenericHandler` and
-- `LoginHandler` send, with their bodies. `none` is undefined behaviour or an exception of the
-- database.
pub mod Shape
pub mod Unsent
use ey_ps.Prelude.{ℕ, Bool, List, [], ◌∷◌, Option, none, some}
use ey_ps.Prelude.Bytes.{codes}
use ey_ps.Database.Collections.{Mongo}
use ey_ps.Crypto.Base64.{Base64}
use ey_ps.Config.{Config}
use ey_ps.Http.Json.{Event}
use ey_ps.Http.Bodies
use ey_ps.Http.Regions.{RegionMessages, Keys, do_query_region_list, do_query_cur_region}
use ey_ps.Http.Routes.{Route, answers}
use ey_ps.Http.Login.{Parser, handle_login, handle_token_v, handle_session_key}
use mathlib.Core.Option

pub record Request : Type 0 where
  pub target : List ℕ
  pub version : ℕ
  pub keep_alive : Bool
  pub body : List ℕ

-- A body: its bytes, or the calls of the writer that make them.
pub data Body : Type 0 where
  bytes : List ℕ → Body
  json : List Event → Body

pub record Response : Type 0 where
  pub status : ℕ
  pub version : ℕ
  pub server : List ℕ
  pub content_type : List ℕ
  pub keep_alive : Bool
  pub body : Body

-- creat_response, and the body that is given to it
unfoldable pub creat_response : Request → Body → Response
creat_response req body = record {
  status = 200;
  version = req.version;
  server = codes "EyPS";
  content_type = codes "application/json";
  keep_alive = req.keep_alive;
  body = body;
}

module _ (parser : Parser) (mongo : Mongo) (messages : RegionMessages) (base64 : Base64)
    (config : Config) (keys : Keys) where
  abbrev pub Answered : Type 0
  Answered = Option (Response × mongo.Db)

  abbrev pub with_bytes : Request → mongo.Db → Option (List ℕ) → Answered
  with_bytes req db = Option.map (λ b. (creat_response req (bytes b), db))

  abbrev pub with_json : Request → mongo.Db → List Event → Answered
  with_json req db es = some (creat_response req (json es), db)

  abbrev pub logged : Request → Option (List Event × mongo.Db) → Answered
  logged req = Option.map (λ (es, db'). (creat_response req (json es), db'))

  -- What is sent on a route, where createToken returns `login_token` and `session_key`.
  unfoldable pub respond : Route → List ℕ → List ℕ → Request → mongo.Db → Answered
  respond Route.region_list login_token session_key req db =
      with_bytes req db (do_query_region_list messages base64 config keys)
  respond Route.cur_region login_token session_key req db =
      with_bytes req db (do_query_cur_region messages base64 config keys)
  respond Route.hello login_token session_key req db =
      with_bytes req db (some (codes "Hello from EyPS!"))
  respond Route.proc_ver login_token session_key req db = with_json req db Bodies.proc_ver
  respond Route.get_agreement_infos login_token session_key req db =
      with_json req db Bodies.get_agreement_infos
  respond Route.account login_token session_key req db = with_json req db Bodies.account
  respond Route.combo login_token session_key req db = with_json req db Bodies.combo
  respond Route.get_config login_token session_key req db = with_json req db Bodies.get_config
  respond Route.load_config login_token session_key req db = with_json req db Bodies.load_config
  respond Route.data_upload login_token session_key req db = with_json req db Bodies.data_upload
  respond Route.client_login login_token session_key req db =
      logged req (handle_login parser mongo login_token session_key req.body db)
  respond Route.token_login login_token session_key req db =
      logged req (Option.map (λ es. (es, db)) (handle_token_v parser mongo req.body db))
  respond Route.session_key_login login_token session_key req db =
      logged req (handle_session_key parser mongo login_token req.body db)

  -- The answers, one after the other.
  unfoldable pub respond_all :
      List Route → List ℕ → List ℕ → Request → mongo.Db → Option (List Response × mongo.Db)
  respond_all [] login_token session_key req db = some ([], db)
  respond_all (route ∷ routes) login_token session_key req db =
      Option.bind (respond route login_token session_key req db) λ (response, db1).
        Option.map (λ (responses, db2). (response ∷ responses, db2))
          (respond_all routes login_token session_key req db1)

  -- The three handlers, for a request
  unfoldable pub responses :
      List ℕ → List ℕ → Request → mongo.Db → Option (List Response × mongo.Db)
  unfolding respond_all
  responses login_token session_key req db =
      Option.bind (answers req.target) λ routes. respond_all routes login_token session_key req db
