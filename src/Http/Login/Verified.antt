-- ===== src/Http/Login/Verified.antt =====
-- The token login of http/LoginHandler.h, from the request's body to the answer's.
use ey_ps.Prelude.{ℕ, ◌≡◌, ◌≢◌, ap, ◌∙◌, List, [], ◌∷◌, Option, some}
use ey_ps.Prelude.Int.{pos}
use ey_ps.Prelude.Bytes.{codes, c_string}
use ey_ps.Database.Collections.{Mongo, IsStore}
use ey_ps.Database.{Account, generate_session_key}
use ey_ps.Database.Keys.{Holds}
use ey_ps.Http.Json.{Event, number, text, IsDocument}
use ey_ps.Http.Objects.{LoginRet, login_ret, account_json}
use ey_ps.Http.Objects.Shows.{value_at, account_json-shows}
use ey_ps.Http.Auth.{LoginTokenReq, token_authenticate}
use ey_ps.Http.Auth.Sessions.{token_authenticate-fresh}
use ey_ps.Http.Login.{Parser, document, read_token_req, handle_token_v}
use mathlib.Core.Option

-- The answer of a login that let an id in with a session key.
pub record Admits (uid key : List ℕ) (es : List Event) : Type 0 where
  pub one_document : IsDocument es
  pub code : value_at (codes "retcode" ∷ []) es ≡ some (number (pos 0))
  pub said : value_at (codes "message" ∷ []) es ≡ some (text (codes "OK"))
  pub uid_shown : value_at (codes "uid" ∷ codes "account" ∷ codes "data" ∷ []) es ≡ some (text uid)
  pub key_shown :
      value_at (codes "token" ∷ codes "account" ∷ codes "data" ∷ []) es ≡ some (text key)

abbrev pub granted : List ℕ → List ℕ → LoginRet
granted uid key = record login_ret { message = codes "OK"; uid = uid; token = key }

pub granted-Admits :
    (uid key : List ℕ)
    → c_string uid ≡ uid
    → c_string key ≡ key
    → Admits uid key (account_json (granted uid key))
unfolding c_string
granted-Admits uid key hu hk =
    let (one, code, said, shown, name, token) = account_json-shows (granted uid key) in
    record {
      one_document = one;
      code = code;
      said = said;
      uid_shown = shown ∙ ap (λ t. some (text t)) hu;
      key_shown = token ∙ ap (λ t. some (text t)) hk;
    }

module _ (parser : Parser) (mongo : Mongo) where
  request-read :
      (body uid token : List ℕ)
      → parser.get_string (codes "uid") (document parser mongo body) ≡ some uid
      → parser.get_string (codes "token") (document parser mongo body) ≡ some token
      → read_token_req parser mongo (document parser mongo body)
        ≡ some (record { uid = c_string uid; token = c_string token })
  unfolding read_token_req Option.bind
  request-read body uid token hu ht = rw (hu, ht)

  -- A request that names an account and the session key that it was just given is answered by one
  -- JSON document with the code 0, the message OK, that id and that key. The account is in the
  -- database, its id is not empty, and neither the id nor the key has a zero in it.
  pub handle_token_v-fresh :
      (store : IsStore mongo) (fresh : List ℕ) (account : Account) (db : mongo.Db) (body : List ℕ)
      → Holds mongo store account db
      → account.id ≢ []
      → c_string account.id ≡ account.id
      → c_string fresh ≡ fresh
      → parser.get_string (codes "uid") (document parser mongo body) ≡ some account.id
      → parser.get_string (codes "token") (document parser mongo body) ≡ some fresh
      → (es : List Event) × (handle_token_v parser mongo body
            (generate_session_key mongo fresh account db).1
          ≡ some es)
        × Admits account.id fresh es
  unfolding handle_token_v Option.bind
  handle_token_v-fresh store fresh account db body h nonempty cid ckey hu ht =
      let db' = (generate_session_key mongo fresh account db).1 in
      let answer : LoginTokenReq → Option (List Event) =
        λ req. some (account_json (token_authenticate mongo req login_ret db')) in
      (
        account_json (granted account.id fresh),
        ap (λ o. Option.bind o answer) (request-read body account.id fresh hu ht)
            ∙ ap (λ u. answer (record { uid = u; token = c_string fresh })) cid
            ∙ ap (λ t. answer (record { uid = account.id; token = t })) ckey
            ∙ ap (λ r. some (account_json r))
                (token_authenticate-fresh mongo store fresh account db login_ret h nonempty cid
                  ckey),
        granted-Admits account.id fresh cid ckey,
      )
