-- ===== src/Http/Login.antt =====
-- `handleLogin`, `handleTokenV` and `handleSessionKey` of http/LoginHandler.h. rapidjson's parser is a
-- parameter. `none` is undefined behaviour
-- (a member that is missing or of another type) or an exception of the database.
pub mod Combined
pub mod Chain
pub mod Verified
use ey_ps.Prelude.{ℕ, Bool, true, false, List, [], ◌∷◌, Option, none, some}
use ey_ps.Prelude.Int.{ℤ}
use ey_ps.Prelude.Bytes.{codes, c_string}
use ey_ps.Database.Collections.{Mongo}
use ey_ps.Http.Json.{Event}
use ey_ps.Http.Objects.{login_ret, account_json, combo_token_res, combo_token_json}
use ey_ps.Http.Auth.{
  LoginAccountReq, LoginTokenReq, ComboTokenReq, pwd_authenticate, token_authenticate,
  session_key_authenticate,
}
use mathlib.Core.Option

-- rapidjson's Document: what FindMember(name)->value.GetString() and its kin return.
pub record Parser : Type 1 where
  pub Doc : Type 0
  pub parse : List ℕ → Doc
  pub get_string : List ℕ → Doc → Option (List ℕ)
  pub get_bool : List ℕ → Doc → Option Bool
  pub get_int : List ℕ → Doc → Option ℤ

infixl 10 ◌>>=◌
abbrev pub ◌>>=◌ : {A B : Type 0} → Option A → (A → Option B) → Option B
o >>= f = Option.bind o f

module _ (parser : Parser) (mongo : Mongo) where
  -- The text is read as a C string.
  abbrev pub document : List ℕ → parser.Doc
  document body = parser.parse (c_string body)

  unfoldable pub read_account_req : parser.Doc → Option LoginAccountReq
  read_account_req doc = do
    account ← parser.get_string (codes "account") doc
    password ← parser.get_string (codes "password") doc
    is_crypto ← parser.get_bool (codes "is_crypto") doc
    some
        (record { account = c_string account; password = c_string password; is_crypto = is_crypto })

  -- handleLogin, where createToken returns `login_token` for a new account and then `session_key`
  unfoldable pub handle_login : List ℕ → List ℕ → List ℕ → mongo.Db → Option (List Event × mongo.Db)
  unfolding read_account_req
  handle_login login_token session_key body db = do
    req ← read_account_req (document body)
    (rsp, db') ← pwd_authenticate mongo req login_token session_key login_ret db
    some (account_json rsp, db')

  unfoldable pub read_token_req : parser.Doc → Option LoginTokenReq
  read_token_req doc = do
    uid ← parser.get_string (codes "uid") doc
    token ← parser.get_string (codes "token") doc
    some (record { uid = c_string uid; token = c_string token })

  -- handleTokenV
  unfoldable pub handle_token_v : List ℕ → mongo.Db → Option (List Event)
  unfolding read_token_req
  handle_token_v body db = do
    req ← read_token_req (document body)
    some (account_json (token_authenticate mongo req login_ret db))

  -- The request of handleSessionKey; `data` is a document in a string.
  unfoldable pub read_combo_req : parser.Doc → Option ComboTokenReq
  read_combo_req doc = do
    inner ← parser.get_string (codes "data") doc
    uid ← parser.get_string (codes "uid") (document inner)
    token ← parser.get_string (codes "token") (document inner)
    guest ← parser.get_bool (codes "guest") (document inner)
    app_id ← parser.get_int (codes "app_id") doc
    channel_id ← parser.get_int (codes "channel_id") doc
    device ← parser.get_string (codes "device") doc
    some (record {
      device = c_string device;
      sign = [];
      uid = c_string uid;
      token = c_string token;
      app_id = app_id;
      channel_id = channel_id;
      guest = guest;
    })

  -- handleSessionKey, where createToken returns `login_token`
  unfoldable pub handle_session_key : List ℕ → List ℕ → mongo.Db → Option (List Event × mongo.Db)
  unfolding read_combo_req
  handle_session_key login_token body db = do
    req ← read_combo_req (document body)
    let (rsp, db') = session_key_authenticate mongo req login_token combo_token_res db
    some (combo_token_json rsp, db')
