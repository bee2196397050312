-- ===== src/Http/Auth.antt =====
-- The authenticators of http/auth, and the requests of http/objects that they take. What createToken
-- returns is an argument; `none` is an exception of the database.
pub mod Known
pub mod Sessions
pub mod Created
pub mod Accepted
pub mod Passwords
pub mod Reach
use ey_ps.Prelude.{
  ℕ, Bool, true, false, not, ◌&&◌, List, [], ◌∷◌, Option, none, some, same, if◌then◌else◌,
}
use ey_ps.Prelude.Int.{ℤ, pos, negsuc}
use ey_ps.Prelude.Bytes.{codes}
use ey_ps.Database.Collections.{Mongo}
use ey_ps.Database.{
  Account, no_account, get_account_by_name, get_account_by_id, create_account_with_uid,
  generate_session_key, generate_login_token,
}
use ey_ps.Http.Objects.{LoginRet, ComboTokenRes}
use mathlib.Core.Option

pub record LoginAccountReq : Type 0 where
  pub account : List ℕ
  pub password : List ℕ
  pub is_crypto : Bool

pub record LoginTokenReq : Type 0 where
  pub uid : List ℕ
  pub token : List ℕ

pub record ComboTokenReq : Type 0 where
  pub device : List ℕ
  pub sign : List ℕ
  pub uid : List ℕ
  pub token : List ℕ
  pub app_id : ℤ
  pub channel_id : ℤ
  pub guest : Bool

-- empty()
abbrev pub is_empty : List ℕ → Bool
is_empty [] = true
is_empty (b ∷ bs) = false

abbrev pub refused : List ℕ → LoginRet → LoginRet
refused message rsp = record rsp { retcode = negsuc 200; message = message }

abbrev pub token_verdict : Account → List ℕ → Bool
token_verdict account token = not (is_empty account.id) && same account.session_key token

module _ (mongo : Mongo) where
  -- The end of PwdAuthenticate::authenticate.
  abbrev pub logged_in : List ℕ → LoginRet → Account → mongo.Db → LoginRet × mongo.Db
  logged_in fresh rsp account db =
      let (account', db') = generate_session_key mongo fresh account db in
      (
        record rsp {
          message = codes "OK";
          uid = account.id;
          name = account.username;
          token = account'.session_key;
        },
        db',
      )

  abbrev pub found_or_created : LoginAccountReq → List ℕ → mongo.Db → Option (Account × mongo.Db)
  found_or_created req fresh db =
      let account = get_account_by_name mongo req.account db no_account in
      if is_empty account.username
      then create_account_with_uid mongo req.account (pos 0) fresh account db
      else some (account, db)

  -- PwdAuthenticate::authenticate. createToken is called once where an account is made, and once
  -- for the session key.
  unfoldable pub pwd_authenticate :
      LoginAccountReq → List ℕ → List ℕ → LoginRet → mongo.Db → Option (LoginRet × mongo.Db)
  pwd_authenticate req login_token session_key rsp db =
      Option.map
        (λ (account, db').
          if is_empty account.username
          then (refused (codes "account_create_error") rsp, db')
          else logged_in session_key rsp account db')
        (found_or_created req login_token db)

  -- TokenAuthenticate::authenticate
  unfoldable pub token_authenticate : LoginTokenReq → LoginRet → mongo.Db → LoginRet
  token_authenticate req rsp db =
      let account = get_account_by_id mongo req.uid db no_account in
      if token_verdict account req.token
      then record rsp { message = codes "OK"; uid = account.id; token = account.session_key }
      else refused (codes "account_cache_error") rsp

  -- SessionKeyAuthenticate::authenticate
  unfoldable pub session_key_authenticate :
      ComboTokenReq → List ℕ → ComboTokenRes → mongo.Db → ComboTokenRes × mongo.Db
  session_key_authenticate req login_token rsp db =
      let account = get_account_by_id mongo req.uid db no_account in
      if token_verdict account req.token
      then (let (account', db') = generate_login_token mongo login_token account db in
          (
            record rsp {
              message = codes "OK";
              open_id = account.id;
              combo_id = codes "123456789";
              combo_token = account'.token;
            },
            db',
          ))
      else (record rsp { retcode = negsuc 200; message = codes "account_sessionKey_error" }, db)
