-- ===== src/Http/Auth/Known.antt =====
-- The password login of http/auth/PwdAuthenticate.cpp for a name that the database knows.
use ey_ps.Prelude.{ℕ, ◌≡◌, ◌≢◌, refl, ap, ◌∙◌, false, List, [], ◌∷◌, Option, some, if◌then◌else◌}
use ey_ps.Prelude.Int.{pos}
use ey_ps.Prelude.Bytes.{codes, c_string}
use ey_ps.Database.Collections.{Document, Mongo}
use ey_ps.Database.{
  Account, no_account, read_documents, get_account_by_name, create_account_with_uid,
  check_if_account_exists, is_nothing,
}
use ey_ps.Http.Objects.{LoginRet, login_ret}
use ey_ps.Http.Auth.{
  LoginAccountReq, is_empty, refused, found_or_created, logged_in, pwd_authenticate,
}
use mathlib.Core.Option

pub nonempty_is : (xs : List ℕ) → xs ≢ [] → is_empty xs ≡ false
nonempty_is [] h = absurd (h refl)
nonempty_is (x ∷ xs) h = refl

module _ (mongo : Mongo) where
  -- The account that a document stands for, when it is read from the database.
  abbrev pub known : Document → Account
  known d = read_documents mongo (d ∷ []) no_account

  -- The documents of the database, of which one has a name.
  pub known_by_name :
      (name : List ℕ) (db : mongo.Db) (d : Document)
      → mongo.find_by_name (c_string name) db ≡ d ∷ []
      → is_nothing mongo (mongo.find_all db) ≡ false
      → get_account_by_name mongo name db no_account ≡ known d
  unfolding get_account_by_name check_if_account_exists
  known_by_name name db d named some' = rw (some', named)

  pub known_logs_in :
      (req : LoginAccountReq) (login_token session_key : List ℕ) (db : mongo.Db) (d : Document)
      → get_account_by_name mongo req.account db no_account ≡ known d
      → c_string d.username ≢ []
      → pwd_authenticate mongo req login_token session_key login_ret db
        ≡ some (logged_in mongo session_key login_ret (known d) db)
  unfolding pwd_authenticate
  known_logs_in req login_token session_key db d read username =
      let there = nonempty_is (c_string d.username) username in
      let create : Account → Option (Account × mongo.Db) =
        λ a. create_account_with_uid mongo req.account (pos 0) login_token a db in
      let outcome : Account × mongo.Db → LoginRet × mongo.Db = λ (x : Account × mongo.Db).
        if is_empty x.0.username
        then (refused (codes "account_create_error") login_ret, x.1)
        else logged_in mongo session_key login_ret x.0 x.1 in
      let found : found_or_created mongo req login_token db ≡ some (known d, db) =
        ap {A = Account} (λ a. if is_empty a.username then create a else some (a, db)) read
        ∙ ap (λ b. if b then create (known d) else some (known d, db)) there in
      ap (Option.map outcome) found
      ∙ ap
          (λ b. some (
            if b
            then (refused (codes "account_create_error") login_ret, db)
            else logged_in mongo session_key login_ret (known d) db))
          there
