-- ===== src/Http/Auth/Created.antt =====
-- How the password login of http/auth/PwdAuthenticate.cpp makes an account for a new name.
use ey_ps.Prelude.{
  ℕ, ◌+◌, ◌^◌, ◌≡◌, inl, inr, sym, ap, ◌∙◌, Bool, false, List, [], Option, none, some, Bool-cases,
  ltb, if◌then◌else◌,
}
use ey_ps.Prelude.Int.{pos}
use ey_ps.Prelude.Bytes.{c_string}
use ey_ps.Prelude.Decimal.{to_string}
use ey_ps.Prelude.Options.{of_some, none-ne-some, map-eq-some, bind-eq-some}
use ey_ps.Database.Collections.{Mongo}
use ey_ps.Database.Sound.{IsAccountStore}
use ey_ps.Database.{
  Account, no_account, get_account_by_name, get_account_info, create_account_with_uid,
  check_if_account_exists, is_nothing, get_next_id, next_id, save_account, document_of, named,
  generate_login_token,
}
use ey_ps.Http.Auth.{LoginAccountReq, is_empty, found_or_created}
use mathlib.Core.Option

-- The account that a name, an id and a token make.
abbrev pub newcomer : List ℕ → ℕ → List ℕ → Account
newcomer name id token = record no_account {
  username = c_string name;
  id = to_string id;
  token = c_string token;
}

module _ (mongo : Mongo) where
  pub unknown_name :
      (name : List ℕ) (db : mongo.Db)
      → mongo.find_by_name (c_string name) db ≡ []
      → check_if_account_exists mongo name db ≡ false
  unfolding check_if_account_exists
  unknown_name name db e = elim (Bool-cases (is_nothing mongo (mongo.find_all db))) [
    | inl h ↦ rw h
    | inr h ↦ rw (h, e)
  ]

  next_id_apart :
      (accounts : IsAccountStore mongo) (c : Option ℕ) (db : mongo.Db) (n : ℕ) (db1 : mongo.Db)
      → next_id mongo c db ≡ some (n, db1)
      → mongo.find_all db1 ≡ mongo.find_all db
  next_id_apart accounts none db n db1 e =
      ap {A = ℕ × mongo.Db} (λ x. mongo.find_all x.1) (sym (of_some e))
      ∙ accounts.counter_apart 100 db
  next_id_apart accounts (some count) db n db1 e = elim (Bool-cases (ltb (count + 1) (2 ^ 31))) [
    | inl h ↦
        let counted : some (count + 1, mongo.update_counter count (count + 1) db) ≡ some (n, db1) =
          sym (rw h) ∙ e in
        ap {A = ℕ × mongo.Db} (λ x. mongo.find_all x.1) (sym (of_some counted))
        ∙ accounts.count_apart count (count + 1) db
    | inr h ↦ absurd (none-ne-some (sym (rw h) ∙ e))
  ]

  -- What is inserted where.
  pub record Created (name token : List ℕ) (db : mongo.Db) (account : Account) (db2 : mongo.Db)
      : Type 0 where
    pub number : ℕ
    pub counted : mongo.Db
    pub same_accounts : mongo.find_all counted ≡ mongo.find_all db
    pub is_new : account ≡ newcomer name number token
    pub stored :
        mongo.insert_account
          (document_of mongo (newcomer name number token))
          (mongo.update_token [] (c_string token) counted)
        ≡ some db2

  saved :
      (name token : List ℕ) (n : ℕ) (db db1 : mongo.Db) (account : Account) (db2 : mongo.Db)
      → mongo.find_all db1 ≡ mongo.find_all db
      → save_account mongo token (named mongo name n (pos 0) no_account) db1 ≡ some (account, db2)
      → Created name token db account db2
  unfolding save_account generate_login_token
  saved name token n db db1 account db2 same' e =
      let (x, e1, f1) =
        map-eq-some {B = Account × mongo.Db} (λ d. (newcomer name n token, d))
          (mongo.insert_account (document_of mongo (newcomer name n token))
            (mongo.update_token [] (c_string token) db1))
          e in
      record {
        number = n;
        counted = db1;
        same_accounts = same';
        is_new = sym (ap {A = Account × mongo.Db} (λ p. p.0) f1);
        stored = e1 ∙ ap some (ap {A = Account × mongo.Db} (λ p. p.1) f1);
      }

  -- A login with a name that no account has makes an account, if it gets that far.
  pub found_or_created-Created :
      (accounts : IsAccountStore mongo) (req : LoginAccountReq) (token : List ℕ) (db : mongo.Db)
      (account : Account) (db2 : mongo.Db)
      → mongo.find_by_name (c_string req.account) db ≡ []
      → found_or_created mongo req token db ≡ some (account, db2)
      → Created req.account token db account db2
  unfolding get_account_by_name create_account_with_uid get_next_id
  found_or_created-Created accounts req token db account db2 none' e =
      let unknown = unknown_name req.account db none' in
      let save : Account → ℕ × mongo.Db → Option (Account × mongo.Db) = λ a (x : ℕ × mongo.Db).
        save_account mongo token (named mongo req.account x.0 (pos 0) a) x.1 in
      let create : Account → Bool → Option (Account × mongo.Db) =
        λ a b. if b then some (a, db) else Option.bind (get_next_id mongo db) (save a) in
      let look : Bool → Account =
        λ b. if b then get_account_info mongo req.account db no_account else no_account in
      let found : Bool → Option (Account × mongo.Db) =
        λ b. if is_empty (look b).username then create (look b) b else some (look b, db) in
      let made : Option.bind (get_next_id mongo db) (save no_account) ≡ some (account, db2) =
        sym (ap found unknown) ∙ e in
      let ((n, db1), e1, f1) =
        bind-eq-some {A = ℕ × mongo.Db} {B = Account × mongo.Db} (get_next_id mongo db)
          (save no_account) made in
      saved req.account token n db db1 account db2
        (next_id_apart accounts (mongo.counter db) db n db1 e1) f1
