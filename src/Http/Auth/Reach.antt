-- ===== src/Http/Auth/Reach.antt =====
-- The accounts as the three logins of http/auth leave them, one login after the other.
use ey_ps.Prelude.{ℕ, ◌≡◌, ◌≢◌, inl, inr, sym, subst, List, [], map, some, Bool-cases, same}
use ey_ps.Prelude.Bytes.{codes, c_string}
use ey_ps.Database.Collections.{Document, Mongo}
use ey_ps.Database.Distinct.{Absent, In}
use ey_ps.Database.Sound.{key_of, IsSound, IsAccountStore, retokened-IsSound}
use ey_ps.Database.{Account, no_account, get_account_by_id, generate_login_token}
use ey_ps.Http.Objects.{LoginRet, login_ret, ComboTokenRes, combo_token_res}
use ey_ps.Http.Auth.{
  LoginAccountReq, LoginTokenReq, ComboTokenReq, token_verdict, pwd_authenticate,
  token_authenticate, session_key_authenticate,
}
use ey_ps.Http.Auth.Accepted.{member_accepted}
use ey_ps.Http.Auth.Passwords.{pwd_authenticate-IsSound}

module _ (mongo : Mongo) where
  -- What one login makes of the database. The session key that createToken makes is new.
  pub data Step : mongo.Db → mongo.Db → Type 0 where
    password :
        (req : LoginAccountReq) (login_token session_key : List ℕ) {db db' : mongo.Db}
        (ret : LoginRet)
        → c_string req.account ≢ []
        → session_key ≢ []
        → c_string session_key ≡ session_key
        → Absent session_key (map key_of (mongo.find_all db))
        → pwd_authenticate mongo req login_token session_key login_ret db ≡ some (ret, db')
        → Step db db'
    token :
        (req : LoginTokenReq) {db : mongo.Db} (ret : LoginRet)
        → token_authenticate mongo req login_ret db ≡ ret
        → Step db db
    session_key :
        (req : ComboTokenReq) (login_token : List ℕ) {db db' : mongo.Db} (res : ComboTokenRes)
        → session_key_authenticate mongo req login_token combo_token_res db ≡ (res, db')
        → Step db db'

  pub data Reachable : mongo.Db → Type 0 where
    empty : {db : mongo.Db} → mongo.find_all db ≡ [] → Reachable db
    after : {db db' : mongo.Db} → Reachable db → Step db db' → Reachable db'

empty-IsSound : IsSound []
empty-IsSound = record {
  ids = tt;
  names = tt;
  keys = tt;
  identified = tt;
  named = tt;
  keyed = tt;
  clean = tt;
}

module _ (mongo : Mongo) (accounts : IsAccountStore mongo) where
  login_token-IsSound :
      (login_token : List ℕ) (account : Account) (db : mongo.Db)
      → IsSound (mongo.find_all db)
      → IsSound (mongo.find_all (generate_login_token mongo login_token account db).1)
  unfolding generate_login_token
  login_token-IsSound login_token account db s =
      subst IsSound (sym (accounts.update_token-first account.token (c_string login_token) db))
        (retokened-IsSound (λ d. same d.token account.token) (c_string login_token)
          (mongo.find_all db) s).0

  session_key_authenticate-IsSound :
      (req : ComboTokenReq) (login_token : List ℕ) (db : mongo.Db)
      → IsSound (mongo.find_all db)
      → IsSound
          (mongo.find_all (session_key_authenticate mongo req login_token combo_token_res db).1)
  unfolding session_key_authenticate
  session_key_authenticate-IsSound req login_token db s =
      let account = get_account_by_id mongo req.uid db no_account in
      elim (Bool-cases (token_verdict account req.token)) [
        | inl h ↦ rw h (login_token-IsSound login_token account db s)
        | inr h ↦ rw h s
      ]

  Step-IsSound :
      (db db' : mongo.Db)
      → Step mongo db db'
      → IsSound (mongo.find_all db)
      → IsSound (mongo.find_all db')
  Step-IsSound db db' (password req login_token key ret n k c f e) s =
      (pwd_authenticate-IsSound mongo accounts req login_token key db db' ret s n k c f e).0
  Step-IsSound db db' (token req ret e) s = s
  Step-IsSound db db' (session_key req login_token res e) s =
      subst (λ (x : ComboTokenRes × mongo.Db). IsSound (mongo.find_all x.1)) e
        (session_key_authenticate-IsSound req login_token db s)

  sound : (db : mongo.Db) → Reachable mongo db → IsSound (mongo.find_all db)
  sound db (empty e) = subst IsSound (sym e) empty-IsSound
  sound db' (after {db} r step) = Step-IsSound db db' step (sound db r)

  -- Whatever logins there have been since the database was empty, in any order, no two accounts share
  -- an id, a name or a session key, none of these is empty, and every account can log in with its id
  -- and its session key. Of the logins it is asked that the names are not empty, and that the session
  -- keys are new, are not empty and have no zero in them. The calls of the database do what
  -- IsAccountStore says.
  pub Reachable-IsSound :
      (db : mongo.Db) (d : Document)
      → Reachable mongo db
      → In d (mongo.find_all db)
      → IsSound (mongo.find_all db)
        × (token_authenticate mongo (record { uid = d.id; token = d.session_key }) login_ret db
            ≡ record login_ret { message = codes "OK"; uid = d.id; token = d.session_key })
  Reachable-IsSound db d r i = let s = sound db r in (s, member_accepted mongo accounts d db s i)
