-- ===== src/Http/Auth/Passwords.antt =====
-- What the password login of http/auth/PwdAuthenticate.cpp does to the accounts: for a name that the
-- database knows, and for a new one.
use ey_ps.Prelude.{
  ℕ, ◌≤◌, ◌≡◌, ◌≢◌, refl, sym, ap, subst, ◌∙◌, Bool, false, List, [], ◌∷◌, ◌++◌, map, some, All,
  same, same→eq, if◌then◌else◌, arith,
}
use ey_ps.Prelude.Bytes.{codes, c_string, c_string_twice, c_string_whole}
use ey_ps.Prelude.Decimal.{to_string, to_string-positive, to_string-nonempty}
use ey_ps.Prelude.Options.{of_some, map-eq-some}
use ey_ps.Database.Collections.{Document, Mongo, filter, change_first, has_key}
use ey_ps.Database.Keys.{rekeyed, filter-passes}
use ey_ps.Database.Distinct.{
  Absent, In, Absent-ne, filter_only, first_only, In-filter, Absent-filter,
}
use ey_ps.Database.Sound.{
  id_of, name_of, key_of, Clean, IsSound, IsAccountStore, rekeyed-IsSound, retokened-IsSound,
  added-IsSound,
}
use ey_ps.Database.{Account, is_nothing, generate_session_key, document_of}
use ey_ps.Http.Objects.{LoginRet, login_ret}
use ey_ps.Http.Auth.{
  LoginAccountReq, is_empty, refused, found_or_created, logged_in, pwd_authenticate,
  token_authenticate,
}
use ey_ps.Http.Auth.Accepted.{Clean-In, changed-In, first_last, Logged, finish}
use ey_ps.Http.Auth.Known.{known, known_by_name, known_logs_in, nonempty_is}
use ey_ps.Http.Auth.Created.{newcomer, found_or_created-Created}

weaken : (xs : List ℕ) → All (λ c. 48 ≤ c) xs → All (λ c. 1 ≤ c) xs
weaken [] h = tt
weaken (x ∷ xs) h = (omega arith, weaken xs h.1)

-- A number is printed without a zero character.
digits_whole : (n : ℕ) → c_string (to_string n) ≡ to_string n
digits_whole n = c_string_whole (to_string n) (weaken (to_string n) (to_string-positive n))

module _ (mongo : Mongo) (accounts : IsAccountStore mongo) where
  some-In : (d : Document) (ds : List Document) → In d ds → is_nothing mongo ds ≡ false
  some-In d [] i = absurd i
  some-In d (x ∷ ds) i = refl

  module _ (session_key : List ℕ) (nonempty : session_key ≢ [])
      (ckey : c_string session_key ≡ session_key) where
    known-Logged :
        (req : LoginAccountReq) (login_token : List ℕ) (db db' : mongo.Db) (ret : LoginRet)
        (d : Document) (es : List Document)
        → filter (λ x. same x.username (c_string req.account)) (mongo.find_all db) ≡ d ∷ es
        → IsSound (mongo.find_all db)
        → Absent session_key (map key_of (mongo.find_all db))
        → pwd_authenticate mongo req login_token session_key login_ret db ≡ some (ret, db')
        → Logged mongo accounts session_key ret db'
    unfolding generate_session_key
    known-Logged req login_token db db' ret d es found s fresh e =
        let all = mongo.find_all db in
        let name = c_string req.account in
        let i : In d all = In-filter (λ x. same x.username name) all found in
        let (cid, cname, ckey') = Clean-In d all s.clean i in
        let is_named : d.username ≡ name =
          same→eq d.username name (filter-passes (λ x. same x.username name) all found) in
        let one : mongo.find_by_name name db ≡ d ∷ [] =
          accounts.find_by_name-filter name db
          ∙ subst (λ n. filter (λ x. same x.username n) all ≡ d ∷ []) is_named
              (filter_only name_of d all s.names i) in
        let read = known_by_name mongo req.account db d one (some-In d all i) in
        let username : c_string d.username ≢ [] =
          λ q. Absent-ne name_of [] all s.named i (sym cname ∙ q) in
        let in' = known_logs_in mongo req login_token session_key db d read username in
        let (ret1, db1) = logged_in mongo session_key login_ret (known mongo d) db in
        let docs : mongo.find_all db1
            ≡ change_first (has_key d.session_key) (rekeyed session_key) all =
          accounts.store.update_session_key-first (c_string d.session_key) session_key db
          ∙ ap (λ k. change_first (has_key k) (rekeyed session_key) all) ckey' in
        let outcome : (ret1, db1) ≡ (ret, db') = of_some (sym in' ∙ e) in
        subst (λ (x : LoginRet × mongo.Db). Logged mongo accounts session_key x.0 x.1) outcome
          (finish mongo accounts (rekeyed session_key d) db1 session_key ret1 refl cid
            (subst IsSound (sym docs)
              (rekeyed-IsSound d.session_key session_key all s fresh nonempty ckey))
            (subst (In (rekeyed session_key d)) (sym docs) (
              changed-In (has_key d.session_key) (rekeyed session_key) all d
                (first_only key_of d all s.keys i))))

    -- A new document, in a database that is sound without it.
    added-Logged :
        (d : Document) (ret : LoginRet) (old : List Document) (db2 db' : mongo.Db)
        → mongo.find_all db2 ≡ old ++ (d ∷ [])
        → db' ≡ mongo.update_session_key [] session_key db2
        → ret.uid ≡ d.id
        → IsSound old
        → Absent d.id (map id_of old)
        → Absent d.username (map name_of old)
        → Absent session_key (map key_of old)
        → d.id ≢ []
        → d.username ≢ []
        → d.session_key ≡ []
        → Clean d
        → Logged mongo accounts session_key ret db'
    added-Logged d ret old db2 db' docs2 updated hu s i n k hi hn hk c =
        let docs : mongo.find_all db'
            ≡ change_first (has_key []) (rekeyed session_key) (old ++ (d ∷ [])) =
          ap mongo.find_all updated
          ∙ accounts.store.update_session_key-first [] session_key db2
          ∙ ap (change_first (has_key []) (rekeyed session_key)) docs2 in
        finish mongo accounts (rekeyed session_key d) db' session_key ret refl hu
          (subst IsSound (sym docs)
            (added-IsSound d session_key old s i n k hi hn hk nonempty ckey c))
          (subst (In (rekeyed session_key d)) (sym docs) (
            changed-In (has_key []) (rekeyed session_key) (old ++ (d ∷ [])) d
              (first_last [] old d s.keyed hk)))

    new-Logged :
        (req : LoginAccountReq) (login_token : List ℕ) (db db' : mongo.Db) (ret : LoginRet)
        → filter (λ x. same x.username (c_string req.account)) (mongo.find_all db) ≡ []
        → IsSound (mongo.find_all db)
        → Absent session_key (map key_of (mongo.find_all db))
        → c_string req.account ≢ []
        → pwd_authenticate mongo req login_token session_key login_ret db ≡ some (ret, db')
        → Logged mongo accounts session_key ret db'
    unfolding pwd_authenticate generate_session_key c_string
    new-Logged req login_token db db' ret none' s fresh name e =
        let step : Bool → Account × mongo.Db → LoginRet × mongo.Db = λ b (x : Account × mongo.Db).
          if b
          then (refused (codes "account_create_error") login_ret, x.1)
          else logged_in mongo session_key login_ret x.0 x.1 in
        let outcome : Account × mongo.Db → LoginRet × mongo.Db =
          λ (x : Account × mongo.Db). step (is_empty x.0.username) x in
        let ((account, db2), e1, f1) =
          map-eq-some {A = Account × mongo.Db} {B = LoginRet × mongo.Db} outcome
            (found_or_created mongo req login_token db) e in
        let made =
          found_or_created-Created mongo accounts req login_token db account db2
            (accounts.find_by_name-filter (c_string req.account) db ∙ none') e1 in
        let n = made.number in
        let new = newcomer req.account n login_token in
        let d = document_of mongo new in
        let tokened = mongo.update_token [] (c_string login_token) made.counted in
        let (docs2, absent) = accounts.inserted d tokened db2 made.stored in
        let mid =
          change_first (λ x. same x.token []) (λ x. record x { token = c_string login_token })
            (mongo.find_all db) in
        let mids : mongo.find_all tokened ≡ mid =
          accounts.update_token-first [] (c_string login_token) made.counted
          ∙ ap
              (change_first (λ x. same x.token []) (λ x. record x { token = c_string login_token }))
              made.same_accounts in
        let (sound', keys', names') =
          retokened-IsSound (λ x. same x.token []) (c_string login_token) (mongo.find_all db) s in
        let cid : c_string (to_string n) ≡ to_string n = digits_whole n in
        let cname : c_string (c_string req.account) ≡ c_string req.account =
          c_string_twice req.account in
        let entered : step false (new, db2) ≡ (ret, db') =
          ap (λ b. step b (new, db2)) (sym (nonempty_is (c_string req.account) name))
          ∙ ap (λ a. outcome (a, db2)) (sym made.is_new)
          ∙ f1 in
        added-Logged d ret mid db2 db' (docs2 ∙ ap (λ l. l ++ (d ∷ [])) mids)
          (sym (ap {A = LoginRet × mongo.Db} (λ x. x.1) entered))
          (sym (ap {A = LoginRet × mongo.Db} (λ x. x.0.uid) entered) ∙ sym cid) sound'
          (subst (λ l. Absent d.id (map id_of l)) mids absent)
          (subst (λ y. Absent y (map name_of mid)) (sym cname)
            (subst (Absent (c_string req.account)) (sym names')
              (Absent-filter name_of (c_string req.account) (mongo.find_all db) none')))
          (subst (Absent session_key) (sym keys') fresh) (λ q. to_string-nonempty n (sym cid ∙ q))
          (λ q. name (sym cname ∙ q)) refl (ap c_string cid, ap c_string cname, refl)

    filtered-Logged :
        (req : LoginAccountReq) (login_token : List ℕ) (db db' : mongo.Db) (ret : LoginRet)
        (found : List Document)
        → filter (λ x. same x.username (c_string req.account)) (mongo.find_all db) ≡ found
        → IsSound (mongo.find_all db)
        → Absent session_key (map key_of (mongo.find_all db))
        → c_string req.account ≢ []
        → pwd_authenticate mongo req login_token session_key login_ret db ≡ some (ret, db')
        → Logged mongo accounts session_key ret db'
    filtered-Logged req login_token db db' ret [] h s fresh name e =
        new-Logged req login_token db db' ret h s fresh name e
    filtered-Logged req login_token db db' ret (d ∷ es) h s fresh name e =
        known-Logged req login_token db db' ret d es h s fresh e

  -- In a sound database no two accounts share an id, a name or a session key, none of these is empty,
  -- and none has a zero in it. A password login that returns leaves the database sound, whether the
  -- name was known or its account is made by the login, and the token authenticator then accepts the
  -- uid of the answer with the login's session key. The name is not empty, and the session key is not
  -- empty, has no zero in it and is no account's. The calls of the database do what
  -- IsAccountStore says.
  pub pwd_authenticate-IsSound :
      (req : LoginAccountReq) (login_token session_key : List ℕ) (db db' : mongo.Db)
      (ret : LoginRet)
      → IsSound (mongo.find_all db)
      → c_string req.account ≢ []
      → session_key ≢ []
      → c_string session_key ≡ session_key
      → Absent session_key (map key_of (mongo.find_all db))
      → pwd_authenticate mongo req login_token session_key login_ret db ≡ some (ret, db')
      → IsSound (mongo.find_all db')
        × (token_authenticate mongo (record { uid = ret.uid; token = session_key }) login_ret db'
            ≡ record login_ret { message = codes "OK"; uid = ret.uid; token = session_key })
  pwd_authenticate-IsSound req login_token session_key db db' ret s name nonempty ckey fresh e =
      let logged =
        filtered-Logged session_key nonempty ckey req login_token db db' ret
          (filter (λ x. same x.username (c_string req.account)) (mongo.find_all db)) refl s fresh
          name e in
      (logged.sound, logged.accepted)
