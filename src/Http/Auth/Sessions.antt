-- ===== src/Http/Auth/Sessions.antt =====
-- A session key that a login gives out is accepted by the authenticators that ask for it.
use ey_ps.Prelude.Int.{negsuc}
use ey_ps.Prelude.{
  sym, Bool, Bool-cases, true, false, ◌⊎◌, inl, inr, clash, same, same_refl, not, ◌&&◌, ℕ, ◌≡◌, ◌≢◌,
  refl, ap, ◌∙◌, List, [], ◌∷◌, same→eq, if◌then◌else◌,
}
use ey_ps.Prelude.Bytes.{codes, c_string}
use ey_ps.Database.Collections.{Mongo, IsStore, Document, has_id, filter}
use ey_ps.Database.{
  Account, no_account, generate_session_key, get_account_by_id, check_account_by_id, read_documents,
}
use ey_ps.Database.Keys.{Holds, generate_session_key-document, rekeyed, filter-passes}
use ey_ps.Http.Objects.{LoginRet}
use ey_ps.Http.Auth.{token_authenticate, token_verdict, is_empty, refused}

-- The verdict on an account that was read, and the answer that it gives.
abbrev answer_of : Account → List ℕ → LoginRet → LoginRet
answer_of account token rsp =
    if token_verdict account token
    then record rsp { message = codes "OK"; uid = account.id; token = account.session_key }
    else refused (codes "account_cache_error") rsp

accepted :
    (account : Account) (id token : List ℕ) (rsp : LoginRet)
    → account.id ≡ id
    → account.session_key ≡ token
    → id ≢ []
    → answer_of account token rsp ≡ record rsp { message = codes "OK"; uid = id; token = token }
accepted account [] token rsp hi hk nonempty = absurd (nonempty refl)
accepted account (c ∷ id) token rsp hi hk nonempty = rw (hi, hk, same_refl token)

module _ (mongo : Mongo) (store : IsStore mongo) where
  read_back :
      (uid : List ℕ) (db : mongo.Db) (d : Document)
      → mongo.find_by_id (c_string uid) db ≡ d ∷ []
      → get_account_by_id mongo uid db no_account ≡ read_documents mongo (d ∷ []) no_account
  unfolding get_account_by_id check_account_by_id
  read_back uid db d e = rw e

  -- What is read of an account whose session key is new.
  pub fresh_account :
      (fresh : List ℕ) (account : Account) (db : mongo.Db)
      → Holds mongo store account db
      → c_string account.id ≡ account.id
      → c_string fresh ≡ fresh
      → (a : Account) × (get_account_by_id mongo account.id
            (generate_session_key mongo fresh account db).1
            no_account
          ≡ a)
        × (a.id ≡ account.id)
        × (a.session_key ≡ fresh)
  fresh_account fresh account db h cid ckey =
      let db' = (generate_session_key mongo fresh account db).1 in
      let d = rekeyed fresh h.document in
      let same_id : h.document.id ≡ account.id =
        same→eq h.document.id account.id
          (filter-passes (has_id account.id) (mongo.find_all db) h.only) in
      let found : mongo.find_by_id (c_string account.id) db' ≡ d ∷ [] =
        ap (λ i. mongo.find_by_id i db') cid
        ∙ generate_session_key-document mongo store fresh account db h in
      (
        read_documents mongo (d ∷ []) no_account,
        read_back account.id db' d found,
        ap c_string same_id ∙ cid,
        ckey,
      )

  -- After `generateSessionKey` the token authenticator accepts the account's id with the new key and
  -- answers with them, if the database holds the account: one document has its id, and it is the
  -- first with its old key. The id is not empty, and neither it nor the key has a zero in it.
  pub token_authenticate-fresh :
      (fresh : List ℕ) (account : Account) (db : mongo.Db) (rsp : LoginRet)
      → Holds mongo store account db
      → account.id ≢ []
      → c_string account.id ≡ account.id
      → c_string fresh ≡ fresh
      → token_authenticate mongo
          (record { uid = account.id; token = fresh })
          rsp
          (generate_session_key mongo fresh account db).1
        ≡ record rsp { message = codes "OK"; uid = account.id; token = fresh }
  unfolding token_authenticate
  token_authenticate-fresh fresh account db rsp h nonempty cid ckey =
      let (a, read, hi, hk) = fresh_account fresh account db h cid ckey in
      ap (λ x. answer_of x fresh rsp) read ∙ accepted a account.id fresh rsp hi hk nonempty

-- What the verdict on an account with an id comes to.
answer_cases :
    (account : Account) (token : List ℕ) (rsp : LoginRet)
    → account.id ≢ []
    → ((token ≡ account.session_key)
        × (answer_of account token rsp
            ≡ record rsp { message = codes "OK"; uid = account.id; token = token }))
      ⊎ ((token ≢ account.session_key)
          × (answer_of account token rsp ≡ refused (codes "account_cache_error") rsp))
answer_cases account token rsp nonempty = elim (Bool-cases (same account.session_key token)) [
  | inl e ↦
      let key : account.session_key ≡ token = same→eq account.session_key token e in
      inl (sym key, accepted account account.id token rsp refl key nonempty)
  | inr e ↦
      let verdict : token_verdict account token ≡ false =
        ap (λ b. not (is_empty account.id) && b) e ∙ and-false (not (is_empty account.id)) in
      inr (
        λ p. clash (ap (λ t. same account.session_key t) p ∙ same_refl account.session_key) e,
        ap
            (λ b.
              if b
              then record rsp {
                message = codes "OK";
                uid = account.id;
                token = account.session_key;
              }
              else refused (codes "account_cache_error") rsp)
            verdict,
      )
]
  where
    and-false : (b : Bool) → (b && false) ≡ false
    and-false true = refl
    and-false false = refl

module _ (mongo : Mongo) (store : IsStore mongo) where
  -- For an id that one document has, the token authenticator accepts exactly the session key of that
  -- document, and answers with the id and the key; every other token it refuses with the code -201.
  -- The document's id is not empty, and strings end at their first zero.
  pub token_authenticate_exact :
      (uid token : List ℕ) (db : mongo.Db) (rsp : LoginRet) (d : Document)
      → filter (has_id (c_string uid)) (mongo.find_all db) ≡ d ∷ []
      → c_string d.id ≢ []
      → ((token ≡ c_string d.session_key)
          × (token_authenticate mongo (record { uid = uid; token = token }) rsp db
              ≡ record rsp { message = codes "OK"; uid = c_string d.id; token = token }))
        ⊎ ((token ≢ c_string d.session_key)
            × (token_authenticate mongo (record { uid = uid; token = token }) rsp db
                ≡ record rsp { retcode = negsuc 200; message = codes "account_cache_error" }))
  unfolding token_authenticate
  token_authenticate_exact uid token db rsp d only nonempty =
      let found : mongo.find_by_id (c_string uid) db ≡ d ∷ [] =
        store.find_by_id-filter (c_string uid) db ∙ only in
      let read = ap (λ a. answer_of a token rsp) (read_back mongo store uid db d found) in
      elim (answer_cases (read_documents mongo (d ∷ []) no_account) token rsp nonempty) [
        | inl (key, answer) ↦ inl (key, read ∙ answer)
        | inr (key, answer) ↦ inr (key, read ∙ answer)
      ]
