-- ===== src/Database/Keys.antt =====
-- What generateSessionKey of database/Account.cpp changes in the database.
use ey_ps.Prelude.{
  ℕ, ◌≡◌, sym, ap, subst, ◌∙◌, inl, inr, Bool, true, List, [], ◌∷◌, Option, none, some, clash,
  Bool-cases, if◌then◌else◌,
}
use ey_ps.Prelude.Options.{of_some, none-ne-some}
use ey_ps.Database.Collections.{Document, Mongo, IsStore, filter, change_first, has_id, has_key}
use ey_ps.Database.{Account, generate_session_key}

abbrev pub first_with : (Document → Bool) → List Document → Option Document
first_with p [] = none
first_with p (d ∷ ds) = let rest = first_with p ds in if p d then some d else rest

abbrev pub rekeyed : List ℕ → Document → Document
rekeyed new d = record d { session_key = new }

first_with-passes :
    (p : Document → Bool) (ds : List Document) {d : Document}
    → first_with p ds ≡ some d
    → p d ≡ true
first_with-passes p [] e = absurd (none-ne-some e)
first_with-passes p (x ∷ ds) e = elim (Bool-cases (p x)) [
  | inl h ↦ subst (λ y. p y ≡ true) (of_some (sym (rw h) ∙ e)) h
  | inr h ↦ first_with-passes p ds (sym (rw h) ∙ e)
]

abbrev head_or : Document → List Document → Document
head_or d [] = d
head_or d (x ∷ xs) = x

abbrev tail_of : List Document → List Document
tail_of [] = []
tail_of (x ∷ xs) = xs

pub filter-passes :
    (p : Document → Bool) (ds : List Document) {d : Document} {es : List Document}
    → filter p ds ≡ d ∷ es
    → p d ≡ true
filter-passes p [] e = let bad : ⊥ = cc in absurd bad
filter-passes p (x ∷ ds) {d} {es} e = elim (Bool-cases (p x)) [
  | inl h ↦
      let found : x ∷ filter p ds ≡ d ∷ es = rw h at e in
      subst (λ y. p y ≡ true) (ap (head_or d) found) h
  | inr h ↦ filter-passes p ds (rw h at e)
]

-- The one document with an id is the one that changes, if it is the first with its key.
pub filter-change_first :
    (id old new : List ℕ) (ds : List Document) (d : Document)
    → first_with (has_key old) ds ≡ some d
    → filter (has_id id) ds ≡ d ∷ []
    → filter (has_id id) (change_first (has_key old) (rekeyed new) ds) ≡ rekeyed new d ∷ []
filter-change_first id old new [] d first one = absurd (none-ne-some first)
filter-change_first id old new (x ∷ ds) d first one = elim (Bool-cases (has_key old x)) [
  | inl k ↦
      let same' : x ≡ d = of_some (rw k at first) in
      elim (Bool-cases (has_id id x)) [
        | inl i ↦
            let found : x ∷ filter (has_id id) ds ≡ d ∷ [] = rw i at one in
            rw (k, i, ap tail_of found) (ap (λ y. rekeyed new y ∷ []) same')
        | inr i ↦ absurd (
            clash
              (subst (λ y. has_id id y ≡ true) (sym same')
                (filter-passes (has_id id) ds (rw i at one)))
              i)
      ]
  | inr k ↦ elim (Bool-cases (has_id id x)) [
    | inl i ↦
        let found : x ∷ filter (has_id id) ds ≡ d ∷ [] = rw i at one in
        absurd (
          clash
            (subst (λ y. has_key old y ≡ true) (sym (ap (head_or d) found))
              (first_with-passes (has_key old) ds (rw k at first)))
            k)
    | inr i ↦ rw (k, i) (filter-change_first id old new ds d (rw k at first) (rw i at one))
  ]
]

module _ (mongo : Mongo) (store : IsStore mongo) where
  -- The account is in the database: one document has its id, and that is the first with its key.
  pub record Holds (account : Account) (db : mongo.Db) : Type 0 where
    pub document : Document
    pub only : filter (has_id account.id) (mongo.find_all db) ≡ document ∷ []
    pub first : first_with (has_key account.session_key) (mongo.find_all db) ≡ some document

  -- A new session key goes to the one document of the account.
  pub generate_session_key-document :
      (fresh : List ℕ) (account : Account) (db : mongo.Db) (h : Holds account db)
      → mongo.find_by_id account.id (generate_session_key mongo fresh account db).1
        ≡ rekeyed fresh h.document ∷ []
  unfolding generate_session_key
  generate_session_key-document fresh account db h =
      store.find_by_id-filter account.id (mongo.update_session_key account.session_key fresh db)
      ∙ ap (filter (has_id account.id))
          (store.update_session_key-first account.session_key fresh db)
      ∙ filter-change_first account.id account.session_key fresh (mongo.find_all db) h.document
          h.first h.only
