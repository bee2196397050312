-- ===== src/Database/Sound.antt =====
-- The accounts that src/database keeps, as a database that its logins leave consistent.
use ey_ps.Prelude.{
  ℕ, ◌≡◌, ◌≢◌, inl, inr, refl, sym, ap, subst, ◌∙◌, Bool, List, [], ◌∷◌, ◌++◌, map, some, All,
  All-append, Bool-cases, same,
}
use ey_ps.Prelude.Bytes.{c_string}
use ey_ps.Database.Collections.{Document, Mongo, IsStore, filter, change_first, has_key}
use ey_ps.Database.Keys.{rekeyed}
use ey_ps.Database.Distinct.{
  Absent, Distinct, replace_first, replace_first-Absent, replace_first-Distinct, replace_first-last,
  Absent-append, Distinct-append,
}
use mathlib.Core.List.{map-append}

abbrev pub id_of : Document → List ℕ
id_of d = d.id

abbrev pub name_of : Document → List ℕ
name_of d = d.username

abbrev pub key_of : Document → List ℕ
key_of d = d.session_key

-- The strings of a document end at their ends.
abbrev pub Clean : Document → Type 0
Clean d =
    (c_string d.id ≡ d.id)
    × (c_string d.username ≡ d.username)
    × (c_string d.session_key ≡ d.session_key)

-- Ids, names and session keys are not empty, and no two accounts share one.
pub record IsSound (ds : List Document) : Type 0 where
  pub ids : Distinct (map id_of ds)
  pub names : Distinct (map name_of ds)
  pub keys : Distinct (map key_of ds)
  pub identified : Absent [] (map id_of ds)
  pub named : Absent [] (map name_of ds)
  pub keyed : Absent [] (map key_of ds)
  pub clean : All Clean ds

-- What the database documents of the other calls.
pub record IsAccountStore (mongo : Mongo) : Type 0 where
  pub store : IsStore mongo
  pub find_by_name-filter :
      (name : List ℕ) (db : mongo.Db)
      → mongo.find_by_name name db ≡ filter (λ d. same d.username name) (mongo.find_all db)
  pub update_token-first :
      (old new : List ℕ) (db : mongo.Db)
      → mongo.find_all (mongo.update_token old new db)
        ≡ change_first (λ d. same d.token old) (λ d. record d { token = new }) (mongo.find_all db)
  -- An insertion that does not throw adds the document, and its id is new.
  pub inserted :
      (d : Document) (db db' : mongo.Db)
      → mongo.insert_account d db ≡ some db'
      → (mongo.find_all db' ≡ mongo.find_all db ++ (d ∷ []))
        × Absent d.id (map id_of (mongo.find_all db))
  pub counter_apart :
      (n : ℕ) (db : mongo.Db) → mongo.find_all (mongo.insert_counter n db) ≡ mongo.find_all db
  pub count_apart :
      (old new : ℕ) (db : mongo.Db)
      → mongo.find_all (mongo.update_counter old new db) ≡ mongo.find_all db

-- A change of one document that a field does not see.
map-change_first :
    (f : Document → List ℕ) (p : Document → Bool) (g : Document → Document) (ds : List Document)
    → ((d : Document) → f (g d) ≡ f d)
    → map f (change_first p g ds) ≡ map f ds
map-change_first f p g [] h = refl
map-change_first f p g (d ∷ ds) h = elim (Bool-cases (p d)) [
  | inl e ↦ rw e (ap (λ x. x ∷ map f ds) (h d))
  | inr e ↦ rw e (ap (λ l. f d ∷ l) (map-change_first f p g ds h))
]

All-change_first :
    (P : Document → Type 0) (p : Document → Bool) (g : Document → Document) (ds : List Document)
    → ((d : Document) → P d → P (g d))
    → All P ds
    → All P (change_first p g ds)
All-change_first P p g [] h a = tt
All-change_first P p g (d ∷ ds) h a = elim (Bool-cases (p d)) [
  | inl e ↦ rw e (h d a.0, a.1)
  | inr e ↦ rw e (a.0, All-change_first P p g ds h a.1)
]

keys-rekeyed :
    (old new : List ℕ) (ds : List Document)
    → map key_of (change_first (has_key old) (rekeyed new) ds)
      ≡ replace_first old new (map key_of ds)
keys-rekeyed old new [] = refl
keys-rekeyed old new (d ∷ ds) = elim (Bool-cases (same d.session_key old)) [
  | inl e ↦ rw e
  | inr e ↦ rw e (ap (λ l. d.session_key ∷ l) (keys-rekeyed old new ds))
]

-- Documents with the same ids and names and other keys.
resound :
    (ds es : List Document)
    → IsSound ds
    → map id_of es ≡ map id_of ds
    → map name_of es ≡ map name_of ds
    → Distinct (map key_of es)
    → Absent [] (map key_of es)
    → All Clean es
    → IsSound es
resound ds es s i n k kd c = record {
  ids = subst Distinct (sym i) s.ids;
  names = subst Distinct (sym n) s.names;
  keys = k;
  identified = subst (Absent []) (sym i) s.identified;
  named = subst (Absent []) (sym n) s.named;
  keyed = kd;
  clean = c;
}

-- A new session key for one of the accounts.
pub rekeyed-IsSound :
    (old new : List ℕ) (ds : List Document)
    → IsSound ds
    → Absent new (map key_of ds)
    → new ≢ []
    → c_string new ≡ new
    → IsSound (change_first (has_key old) (rekeyed new) ds)
rekeyed-IsSound old new ds s absent nonempty cnew =
    let e = sym (keys-rekeyed old new ds) in
    resound ds _ s (map-change_first id_of (has_key old) (rekeyed new) ds (λ d. refl))
      (map-change_first name_of (has_key old) (rekeyed new) ds (λ d. refl))
      (subst Distinct e (replace_first-Distinct old new (map key_of ds) s.keys absent))
      (subst (Absent []) e (replace_first-Absent old new [] (map key_of ds) s.keyed nonempty))
      (All-change_first Clean (has_key old) (rekeyed new) ds (λ d c. (c.0, c.1, cnew)) s.clean)

-- A new token for one of them.
pub retokened-IsSound :
    (p : Document → Bool) (new : List ℕ) (ds : List Document)
    → IsSound ds
    → IsSound (change_first p (λ d. record d { token = new }) ds)
      × (map key_of (change_first p (λ d. record d { token = new }) ds) ≡ map key_of ds)
      × (map name_of (change_first p (λ d. record d { token = new }) ds) ≡ map name_of ds)
retokened-IsSound p new ds s =
    let g : Document → Document = λ d. record d { token = new } in
    let k = map-change_first key_of p g ds (λ d. refl) in
    let n = map-change_first name_of p g ds (λ d. refl) in
    (
      resound ds _ s (map-change_first id_of p g ds (λ d. refl)) n (subst Distinct (sym k) s.keys)
          (subst (Absent []) (sym k) s.keyed) (All-change_first Clean p g ds (λ d c. c) s.clean),
      k,
      n,
    )

-- A new account, whose empty session key is the only one and is then replaced.
pub added-IsSound :
    (d : Document) (new : List ℕ) (ds : List Document)
    → IsSound ds
    → Absent d.id (map id_of ds)
    → Absent d.username (map name_of ds)
    → Absent new (map key_of ds)
    → d.id ≢ []
    → d.username ≢ []
    → d.session_key ≡ []
    → new ≢ []
    → c_string new ≡ new
    → Clean d
    → IsSound (change_first (has_key []) (rekeyed new) (ds ++ (d ∷ [])))
added-IsSound d new ds s i n k hi hn hk nonempty cnew c =
    let all = ds ++ (d ∷ []) in
    let ids =
      map-change_first id_of (has_key []) (rekeyed new) all (λ x. refl)
      ∙ map-append id_of ds (d ∷ []) in
    let names =
      map-change_first name_of (has_key []) (rekeyed new) all (λ x. refl)
      ∙ map-append name_of ds (d ∷ []) in
    let keys =
      keys-rekeyed [] new all
      ∙ ap (replace_first [] new) (map-append key_of ds (d ∷ []))
      ∙ ap (λ y. replace_first [] new (map key_of ds ++ (y ∷ []))) hk
      ∙ replace_first-last [] new (map key_of ds) s.keyed in
    record {
      ids = subst Distinct (sym ids) (Distinct-append d.id (map id_of ds) s.ids i);
      names = subst Distinct (sym names) (Distinct-append d.username (map name_of ds) s.names n);
      keys = subst Distinct (sym keys) (Distinct-append new (map key_of ds) s.keys k);
      identified =
          subst (Absent []) (sym ids) (Absent-append [] d.id (map id_of ds) s.identified hi);
      named =
          subst (Absent []) (sym names) (Absent-append [] d.username (map name_of ds) s.named hn);
      keyed = subst (Absent []) (sym keys) (Absent-append [] new (map key_of ds) s.keyed nonempty);
      clean =
          All-change_first Clean (has_key []) (rekeyed new) all (λ x y. (y.0, y.1, cnew))
            (All-append Clean ds (d ∷ []) s.clean (c, tt));
    }
