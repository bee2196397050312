-- ===== src/Database/Collections.antt =====
-- The calls of mongocxx that src/database makes: the collections `account` and `counters` of one
-- database, which is opaque.
use ey_ps.Prelude.{ℕ, ◌≡◌, Bool, List, [], ◌∷◌, Option, none, some, same, if◌then◌else◌}
use ey_ps.Prelude.Int.{ℤ}

-- A document of `account`: the fields that saveAccount gives it.
pub record Document : Type 0 where
  pub id : List ℕ
  pub username : List ℕ
  pub reserved_player_id : ℤ
  pub token : List ℕ
  pub session_key : List ℕ
  pub ban_end_time : ℤ
  pub ban_start_time : ℤ
  pub is_banned : Bool

pub record Mongo : Type 1 where
  pub Db : Type 0
  -- find in `account`: all documents, those with a name, and those with an id; find_one returns the
  -- first of them.
  pub find_all : Db → List Document
  pub find_by_name : List ℕ → Db → List Document
  pub find_by_id : List ℕ → Db → List Document
  -- insert_one, which throws for an id that is there already
  pub insert_account : Document → Db → Option Db
  -- find_one_and_update of the session key or the token: the old value and the new one
  pub update_session_key : List ℕ → List ℕ → Db → Db
  pub update_token : List ℕ → List ℕ → Db → Db
  -- The count of the first document of `counters`.
  pub counter : Db → Option ℕ
  pub insert_counter : ℕ → Db → Db
  pub update_counter : ℕ → ℕ → Db → Db

-- The documents that pass a test, and the change of the first of them.
abbrev pub filter : (Document → Bool) → List Document → List Document
filter p [] = []
filter p (d ∷ ds) = let rest = filter p ds in if p d then d ∷ rest else rest

abbrev pub change_first : (Document → Bool) → (Document → Document) → List Document → List Document
change_first p f [] = []
change_first p f (d ∷ ds) = let rest = change_first p f ds in if p d then f d ∷ ds else d ∷ rest

abbrev pub has_id : List ℕ → Document → Bool
has_id id d = same d.id id

abbrev pub has_key : List ℕ → Document → Bool
has_key key d = same d.session_key key

-- What the database documents of these calls, as far as the theorems use it.
pub record IsStore (mongo : Mongo) : Type 0 where
  pub find_by_id-filter :
      (id : List ℕ) (db : mongo.Db)
      → mongo.find_by_id id db ≡ filter (has_id id) (mongo.find_all db)
  pub update_session_key-first :
      (old new : List ℕ) (db : mongo.Db)
      → mongo.find_all (mongo.update_session_key old new db)
        ≡ change_first (has_key old) (λ d. record d { session_key = new }) (mongo.find_all db)
  pub counter-insert :
      (n : ℕ) (db : mongo.Db)
      → mongo.counter db ≡ none
      → mongo.counter (mongo.insert_counter n db) ≡ some n
  pub counter-update :
      (old new : ℕ) (db : mongo.Db)
      → mongo.counter db ≡ some old
      → mongo.counter (mongo.update_counter old new db) ≡ some new
