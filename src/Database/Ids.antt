-- ===== src/Database/Ids.antt =====
-- The ids of database/databaseHelper.cpp.
use ey_ps.Prelude.{
  ℕ, zero, suc, true, ◌+◌, ◌^◌, ◌<◌, ◌≡◌, refl, List, [], ◌∷◌, none, some, ltb, lt→ltb, arith,
}
use ey_ps.Database.Collections.{Mongo, IsStore}
use ey_ps.Database.{get_next_id, next_ids}
use mathlib.Core.Option

-- So many numbers from `first` on.
abbrev pub counted : ℕ → ℕ → List ℕ
counted zero first = []
counted (suc n) first = first ∷ counted n (suc first)

module _ (mongo : Mongo) (store : IsStore mongo) where
  later_ids :
      (calls count : ℕ) (db : mongo.Db)
      → mongo.counter db ≡ some count
      → count + calls < 2 ^ 31
      → (db' : mongo.Db) × (next_ids mongo calls db ≡ some (counted calls (suc count), db'))
  unfolding next_ids get_next_id Option.bind
  later_ids zero count db c h = (db, refl)
  later_ids (suc calls) count db c h =
      let one : count + 1 ≡ suc count = omega arith in
      let small : ltb (count + 1) (2 ^ 31) ≡ true = lt→ltb (count + 1) (2 ^ 31) (omega arith) in
      let (db', e) =
        later_ids calls (count + 1) (mongo.update_counter count (count + 1) db)
          (store.counter-update count (count + 1) db c) (omega arith) in
      (db', rw (c, small, e, one))

  -- As long as the ids fit an int, the calls of `getNextId` on a database without a counter give out
  -- 100, 101, 102 and so on, no id twice.
  pub next_ids-counted :
      (calls : ℕ) (db : mongo.Db)
      → mongo.counter db ≡ none
      → 100 + calls < 2 ^ 31
      → (db' : mongo.Db) × (next_ids mongo calls db ≡ some (counted calls 100, db'))
  unfolding next_ids get_next_id Option.bind
  next_ids-counted zero db c h = (db, refl)
  next_ids-counted (suc calls) db c h =
      let (db', e) =
        later_ids calls 100 (mongo.insert_counter 100 db) (store.counter-insert 100 db c)
          (omega arith) in
      (db', rw (c, e))
