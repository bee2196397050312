-- ===== src/Prelude/Assoc.antt =====
-- A hash table with numbers for keys, as the code uses one: find, and assignment through operator[].
use Prim.Native.Nat.{ℕ}
use mathlib.Core.Path.{◌≡◌, sym, subst, ◌∙◌}
use mathlib.Core.Logic.{◌≢◌, inl, inr}
use mathlib.Core.Option.{Option, none, some}
use mathlib.Core.List.{List, [], ◌∷◌}
use native.Mathlib.Omega.{arith}
use ey_ps.Prelude.Tests.{◌==◌, if◌then◌else◌, Bool-cases}
use ey_ps.Prelude.Lists.{All}
use ey_ps.Prelude.Options.{of_some, none-ne-some}

module _ {ℓ} {V : Type ℓ} where
  unfoldable pub find : ℕ → List (ℕ × V) → Option V
  find key [] = none
  find key ((k, v) ∷ table) = if k == key then some v else find key table

  unfoldable pub assign : ℕ → V → List (ℕ × V) → List (ℕ × V)
  assign key value [] = (key, value) ∷ []
  assign key value ((k, v) ∷ table) =
      let rest = assign key value table in if k == key then (k, value) ∷ table else (k, v) ∷ rest

  pub find-assign :
      (key : ℕ) (value : V) (table : List (ℕ × V)) → find key (assign key value table) ≡ some value
  unfolding find assign
  find-assign key value [] = ground arith
  find-assign key value ((k, v) ∷ table) = ground (arith, find-assign key value table)

  pub find-assign_other :
      (key other : ℕ) (value : V) (table : List (ℕ × V))
      → other ≢ key
      → find other (assign key value table) ≡ find other table
  unfolding find assign
  find-assign_other key other value [] h = ground arith
  find-assign_other key other value ((k, v) ∷ table) h =
      ground (arith, find-assign_other key other value table h)

  -- What holds of every value of a table holds of one that is found, and of all after an assignment.
  pub find-All {κ} :
      (P : V → Type κ) (key : ℕ) (table : List (ℕ × V)) {value : V}
      → All (λ p. P p.1) table
      → find key table ≡ some value
      → P value
  unfolding find
  find-All P key [] h e = absurd (none-ne-some e)
  find-All P key ((k, v) ∷ table) h e = elim (Bool-cases (k == key)) [
    | inl q ↦ subst P (of_some (sym (rw q) ∙ e)) h.0
    | inr q ↦ find-All P key table h.1 (sym (rw q) ∙ e)
  ]

  pub assign-All {κ} :
      (P : V → Type κ) (key : ℕ) (value : V) (table : List (ℕ × V))
      → P value
      → All (λ p. P p.1) table
      → All (λ p. P p.1) (assign key value table)
  unfolding assign
  assign-All P key value [] p h = (p, tt)
  assign-All P key value ((k, v) ∷ table) p h = elim (Bool-cases (k == key)) [
    | inl q ↦ rw q (p, h.1)
    | inr q ↦ rw q (h.0, assign-All P key value table p h.1)
  ]
