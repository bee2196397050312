-- ===== src/Http/Routes/Tables.antt =====
-- Chains of prefix tests: when two of them cannot both match.
use ey_ps.Prelude.{
  ℕ, ◌≤◌, ◌≡◌, ◌⊎◌, inl, inr, refl, Bool, true, false, ◌&&◌, ◌||◌, not, List, [], ◌∷◌, ◌==◌, length,
  Bool-cases, arith,
}
use ey_ps.Http.Routes.{Route, starts_with, first_match}

-- Two prefixes of one target: one begins with the other.
abbrev pub comparable : List ℕ → List ℕ → Bool
comparable p q = starts_with p q || starts_with q p

pub starts_with-comparable :
    (p q target : List ℕ)
    → starts_with p target ≡ true
    → starts_with q target ≡ true
    → comparable p q ≡ true
unfolding starts_with
starts_with-comparable [] q target hp hq = refl
starts_with-comparable (a ∷ p) [] target hp hq = refl
starts_with-comparable (a ∷ p) (b ∷ q) [] hp hq = ground arith
starts_with-comparable (a ∷ p) (b ∷ q) (t ∷ target) hp hq =
    ground (arith, starts_with-comparable p q target)

-- No prefix of the table can be a prefix of the same target as `p`.
unfoldable pub alone : List ℕ → List (List ℕ × Route) → Bool
alone p [] = true
alone p ((q, route) ∷ table) = not (comparable p q) && alone p table

unfoldable pub apart : List (List ℕ × Route) → List (List ℕ × Route) → Bool
apart [] table = true
apart ((p, route) ∷ table') table = alone p table && apart table' table

first_match-alone :
    (p : List ℕ) (table : List (List ℕ × Route)) (target : List ℕ)
    → starts_with p target ≡ true
    → alone p table ≡ true
    → first_match table target ≡ []
unfolding alone first_match
first_match-alone p [] target hp h = refl
first_match-alone p ((q, route) ∷ table) target hp h =
    let both = starts_with-comparable p q target hp in
    let later = first_match-alone p table target hp in
    elim (Bool-cases (starts_with q target)) [
      | inl hq ↦ absurd (ground (arith, both hq))
      | inr hq ↦ rw hq (later (ground arith))
    ]

pub first_match-apart :
    (table table' : List (List ℕ × Route)) (target : List ℕ)
    → apart table table' ≡ true
    → (first_match table target ≡ []) ⊎ (first_match table' target ≡ [])
unfolding apart first_match
first_match-apart [] table' target h = inl refl
first_match-apart ((p, route) ∷ table) table' target h = elim (Bool-cases (starts_with p target)) [
  | inl hp ↦ inr (first_match-alone p table' target hp (ground arith))
  | inr hp ↦ elim (first_match-apart table table' target (ground arith)) [
    | inl none' ↦ inl (rw hp none')
    | inr none' ↦ inr none'
  ]
]

pub length-first_match :
    (table : List (List ℕ × Route)) (target : List ℕ) → length (first_match table target) ≤ 1
unfolding first_match
length-first_match [] target = omega arith
length-first_match ((p, route) ∷ table) target = ground (arith, length-first_match table target)

-- A prefix whose second character is not a question mark.
unfoldable pub plain : List ℕ → Bool
plain (a ∷ b ∷ p) = not (b == 63)
plain _ = false

unfoldable pub all_plain : List (List ℕ × Route) → Bool
all_plain [] = true
all_plain ((p, route) ∷ table) = plain p && all_plain table

starts_with-plain :
    (p : List ℕ) (a b : ℕ) (target : List ℕ)
    → (b == 63) ≡ true
    → plain p ≡ true
    → starts_with p (a ∷ b ∷ target) ≡ false
unfolding plain starts_with
starts_with-plain [] a b target h hp = absurd (ground (arith, hp))
starts_with-plain (c ∷ []) a b target h hp = ground arith
starts_with-plain (c ∷ d ∷ p) a b target h hp = ground arith

pub first_match-plain :
    (table : List (List ℕ × Route)) (a b : ℕ) (target : List ℕ)
    → (b == 63) ≡ true
    → all_plain table ≡ true
    → first_match table (a ∷ b ∷ target) ≡ []
unfolding all_plain first_match
first_match-plain [] a b target h hp = refl
first_match-plain ((p, route) ∷ table) a b target h hp =
    rw (starts_with-plain p a b target h (ground arith))
      (first_match-plain table a b target h (ground arith))
