-- ===== src/Wire/Appending.antt =====
-- Writers that append: a rule for each step, shared by the two buffer classes. `items` is what has
-- been written, and `Valid` the invariant of the class.
use ey_ps.Prelude.{ℕ, ◌+◌, ◌^◌, ◌<◌, ◌≡◌, ap, ◌∙◌, List, ◌++◌, length, length-append, arith}
use ey_ps.Prelude.Exec.{Exec, ok, ◌>>◌, >>=-ok}
use mathlib.Core.List.{append_assoc}

module _ {S : Type 0} (items : S → List ℕ) (Valid : S → Type 0) where
  -- `m` returns, has appended `bytes`, and has kept the invariant.
  abbrev pub Writes : Exec S (Unit {0}) → List ℕ → Type 0
  Writes m bytes =
      (s : S)
      → Valid s
      → length (items s) + length bytes < 2 ^ 63
      → (s' : S) × (m s ≡ (ok tt, s')) × (items s' ≡ items s ++ bytes) × Valid s'

  pub Writes->> :
      (m k : Exec S (Unit {0})) (xs ys : List ℕ)
      → Writes m xs
      → Writes k ys
      → Writes (m >> k) (xs ++ ys)
  Writes->> m k xs ys hm hk s v fits =
      let (s1, e1, i1, v1) = hm s v (omega (arith, length-append xs ys)) in
      let (s2, e2, i2, v2) =
        hk s1 v1 (omega (arith, ap length i1, length-append (items s) xs, length-append xs ys)) in
      (
        s2,
        >>=-ok m (λ _. k) s e1 ∙ e2,
        i2 ∙ ap (λ l. l ++ ys) i1 ∙ append_assoc (items s) xs ys,
        v2,
      )
