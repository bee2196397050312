-- ===== src/Prelude/Options.antt =====
-- Inversion of chains over `Option`.
use mathlib.Core.Path.{◌≡◌, refl, ap}
use mathlib.Core.Option
use mathlib.Core.Option.{Option, none, some}

module _ {ℓ} {A : Type ℓ} where
  abbrev value_or : A → Option A → A
  value_or d none = d
  value_or d (some a) = a

  pub of_some : {a b : A} → some a ≡ some b → a ≡ b
  of_some {a} e = ap (value_or a) e

  pub none-ne-some : {a : A} → ◌≡◌ {A = Option A} none (some a) → ⊥
  none-ne-some e = cc

module _ {A B : Type 0} where
  pub bind-eq-some :
      (o : Option A) (f : A → Option B) {b : B}
      → Option.bind o f ≡ some b
      → (a : A) × (o ≡ some a) × (f a ≡ some b)
  unfolding Option.bind
  bind-eq-some none f e = absurd (none-ne-some e)
  bind-eq-some (some a) f e = (a, refl, e)

  pub map-eq-some :
      (f : A → B) (o : Option A) {b : B}
      → Option.map f o ≡ some b
      → (a : A) × (o ≡ some a) × (f a ≡ b)
  map-eq-some f none e = absurd (none-ne-some e)
  map-eq-some f (some a) e = (a, refl, of_some e)
