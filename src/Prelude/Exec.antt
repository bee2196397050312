-- ===== src/Prelude/Exec.antt =====
-- Methods that change an object and may throw. What was written before a throw stays written, so
-- the object comes back beside the exception too.
use mathlib.Core.Path.{◌≡◌, refl, sym, ap, ◌∙◌}

-- The exceptions that the code throws: `length_error` of the readers and of the string writers,
-- the `runtime_error` of a write past the buffer, and the `system_error` of a socket.
-- `past_the_end` is no exception but the index of a span at its end, which is undefined.
pub data Error : Type 0 where
  out_of_data string_too_large out_of_bounds send_failed past_the_end : Error

pub data Result {ℓ} (A : Type ℓ) : Type ℓ where
  ok : A → Result A
  err : Error → Result A

abbrev pub Exec {ℓ} : Type ℓ → Type ℓ → Type ℓ
Exec S A = S → Result A × S

module _ {ℓ} {S A : Type ℓ} where
  abbrev pub pure : A → Exec S A
  pure a s = (ok a, s)

  abbrev pub throw : Error → Exec S A
  throw e s = (err e, s)

module _ {ℓ} {S A B : Type ℓ} where
  abbrev pub continue : Result A → (A → Exec S B) → Exec S B
  continue (ok a) f s = f a s
  continue (err e) f s = (err e, s)

  infixl 10 ◌>>=◌ ◌>>◌
  unfoldable pub ◌>>=◌ : Exec S A → (A → Exec S B) → Exec S B
  ◌>>=◌ m f s = continue (m s).0 f (m s).1

  abbrev pub ◌>>◌ : Exec S A → Exec S B → Exec S B
  m >> n = m >>= λ _. n

  -- One step of a block whose first action is known to return.
  pub >>=-ok :
      (m : Exec S A) (f : A → Exec S B) (s : S) {a : A} {s' : S}
      → m s ≡ (ok a, s')
      → (m >>= f) s ≡ f a s'
  unfolding ◌>>=◌
  >>=-ok m f s e = rw e

  -- One step of a block whose first action is known to throw.
  pub >>=-err :
      (m : Exec S A) (f : A → Exec S B) (s : S) {e : Error} {s' : S}
      → m s ≡ (err e, s')
      → (m >>= f) s ≡ (err e, s')
  unfolding ◌>>=◌
  >>=-err m f s p = rw p

module _ {S A B : Type 0} where
  -- Inversion of a block that returned: its first action did.
  pub >>=-eq-ok :
      (m : Exec S A) (f : A → Exec S B) (s : S) {c : B} {s' : S}
      → (m >>= f) s ≡ (ok c, s')
      → (a : A) × (s1 : S) × (m s ≡ (ok a, s1)) × (f a s1 ≡ (ok c, s'))
  >>=-eq-ok m f s {c} {s'} e = go (m s).0 (m s).1 refl e
    where
      go :
          (r : Result A) (s1 : S)
          → m s ≡ (r, s1)
          → (m >>= f) s ≡ (ok c, s')
          → (a : A) × (s1 : S) × (m s ≡ (ok a, s1)) × (f a s1 ≡ (ok c, s'))
      go (ok a) s1 p q = (a, s1, p, sym (>>=-ok m f s p) ∙ q)
      go (err x) s1 p q =
          let bad : err x ≡ ok c = ap (λ r. r.0) (sym (>>=-err m f s p) ∙ q) in
          let absurdity : ⊥ = cc in absurd absurdity

module _ {ℓ} {A : Type ℓ} where
  abbrev ok_or : A → Result A → A
  ok_or d (ok a) = a
  ok_or d (err e) = d

  pub ok-injective : {a b : A} → ok a ≡ ok b → a ≡ b
  ok-injective {a} e = ap (ok_or a) e
