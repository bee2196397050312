-- ===== src/Prelude/Decimal.antt =====
-- `std::to_string` of an unsigned or non-negative number.
use ey_ps.Prelude.Tests.{ltb, if◌then◌else◌, Bool-cases}
use ey_ps.Prelude.Lists.{length, length-append, All, All-append}
use mathlib.Core.Logic.{◌≢◌, inl, inr}
use Prim.Native.Nat.{ℕ, zero, suc, ◌+◌, ◌-◌, ◌*◌, ◌/◌, ◌%◌, ◌<◌, ◌≤◌}
use mathlib.Core.Path.{◌≡◌, refl, sym, ap, ◌∙◌}
use mathlib.Core.List.{List, [], ◌∷◌, ◌++◌, foldl, foldl-append}
use native.Mathlib.Omega.{arith}

-- Each round takes off the last digit, so fuel above the number is enough (`value-to_string`).
digits : ℕ → ℕ → List ℕ
digits zero n = []
digits (suc fuel) n =
    let front = digits fuel (n / 10) in
    if ltb n 10 then (48 + n) ∷ [] else front ++ ((48 + n % 10) ∷ [])

unfoldable pub to_string : ℕ → List ℕ
unfolding digits
to_string n = digits (suc n) n

-- The number that a run of digits stands for.
abbrev add_digit : ℕ → ℕ → ℕ
add_digit n c = n * 10 + (c - 48)

abbrev value : List ℕ → ℕ
value = foldl add_digit 0

value-digits : (fuel n : ℕ) → n < fuel → value (digits fuel n) ≡ n
unfolding digits
value-digits zero n h = absurd (omega arith)
value-digits (suc fuel) n h = ground (
  arith,
  value-digits fuel (n / 10),
  foldl-append add_digit 0 (digits fuel (n / 10)) ((48 + n % 10) ∷ []),
)

value-to_string : (n : ℕ) → value (to_string n) ≡ n
unfolding to_string
value-to_string n = value-digits (suc n) n (omega arith)

-- Different numbers have different texts.
pub to_string-injective : (m n : ℕ) → to_string m ≡ to_string n → m ≡ n
to_string-injective m n e = sym (value-to_string m) ∙ ap value e ∙ value-to_string n

digits-positive : (fuel n : ℕ) → All (λ c. 48 ≤ c) (digits fuel n)
unfolding digits
digits-positive zero n = tt
digits-positive (suc fuel) n = elim (Bool-cases (ltb n 10)) [
  | inl h ↦ rw h (omega arith, tt)
  | inr h ↦ rw h (
      All-append (λ c. 48 ≤ c) (digits fuel (n / 10)) ((48 + n % 10) ∷ [])
        (digits-positive fuel (n / 10)) (omega arith, tt))
]

-- The text of a number has a character, and no zero.
pub to_string-positive : (n : ℕ) → All (λ c. 48 ≤ c) (to_string n)
unfolding to_string
to_string-positive n = digits-positive (suc n) n

pub to_string-nonempty : (n : ℕ) → to_string n ≢ []
unfolding to_string digits
to_string-nonempty n e = elim (Bool-cases (ltb n 10)) [
  | inl h ↦ let one : (48 + n) ∷ [] ≡ [] = rw h at e in let bad : ⊥ = cc in bad
  | inr h ↦
      let more : digits n (n / 10) ++ ((48 + n % 10) ∷ []) ≡ [] = rw h at e in
      let none' : length (digits n (n / 10) ++ ((48 + n % 10) ∷ [])) ≡ 0 = ap length more in
      omega (arith, none', length-append (digits n (n / 10)) ((48 + n % 10) ∷ []))
]

to_string_10001 : to_string 10001 ≡ 49 ∷ 48 ∷ 48 ∷ 48 ∷ 49 ∷ []
unfolding to_string
to_string_10001 = refl
