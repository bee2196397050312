-- ===== src/Prelude/Bytes.antt =====
-- Byte strings: the codes of a literal, and the bytes of an unsigned integer in memory
-- (little-endian, as on the hosts that the program is built for).
use ey_ps.Prelude.Lists.{length, All, All-append}
use ey_ps.Prelude.Tests.{◌==◌, if◌then◌else◌, Bool-cases}
use mathlib.Core.Logic.{inl, inr}
use Prim.Native.Nat.{ℕ, zero, suc, ◌+◌, ◌*◌, ◌/◌, ◌%◌, ◌^◌, ◌<◌, ◌≤◌}
use Prim.Native.Char.{code}
use Prim.Native.String.{String}
use mathlib.Core.Path.{◌≡◌, refl, ap}
use mathlib.Core.List.{List, [], ◌∷◌, reverse, reverse-cons}
use native.Mathlib.Nat.{pow-suc}
use native.Mathlib.Omega.{arith}

-- A literal of the source, as its bytes (all of them are ASCII).
abbrev pub codes : String → List ℕ
codes String.[] = []
codes (String.◌∷◌ c s) = code c ∷ codes s

abbrev pub IsByte : ℕ → Type 0
IsByte b = b < 256

-- The object representation of an unsigned integer of `w` bytes.
unfoldable pub to_bytes : ℕ → ℕ → List ℕ
to_bytes zero n = []
to_bytes (suc w) n = (n % 256) ∷ to_bytes w (n / 256)

-- The integer that the bytes represent.
unfoldable pub from_bytes : List ℕ → ℕ
from_bytes [] = 0
from_bytes (b ∷ bs) = b + 256 * from_bytes bs

pub length-to_bytes : (w n : ℕ) → length (to_bytes w n) ≡ w
unfolding to_bytes
length-to_bytes zero n = refl
length-to_bytes (suc w) n = ap suc (length-to_bytes w (n / 256))

pub to_bytes-IsByte : (w n : ℕ) → All IsByte (to_bytes w n)
unfolding to_bytes
to_bytes-IsByte zero n = tt
to_bytes-IsByte (suc w) n = (omega arith, to_bytes-IsByte w (n / 256))

div_bound : (w n : ℕ) → n < 256 ^ suc w → n / 256 < 256 ^ w
div_bound w n h = omega (arith, pow-suc 256 w)

pub from_bytes-to_bytes : (w n : ℕ) → n < 256 ^ w → from_bytes (to_bytes w n) ≡ n
unfolding to_bytes from_bytes
from_bytes-to_bytes zero n h = omega arith
from_bytes-to_bytes (suc w) n h = omega (arith, from_bytes-to_bytes w (n / 256) (div_bound w n h))

pub to_bytes-from_bytes : (bs : List ℕ) → All IsByte bs → to_bytes (length bs) (from_bytes bs) ≡ bs
unfolding to_bytes from_bytes
to_bytes-from_bytes [] h = refl
to_bytes-from_bytes (b ∷ bs) (hb, hbs) = ground (arith, to_bytes-from_bytes bs hbs)

pub from_bytes-lt : (bs : List ℕ) → All IsByte bs → from_bytes bs < 256 ^ length bs
unfolding from_bytes
from_bytes-lt [] h = omega arith
from_bytes-lt (b ∷ bs) (hb, hbs) = omega (arith, pow-suc 256 (length bs), from_bytes-lt bs hbs)

pub reverse-IsByte : (bs : List ℕ) → All IsByte bs → All IsByte (reverse bs)
reverse-IsByte [] h = tt
reverse-IsByte (b ∷ bs) (hb, hbs) =
    rw (reverse-cons b bs)
      (All-append IsByte (reverse bs) (b ∷ []) (reverse-IsByte bs hbs) (hb, tt))

-- The characters of a C string: those before the first zero.
unfoldable pub c_string : List ℕ → List ℕ
c_string [] = []
c_string (b ∷ bs) = let rest = c_string bs in if b == 0 then [] else b ∷ rest

pub c_string_twice : (s : List ℕ) → c_string (c_string s) ≡ c_string s
unfolding c_string
c_string_twice [] = refl
c_string_twice (b ∷ bs) = elim (Bool-cases (b == 0)) [
  | inl h ↦ rw h
  | inr h ↦ rw (h, h, c_string_twice bs)
]

pub c_string_whole : (s : List ℕ) → All (λ c. 1 ≤ c) s → c_string s ≡ s
unfolding c_string
c_string_whole [] h = refl
c_string_whole (b ∷ bs) h = ground (arith, c_string_whole bs h.1)
