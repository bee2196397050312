-- ===== src/Crypto/Mersenne.antt =====
-- `std::mt19937_64`, as the C++ standard defines it (mersenne_twister_engine with w = 64, n = 312,
-- m = 156, r = 31). The state is the window of the last 312 words, the oldest first.
use ey_ps.Prelude.{
  ℕ, zero, suc, ◌+◌, ◌*◌, ◌/◌, ◌%◌, ◌^◌, List, [], ◌∷◌, ◌++◌, get_or, bit_xor, ◌==◌, if◌then◌else◌,
  ◌≡◌, refl,
}
use Prim.Native.Nat.{bit_and}
use mathlib.Core.List.{tail}

-- X_i = f * (X_(i-1) xor (X_(i-1) >> 62)) + i, modulo 2 ^ 64
seed_words : ℕ → ℕ → ℕ → List ℕ
seed_words zero i x = []
seed_words (suc left) i x =
    x ∷ seed_words left (i + 1) ((6364136223846793005 * bit_xor x (x / 2 ^ 62) + i) % 2 ^ 64)

-- seed(value)
pub seed : ℕ → List ℕ
unfolding seed_words
seed value = seed_words 312 1 (value % 2 ^ 64)

twist : ℕ → ℕ → ℕ → ℕ
twist oldest second middle =
    let y = oldest / 2 ^ 31 * 2 ^ 31 + second % 2 ^ 31 in
    bit_xor middle (bit_xor (y / 2) (if y % 2 == 0 then 0 else 0xB5026F5AA96619E9))

temper : ℕ → ℕ
temper x =
    let y = bit_xor x (bit_and (x / 2 ^ 29) 0x5555555555555555) in
    let z = bit_xor y (bit_and (y * 2 ^ 17 % 2 ^ 64) 0x71D67FFFEDA60000) in
    let w = bit_xor z (bit_and (z * 2 ^ 37 % 2 ^ 64) 0xFFF7EEE000000000) in bit_xor w (w / 2 ^ 43)

-- operator(): the next number, and the state after it
pub next : List ℕ → ℕ × List ℕ
unfolding twist temper
next words =
    let new = twist (get_or words 0 0) (get_or words 1 0) (get_or words 156 0) in
    (temper new % 2 ^ 64, tail words ++ (new ∷ []))

-- The first number of the default seed, a published value.
first_number : (next (seed 5489)).0 ≡ 14514284786278117030
unfolding next seed
first_number = refl
