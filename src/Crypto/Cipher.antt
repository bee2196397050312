-- ===== src/Crypto/Cipher.antt =====
-- The overloads of `Xor` in util/Crypto.cpp.
pub mod Laws
use ey_ps.Prelude.{
  ℕ, ◌+◌, ◌%◌, ◌^◌, List, [], ◌∷◌, Option, none, some, length, get_or, bit_xor, ltb, if◌then◌else◌,
}

-- for (i …) buf[i] ^= key[i % key_size], from index `i` on.
unfoldable pub xor_loop : List ℕ → ℕ → List ℕ → List ℕ
xor_loop key i [] = []
xor_loop key i (b ∷ bs) = bit_xor b (get_or key (i % length key) 0) ∷ xor_loop key (i + 1) bs

-- `i % key_size` divides by zero where the key is empty and the loop runs at all, and `i` is an int,
-- which overflows on the way to a size that is no int: `none`.
unfoldable pub xor : List ℕ → List ℕ → Option (List ℕ)
unfolding xor_loop
xor [] key = some []
xor (b ∷ bs) [] = none
xor (b ∷ bs) (k ∷ ks) =
    if ltb (length (b ∷ bs)) (2 ^ 31) then some (xor_loop (k ∷ ks) 0 (b ∷ bs)) else none
