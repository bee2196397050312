-- ===== src/Prelude/Int.antt =====
-- Signed results of C functions: `negsuc n` is -(n + 1).
use Prim.Native.Nat.{ℕ, zero, suc}
use mathlib.Core.Bool.{Bool, true, false}

pub data ℤ : Type 0 where
  pos : ℕ → ℤ
  negsuc : ℕ → ℤ

-- n > 0
abbrev pub is_positive : ℤ → Bool
is_positive (pos zero) = false
is_positive (pos (suc n)) = true
is_positive (negsuc n) = false

-- n && n != -1
abbrev pub is_size : ℤ → Bool
is_size (pos zero) = false
is_size (pos (suc n)) = true
is_size (negsuc zero) = false
is_size (negsuc (suc n)) = true

-- The number of bytes that a size stands for, where it is not negative.
abbrev pub magnitude : ℤ → ℕ
magnitude (pos n) = n
magnitude (negsuc n) = 0
