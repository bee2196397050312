-- ===== src/Wire/Endian.antt =====
-- `ReverseEndianness` of util/util.h, and the bytes that `Write<T>` emits and `Read<T>` takes,
-- for an unsigned type of `w` bytes.
use ey_ps.Prelude.{
  ℕ, ◌^◌, ◌<◌, ◌≡◌, sym, ap, ◌∙◌, Bool, true, false, List, reverse, if◌then◌else◌, length, All,
  length-reverse,
}
use ey_ps.Prelude.Bytes.{
  IsByte, to_bytes, from_bytes, length-to_bytes, to_bytes-IsByte, from_bytes-to_bytes,
  to_bytes-from_bytes, from_bytes-lt, reverse-IsByte,
}
use mathlib.Core.List.{reverse-reverse}

unfoldable pub reverse_endianness : ℕ → ℕ → ℕ
reverse_endianness w v = from_bytes (reverse (to_bytes w v))

-- The bytes of `srcData` in `Write<T>(data, bigEndian)`.
unfoldable pub written : ℕ → Bool → ℕ → List ℕ
unfolding reverse_endianness
written w big v = to_bytes w (if big then reverse_endianness w v else v)

-- What `Read<T>(bigEndian)` makes of the bytes that it has copied into `result`.
unfoldable pub decoded : ℕ → Bool → List ℕ → ℕ
unfolding reverse_endianness
decoded w big bs = if big then reverse_endianness w (from_bytes bs) else from_bytes bs

-- Storing a number and looking at its bytes gives the bytes back.
to_bytes-from_bytes_eq :
    (w : ℕ) (bs : List ℕ) → length bs ≡ w → All IsByte bs → to_bytes w (from_bytes bs) ≡ bs
to_bytes-from_bytes_eq w bs e h =
    ap (λ k. to_bytes k (from_bytes bs)) (sym e) ∙ to_bytes-from_bytes bs h

-- The reversed bytes of a number, stored and looked at.
to_bytes-reverse_endianness :
    (w v : ℕ) → to_bytes w (reverse_endianness w v) ≡ reverse (to_bytes w v)
unfolding reverse_endianness
to_bytes-reverse_endianness w v =
    to_bytes-from_bytes_eq w (reverse (to_bytes w v))
      (length-reverse (to_bytes w v) ∙ length-to_bytes w v)
      (reverse-IsByte (to_bytes w v) (to_bytes-IsByte w v))

-- Reversing the bytes of a number that fits its width twice gives the number back.
pub reverse_endianness_involutive :
    (w v : ℕ) → v < 256 ^ w → reverse_endianness w (reverse_endianness w v) ≡ v
reverse_endianness_involutive w v h =
    unfold reverse_endianness in
    rw (to_bytes-reverse_endianness w v, reverse-reverse (to_bytes w v)) (from_bytes-to_bytes w v h)

from_bytes-lt_eq : (w : ℕ) (bs : List ℕ) → length bs ≡ w → All IsByte bs → from_bytes bs < 256 ^ w
from_bytes-lt_eq w bs e h = rw (← e) (from_bytes-lt bs h)

pub reverse_endianness-lt : (w v : ℕ) → reverse_endianness w v < 256 ^ w
unfolding reverse_endianness
reverse_endianness-lt w v =
    from_bytes-lt_eq w (reverse (to_bytes w v))
      (length-reverse (to_bytes w v) ∙ length-to_bytes w v)
      (reverse-IsByte (to_bytes w v) (to_bytes-IsByte w v))

pub written_big : (w v : ℕ) → written w true v ≡ reverse (to_bytes w v)
unfolding written
written_big w v = to_bytes-reverse_endianness w v

pub length-written : (w : ℕ) (big : Bool) (v : ℕ) → length (written w big v) ≡ w
unfolding written
length-written w big v = length-to_bytes w _

pub written-IsByte : (w : ℕ) (big : Bool) (v : ℕ) → All IsByte (written w big v)
unfolding written
written-IsByte w big v = to_bytes-IsByte w _

pub decoded-written :
    (w : ℕ) (big : Bool) (v : ℕ) → v < 256 ^ w → decoded w big (written w big v) ≡ v
unfolding decoded written
decoded-written w false v h = from_bytes-to_bytes w v h
decoded-written w true v h =
    ap (reverse_endianness w) (from_bytes-to_bytes w _ (reverse_endianness-lt w v))
    ∙ reverse_endianness_involutive w v h

pub decoded-lt :
    (w : ℕ) (big : Bool) (bs : List ℕ) → length bs ≡ w → All IsByte bs → decoded w big bs < 256 ^ w
unfolding decoded
decoded-lt w false bs e h = from_bytes-lt_eq w bs e h
decoded-lt w true bs e h = reverse_endianness-lt w (from_bytes bs)

-- The bytes that were decoded are those that writing the number again emits.
pub written-decoded :
    (w : ℕ) (big : Bool) (bs : List ℕ)
    → length bs ≡ w
    → All IsByte bs
    → written w big (decoded w big bs) ≡ bs
unfolding decoded written
written-decoded w false bs e h = to_bytes-from_bytes_eq w bs e h
written-decoded w true bs e h =
    ap (to_bytes w) (reverse_endianness_involutive w (from_bytes bs) (from_bytes-lt_eq w bs e h))
    ∙ to_bytes-from_bytes_eq w bs e h
