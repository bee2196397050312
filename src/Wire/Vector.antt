-- ===== src/Wire/Vector.antt =====
-- The part of `std::vector<std::uint8_t>` that the buffers use: its elements and its capacity.
-- `reserve` and the insertion at the end follow the standard library that the program is built
-- with: the first takes the capacity that is asked for, the second grows geometrically.
use ey_ps.Prelude.{ℕ, ◌+◌, ◌≤◌, List, [], ◌++◌, length, length-append, leb, if◌then◌else◌, arith}
use Prim.Native.Nat.{max}

pub record Vector : Type 0 where
  pub items : List ℕ
  pub capacity : ℕ

abbrev pub empty : Vector
empty = record { items = []; capacity = 0 }

abbrev pub size : Vector → ℕ
size v = length v.items

unfoldable pub reserve : ℕ → Vector → Vector
reserve n v = if leb n v.capacity then v else record v { capacity = n }

unfoldable pub insert_end : List ℕ → Vector → Vector
insert_end data' v = record {
  items = v.items ++ data';
  capacity =
      if leb (size v + length data') v.capacity
      then v.capacity
      else size v + max (size v) (length data');
}

-- The elements fit the capacity.
abbrev pub IsValid : Vector → Type 0
IsValid v = size v ≤ v.capacity

pub insert_end-IsValid : (data' : List ℕ) (v : Vector) → IsValid v → IsValid (insert_end data' v)
unfolding insert_end
insert_end-IsValid data' v h = ground (arith, length-append v.items data')

pub reserve-IsValid : (n : ℕ) (v : Vector) → IsValid v → IsValid (reserve n v)
unfolding reserve
reserve-IsValid n v h = ground arith
