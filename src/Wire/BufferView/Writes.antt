-- ===== src/Wire/BufferView/Writes.antt =====
-- The writer side of util/bufferView.cpp.
use ey_ps.Prelude.{
  ℕ, ◌+◌, ◌^◌, ◌≤◌, ◌<◌, ◌≡◌, ap, Bool, List, ◌++◌, length, length-append, arith, refl,
}
use ey_ps.Prelude.Exec.{Exec, ok, ◌>>◌}
use ey_ps.Wire.Endian.{written}
use ey_ps.Wire.Vector
use ey_ps.Wire.Vector.{reserve}
use ey_ps.Wire.Appending
use ey_ps.Wire.BufferView.{BufferView, make, write_array, write}

-- A view that is only written to: the offset is the end of what has been written.
pub record IsWriter (b : BufferView) : Type 0 where
  pub at_end : b.cur_data_offset ≡ Vector.size b.buffer
  pub fits : Vector.size b.buffer ≤ b.buffer.capacity

pub IsWriter-make : (view : List ℕ) → IsWriter (make view)
IsWriter-make view = record { at_end = refl; fits = omega arith }

abbrev pub items : BufferView → List ℕ
items b = b.buffer.items

abbrev pub Writes : Exec BufferView (Unit {0}) → List ℕ → Type 0
Writes = Appending.Writes items IsWriter

write_array_appends :
    (bytes : List ℕ) (b : BufferView)
    → IsWriter b
    → b.cur_data_offset + length bytes < 2 ^ 64
    → ((write_array bytes b).0 ≡ ok tt)
      × ((write_array bytes b).1.buffer.items ≡ b.buffer.items ++ bytes)
      × IsWriter (write_array bytes b).1
unfolding write_array reserve
write_array_appends bytes b v h = ground (arith, length-append b.buffer.items bytes)

pub write_array-Writes : (bytes : List ℕ) → Writes (write_array bytes) bytes
write_array-Writes bytes b v fits =
    let (r, i, v') = write_array_appends bytes b v (omega (arith, v.at_end)) in
    ((write_array bytes b).1, ap (λ r. (r, (write_array bytes b).1)) r, i, v')

pub write-Writes : (w v : ℕ) (big : Bool) → Writes (write w v big) (written w big v)
unfolding write
write-Writes w v big = write_array-Writes (written w big v)

-- Two writers in turn.
pub Writes->> :
    (m k : Exec BufferView (Unit {0})) (xs ys : List ℕ)
    → Writes m xs
    → Writes k ys
    → Writes (m >> k) (xs ++ ys)
Writes->> = Appending.Writes->> items IsWriter
