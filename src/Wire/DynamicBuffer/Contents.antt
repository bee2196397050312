-- ===== src/Wire/DynamicBuffer/Contents.antt =====
-- What the writers of util/dynamicBuffer.cpp leave in the buffer.
use ey_ps.Prelude.{
  ℕ, ◌+◌, ◌%◌, ◌^◌, ◌≤◌, ◌<◌, ◌≡◌, refl, ap, ◌∙◌, ◌⊎◌, inl, inr, Bool, false, List, [], ◌++◌,
  length, length-append, length-take, length-drop, take, drop, drop-drop, sym, take-length-append,
  drop-length-append, lt→leb_false, arith,
}
use ey_ps.Prelude.Exec.{Exec, ok, err, out_of_bounds, ◌>>◌}
use ey_ps.Wire.Vector
use ey_ps.Wire.Appending
use native.Mathlib.Decide.{dec_lt}
use ey_ps.Wire.Endian.{written}
use ey_ps.Wire.Vector.{Vector, reserve, insert_end, insert_end-IsValid}
use ey_ps.Wire.DynamicBuffer.{
  DynamicBuffer, make, make_room, write_array, write, write_string, write_long_string,
  write_to_offset_array,
}

-- The offset is the end of the contents, and the contents fit the capacity, which is an address.
pub record IsValid (b : DynamicBuffer) : Type 0 where
  pub at_end : b.cur_offset ≡ Vector.size b.buffer
  pub fits : Vector.size b.buffer ≤ b.buffer.capacity

pub make-IsValid : (n : ℕ) → IsValid (make n)
unfolding make reserve
make-IsValid n = ground arith

pub items-make : (n : ℕ) → (make n).buffer.items ≡ []
unfolding make reserve
items-make n = ground arith

make_room-fits :
    (count : ℕ) (b : DynamicBuffer)
    → IsValid b
    → b.cur_offset + count < 2 ^ 64
    → b.buffer.capacity < 2 ^ 64
    → Vector.size b.buffer + count ≤ (make_room count b).buffer.capacity
unfolding make_room reserve
make_room-fits count b v h c = ground arith

-- `WriteArray` appends the bytes at the end, moves the offset to the new end, and keeps the contents
-- within the capacity, as long as the sizes stay below 2 ^ 64.
pub write_array_appends :
    (data' : List ℕ) (b : DynamicBuffer)
    → IsValid b
    → b.cur_offset + length data' < 2 ^ 64
    → ((write_array data' b).0 ≡ ok tt)
      × ((write_array data' b).1.buffer.items ≡ b.buffer.items ++ data')
      × IsValid (write_array data' b).1
unfolding write_array reserve
write_array_appends data' b v h = ground (arith, length-append b.buffer.items data')

abbrev pub items : DynamicBuffer → List ℕ
items b = b.buffer.items

-- Appending, as a property of an action.
abbrev pub Writes : Exec DynamicBuffer (Unit {0}) → List ℕ → Type 0
Writes = Appending.Writes items IsValid

write_array-Writes : (bytes : List ℕ) → Writes (write_array bytes) bytes
write_array-Writes bytes b v fits =
    let (r, i, v') = write_array_appends bytes b v (omega (arith, v.at_end)) in
    ((write_array bytes b).1, ap (λ r. (r, (write_array bytes b).1)) r, i, v')

pub write-Writes : (w v : ℕ) (big : Bool) → Writes (write w v big) (written w big v)
unfolding write
write-Writes w v big = write_array-Writes (written w big v)

-- A string with its length in front, in `w` bytes.
abbrev pub encoded : ℕ → List ℕ → List ℕ
encoded w str = written w false (length str) ++ str

write_string_short :
    (str : List ℕ)
    → length str < 255
    → write_string str ≡ (write 1 (length str) false >> write_array str)
unfolding write_string
write_string_short str h =
    let same : length str % 2 ^ 8 ≡ length str = omega arith in
    rw (lt→leb_false 255 (length str) h, same)

write_long_string_short :
    (str : List ℕ)
    → length str < 65535
    → write_long_string str ≡ (write 2 (length str) false >> write_array str)
unfolding write_long_string
write_long_string_short str h =
    let same : length str % 2 ^ 16 ≡ length str = omega arith in
    rw (lt→leb_false 65535 (length str) h, same)

length_then :
    (w : ℕ) (str : List ℕ) → Writes (write w (length str) false >> write_array str) (encoded w str)
length_then w str =
    Appending.Writes->> items IsValid (write w (length str) false) (write_array str)
      (written w false (length str)) str (write-Writes w (length str) false)
      (write_array-Writes str)

pub write_string-Writes :
    (str : List ℕ) → length str < 255 → Writes (write_string str) (encoded 1 str)
write_string-Writes str h = rw (write_string_short str h) (length_then 1 str)

pub write_long_string-Writes :
    (str : List ℕ) → length str < 65535 → Writes (write_long_string str) (encoded 2 str)
write_long_string-Writes str h = rw (write_long_string_short str h) (length_then 2 str)

-- `xs` with `ds` laid over it from `o` on.
abbrev overlay : List ℕ → List ℕ → ℕ → List ℕ
overlay xs ds o = take o xs ++ (ds ++ drop (o + length ds) xs)

module _ (xs ds : List ℕ) (o : ℕ) (h : o + length ds ≤ length xs) where
  front : length (take o xs) ≡ o
  front = length-take o xs (omega arith)

  take-overlay : take o (overlay xs ds o) ≡ take o xs
  take-overlay = take-length-append o (take o xs) _ front

  drop-overlay : drop o (overlay xs ds o) ≡ ds ++ drop (o + length ds) xs
  drop-overlay = drop-length-append o (take o xs) _ front

  middle-overlay : take (length ds) (drop o (overlay xs ds o)) ≡ ds
  middle-overlay = ap (take (length ds)) drop-overlay ∙ take-length-append (length ds) ds _ refl

  back-overlay : drop (o + length ds) (overlay xs ds o) ≡ drop (o + length ds) xs
  back-overlay =
      sym (drop-drop o (length ds) (overlay xs ds o))
      ∙ ap (drop (length ds)) drop-overlay
      ∙ drop-length-append (length ds) ds _ refl

  length-overlay : length (overlay xs ds o) ≡ length xs
  length-overlay = omega (
    arith,
    length-append (take o xs) (ds ++ drop (o + length ds) xs),
    length-append ds (drop (o + length ds) xs),
    front,
    length-drop (o + length ds) xs,
  )

-- One call of WriteToOffsetArray that finds room, and one that does not.
patch_fits :
    (ds : List ℕ) (o : ℕ) (b : DynamicBuffer)
    → IsValid b
    → o + length ds < length b.buffer.items
    → length b.buffer.items < 2 ^ 64
    → write_to_offset_array ds o b ≡ (
      ok tt,
      record b {
        buffer = record { items = overlay b.buffer.items ds o; capacity = b.buffer.capacity };
      },
    )
unfolding write_to_offset_array
patch_fits ds o b v h small =
    let e : (o + length ds) % 2 ^ 64 ≡ o + length ds = omega arith in rw e (ground arith)

patch_throws :
    (ds : List ℕ) (o : ℕ) (b : DynamicBuffer)
    → length b.buffer.items ≤ o + length ds
    → o + length ds < 2 ^ 64
    → write_to_offset_array ds o b ≡ (err out_of_bounds, b)
unfolding write_to_offset_array
patch_throws ds o b h small = ground arith

-- `b'` is `b` with `ds` in place of as many bytes from `o` on.
pub record Patched (ds : List ℕ) (o : ℕ) (b b' : DynamicBuffer) : Type 0 where
  pub front : take o b'.buffer.items ≡ take o b.buffer.items
  pub middle : take (length ds) (drop o b'.buffer.items) ≡ ds
  pub back : drop (o + length ds) b'.buffer.items ≡ drop (o + length ds) b.buffer.items
  pub valid : IsValid b'

-- On a valid buffer, with sizes below 2 ^ 64, WriteToOffsetArray overwrites exactly the bytes from
-- the offset on, when the last of them stands before the last byte of the buffer; in every other
-- case it throws and leaves the buffer alone. So the last byte of a buffer can never be patched.
pub write_to_offset_array_exact :
    (ds : List ℕ) (o : ℕ) (b : DynamicBuffer)
    → IsValid b
    → length b.buffer.items < 2 ^ 64
    → o + length ds < 2 ^ 64
    → ((o + length ds < length b.buffer.items)
        × ((b' : DynamicBuffer) × (write_to_offset_array ds o b ≡ (ok tt, b')) × Patched ds o b b'))
      ⊎ ((length b.buffer.items ≤ o + length ds)
          × (write_to_offset_array ds o b ≡ (err out_of_bounds, b)))
write_to_offset_array_exact ds o b v small h =
    elim (dec_lt (o + length ds) (length b.buffer.items)) [
      | yes p ↦
          (let inside : o + length ds ≤ length b.buffer.items = omega arith in
            inl (
              p,
              (
                _,
                patch_fits ds o b v p small,
                record {
                  front = take-overlay b.buffer.items ds o inside;
                  middle = middle-overlay b.buffer.items ds o inside;
                  back = back-overlay b.buffer.items ds o inside;
                  valid = omega (arith, v, length-overlay b.buffer.items ds o inside);
                },
              ),
            ))
      | no p ↦ inr (omega arith, patch_throws ds o b (omega arith) h)
    ]
