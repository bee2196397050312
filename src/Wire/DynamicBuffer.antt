-- ===== src/Wire/DynamicBuffer.antt =====
-- util/dynamicBuffer.h and util/dynamicBuffer.cpp. A `std::size_t` sum wraps at 2 ^ 64.
pub mod Contents
use ey_ps.Prelude.{
  ℕ, ◌+◌, ◌-◌, ◌%◌, ◌^◌, Bool, false, ◌||◌, List, [], ◌++◌, length, take, drop, leb, if◌then◌else◌,
}
use ey_ps.Prelude.Exec.{
  Exec, Error, ok, err, string_too_large, out_of_bounds, pure, throw, ◌>>=◌, ◌>>◌,
}
use ey_ps.Wire.Endian.{written}
use ey_ps.Wire.Vector
use ey_ps.Wire.Vector.{Vector, reserve, insert_end}

pub record DynamicBuffer : Type 0 where
  pub buffer : Vector
  pub cur_offset : ℕ

-- dynamicBuffer(initialSize)
unfoldable pub make : ℕ → DynamicBuffer
unfolding reserve
make initial_size = record { buffer = reserve initial_size Vector.empty; cur_offset = 0 }

unfoldable pub grow_buffer : ℕ → DynamicBuffer → DynamicBuffer
unfolding reserve
grow_buffer bytes_to_grow b = record b {
  buffer = reserve ((b.buffer.capacity + bytes_to_grow) % 2 ^ 64) b.buffer;
}

-- The first half of WriteArray: make room, by the predicted size.
unfoldable pub make_room : ℕ → DynamicBuffer → DynamicBuffer
unfolding grow_buffer
make_room count b =
    let predicted = (b.cur_offset + count) % 2 ^ 64 in
    if leb b.buffer.capacity predicted then grow_buffer (predicted - b.buffer.capacity) b else b

unfoldable pub write_array : List ℕ → Exec DynamicBuffer (Unit {0})
unfolding make_room insert_end
write_array data' b =
    let room = make_room (length data') b in
    pure tt (record {
      buffer = insert_end data' room.buffer;
      cur_offset = (room.cur_offset + length data') % 2 ^ 64;
    })

-- Write<T>, for an unsigned type of `w` bytes.
unfoldable pub write : ℕ → ℕ → Bool → Exec DynamicBuffer (Unit {0})
unfolding write_array
write w v big = write_array (written w big v)

unfoldable pub write_string : List ℕ → Exec DynamicBuffer (Unit {0})
unfolding write write_array
write_string str =
    if leb 255 (length str)
    then throw string_too_large
    else (do write 1 (length str % 2 ^ 8) false; write_array str)

unfoldable pub write_long_string : List ℕ → Exec DynamicBuffer (Unit {0})
unfolding write write_array
write_long_string str =
    if leb 65535 (length str)
    then throw string_too_large
    else (do write 2 (length str % 2 ^ 16) false; write_array str)

-- WriteToOffsetArray: `memcpy` over what stands at the offset.
unfoldable pub write_to_offset_array : List ℕ → ℕ → Exec DynamicBuffer (Unit {0})
write_to_offset_array data' offset b =
    let end = (offset + length data') % 2 ^ 64 in
    if leb (Vector.size b.buffer) offset
      || leb (Vector.size b.buffer) end
      || leb b.buffer.capacity offset
      || leb b.buffer.capacity end
    then throw out_of_bounds b
    else (let items = take offset b.buffer.items ++ (data' ++ drop end b.buffer.items) in
        pure tt (record b { buffer = record { items = items; capacity = b.buffer.capacity } }))

unfoldable pub write_to_offset : ℕ → ℕ → ℕ → Bool → Exec DynamicBuffer (Unit {0})
unfolding write_to_offset_array
write_to_offset w v offset big = write_to_offset_array (written w big v) offset

unfoldable pub seek : ℕ → DynamicBuffer → DynamicBuffer
seek offset b = record b { cur_offset = offset }

abbrev pub get_cur_offset : DynamicBuffer → ℕ
get_cur_offset b = b.cur_offset

-- GetDataOwnership: a reference to the elements; nothing is moved until a caller moves it.
abbrev pub get_data_ownership : DynamicBuffer → List ℕ
get_data_ownership b = b.buffer.items
