-- ===== src/Wire/BufferView.antt =====
-- util/bufferView.h and util/bufferView.cpp: a reader over a span, with a buffer for writing beside
-- it; both sides share one offset. A `std::size_t` sum wraps at 2 ^ 64.
pub mod Reads
pub mod Inversion
pub mod Writes
use ey_ps.Prelude.{
  ℕ, zero, suc, ◌+◌, ◌-◌, ◌%◌, ◌^◌, Bool, false, List, [], ◌++◌, length, take, drop, leb,
  if◌then◌else◌, ltb,
}
use ey_ps.Prelude.Exec.{Exec, Error, ok, err, out_of_data, past_the_end, pure, throw, ◌>>=◌, ◌>>◌}
use ey_ps.Wire.Endian.{written, decoded}
use ey_ps.Wire.Vector
use ey_ps.Wire.Vector.{Vector, reserve, insert_end}

pub record BufferView : Type 0 where
  pub data_view : List ℕ
  pub cur_data_offset : ℕ
  pub buffer : Vector

-- bufferView(data)
abbrev pub make : List ℕ → BufferView
make view = record { data_view = view; cur_data_offset = 0; buffer = Vector.empty }

unfoldable pub get_remaining_bytes : BufferView → ℕ
get_remaining_bytes b = (length b.data_view + 2 ^ 64 - b.cur_data_offset) % 2 ^ 64

unfoldable pub can_read_bytes : ℕ → BufferView → Bool
can_read_bytes count b = leb ((b.cur_data_offset + count) % 2 ^ 64) (length b.data_view)

abbrev pub get_data_view_size : BufferView → ℕ
get_data_view_size b = length b.data_view

-- The bytes from the offset on, and the offset behind them.
abbrev pub span_at : ℕ → BufferView → List ℕ
span_at count b = take count (drop b.cur_data_offset b.data_view)

abbrev pub advance : ℕ → BufferView → BufferView
advance count b = record b { cur_data_offset = (b.cur_data_offset + count) % 2 ^ 64 }

-- `&m_DataView[m_CurDataOffset]` and the bytes from there on; at the end of the view there is no such
-- element, whatever the count.
abbrev pub from_offset : ℕ → Exec BufferView (List ℕ)
from_offset count b =
    if ltb b.cur_data_offset (length b.data_view)
    then pure (span_at count b) (advance count b)
    else throw past_the_end b

-- ReadImpl, for a destination of `count` bytes: the bytes that it copies.
unfoldable pub read_impl : ℕ → Exec BufferView (List ℕ)
unfolding can_read_bytes
read_impl count b = if can_read_bytes count b then from_offset count b else throw out_of_data b

-- ReadView: the same test, and a view instead of a copy.
unfoldable pub read_view : ℕ → Exec BufferView (List ℕ)
unfolding can_read_bytes
read_view view_size b =
    if can_read_bytes view_size b then from_offset view_size b else throw out_of_data b

-- Read<T>, for an unsigned type of `w` bytes.
unfoldable pub read : ℕ → Bool → Exec BufferView ℕ
read w big = do bytes ← read_impl w; pure (decoded w big bytes)

-- ReadArray<T, N> of bytes.
unfoldable pub read_array : ℕ → Exec BufferView (List ℕ)
read_array size = read_impl size

-- The body that ReadString and ReadLongString share, after the length.
unfoldable pub read_chars : ℕ → Exec BufferView (List ℕ)
unfolding can_read_bytes
read_chars count b =
    if can_read_bytes count b
    then (if ltb 0 count then pure (span_at count b) (advance count b) else pure [] b)
    else throw out_of_data b

unfoldable pub read_string : Exec BufferView (List ℕ)
read_string = do count ← read 1 false; read_chars count

unfoldable pub read_long_string : Exec BufferView (List ℕ)
read_long_string = do count ← read 2 false; read_chars count

unfoldable pub grow_buffer : ℕ → BufferView → BufferView
unfolding reserve
grow_buffer bytes_to_grow b = record b {
  buffer = reserve ((b.buffer.capacity + bytes_to_grow) % 2 ^ 64) b.buffer;
}

-- The first half of WriteArray: make room, by the predicted size.
unfoldable pub make_room : ℕ → BufferView → BufferView
unfolding grow_buffer
make_room count b =
    let predicted = (b.cur_data_offset + count) % 2 ^ 64 in
    if leb b.buffer.capacity predicted then grow_buffer (predicted - b.buffer.capacity) b else b

unfoldable pub write_array : List ℕ → Exec BufferView (Unit {0})
unfolding make_room insert_end
write_array data' b =
    let room = make_room (length data') b in
    pure tt (record room {
      buffer = insert_end data' room.buffer;
      cur_data_offset = (room.cur_data_offset + length data') % 2 ^ 64;
    })

-- Write<T>, for an unsigned type of `w` bytes.
unfoldable pub write : ℕ → ℕ → Bool → Exec BufferView (Unit {0})
write w v big = write_array (written w big v)

-- GetDataOwnership: a reference to the elements that were written.
abbrev pub get_data_ownership : BufferView → List ℕ
get_data_ownership b = b.buffer.items
