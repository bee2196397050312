-- ===== src/Wire/Strings.antt =====
-- The strings of util/dynamicBuffer.cpp are those of util/bufferView.cpp: what `WriteString` and
-- `WriteLongString` write, `ReadString` and `ReadLongString` read back.
use ey_ps.Prelude.{
  ℕ, ◌+◌, ◌^◌, ◌<◌, ◌≡◌, ap, ◌∙◌, false, List, [], ◌++◌, length, length-append, drop,
  drop-length-append, arith, sym,
}
use ey_ps.Prelude.Exec.{Exec, ok}
use ey_ps.Wire.Endian.{length-written}
use ey_ps.Wire.DynamicBuffer.{DynamicBuffer, write_string, write_long_string}
use ey_ps.Wire.DynamicBuffer.Contents
use ey_ps.Wire.DynamicBuffer.Contents.{
  Writes, encoded, write_string-Writes, write_long_string-Writes,
}
use ey_ps.Wire.BufferView.{BufferView, make, read, read_chars, read_string, read_long_string}
use ey_ps.Wire.BufferView.Reads.{Ahead, Reads, Reads-bind, read-Reads, read_chars-Reads}
use mathlib.Core.List.{append_assoc, append-nil}

read_string-Reads :
    (str rest : List ℕ) → length str < 2 ^ 8 → Reads read_string str (encoded 1 str ++ rest) rest
unfolding read_string
read_string-Reads str rest h = rw append_assoc (
    Reads-bind (read 1 false) read_chars (length str)
      (read-Reads 1 false (length str) (str ++ rest) h (omega arith)) (read_chars-Reads str rest))

read_long_string-Reads :
    (str rest : List ℕ)
    → length str < 2 ^ 16
    → Reads read_long_string str (encoded 2 str ++ rest) rest
unfolding read_long_string
read_long_string-Reads str rest h = rw append_assoc (
    Reads-bind (read 2 false) read_chars (length str)
      (read-Reads 2 false (length str) (str ++ rest) h (omega arith)) (read_chars-Reads str rest))

-- A reader over a buffer's bytes that starts where `b` ended.
abbrev reader_at : DynamicBuffer → DynamicBuffer → BufferView
reader_at b b' = record (make b'.buffer.items) { cur_data_offset = b.cur_offset }

-- What a writer appended is what a reader finds that starts at the old end.
appended-Ahead :
    (bytes : List ℕ) (b b' : DynamicBuffer)
    → Contents.IsValid b
    → b'.buffer.items ≡ b.buffer.items ++ bytes
    → length b.buffer.items + length bytes < 2 ^ 63
    → Ahead bytes (reader_at b b')
appended-Ahead bytes b b' v e h = record {
  valid = omega (arith, v, ap length e, length-append b.buffer.items bytes);
  ahead =
      ap (drop b.cur_offset) e
      ∙ drop-length-append b.cur_offset b.buffer.items bytes (sym v.at_end);
}

written_then_read :
    (m : Exec DynamicBuffer (Unit {0})) (r : Exec BufferView (List ℕ)) (bytes str : List ℕ)
    (b : DynamicBuffer)
    → Writes m bytes
    → Reads r str bytes []
    → Contents.IsValid b
    → length b.buffer.items + length bytes < 2 ^ 63
    → (b' : DynamicBuffer) × (m b ≡ (ok tt, b')) × ((r (reader_at b b')).0 ≡ ok str)
written_then_read m r bytes str b hm hr v fits =
    let (b', e, i, v') = hm b v fits in
    let (u, eu, hu) = hr (reader_at b b') (appended-Ahead bytes b b' v i fits) in
    (b', e, ap (λ p. p.0) eu)

-- A string of fewer than 255 bytes that `WriteString` appends to a valid buffer is what
-- `ReadString` returns from the place where the buffer ended before, as long as the buffer and the
-- string have fewer than 2 ^ 62 bytes.
pub read_string-write_string :
    (str : List ℕ) (b : DynamicBuffer)
    → Contents.IsValid b
    → length str < 255
    → length b.buffer.items + length str < 2 ^ 62
    → (b' : DynamicBuffer) × (write_string str b ≡ (ok tt, b'))
      × ((read_string (record (make b'.buffer.items) { cur_data_offset = b.cur_offset })).0
          ≡ ok str)
read_string-write_string str b v h fits =
    written_then_read (write_string str) read_string (encoded 1 str) str b
      (write_string-Writes str h) (rw append-nil at (read_string-Reads str [] (omega arith))) v
      (omega (arith, length-append _ str, length-written 1 false (length str)))

-- A string of fewer than 65535 bytes that `WriteLongString` appends to a valid buffer is what
-- `ReadLongString` returns from the place where the buffer ended before, as long as the buffer and
-- the string have fewer than 2 ^ 62 bytes.
pub read_long_string-write_long_string :
    (str : List ℕ) (b : DynamicBuffer)
    → Contents.IsValid b
    → length str < 65535
    → length b.buffer.items + length str < 2 ^ 62
    → (b' : DynamicBuffer) × (write_long_string str b ≡ (ok tt, b'))
      × ((read_long_string (record (make b'.buffer.items) { cur_data_offset = b.cur_offset })).0
          ≡ ok str)
read_long_string-write_long_string str b v h fits =
    written_then_read (write_long_string str) read_long_string (encoded 2 str) str b
      (write_long_string-Writes str h)
      (rw append-nil at (read_long_string-Reads str [] (omega arith))) v
      (omega (arith, length-append _ str, length-written 2 false (length str)))
