-- ===== src/Packet/RoundTrip.antt =====
-- The receiving constructor of util/BasePacket.cpp on frames, its building constructors' among them.
use ey_ps.Prelude.{ℕ, ◌^◌, ◌<◌, ◌≡◌, refl, ap, true, List, ◌++◌, length, length-append, arith}
use ey_ps.Prelude.Exec.{ok}
use ey_ps.Wire.Endian.{written, length-written}
use ey_ps.Wire.BufferView
use ey_ps.Wire.BufferView.{BufferView, read, read_view}
use ey_ps.Wire.BufferView.Reads.{
  Ahead-make, Reads, Reads-bind, Reads-pure, read-Reads, read_view-Reads,
}
use ey_ps.Packet.Head.{PacketHead, IsCodec}
use ey_ps.Packet.{BasePacket, Fields, read_fields, from_fields, from_bytes, build, stamped}
use ey_ps.Packet.Frame.{layout, layout_then, length-layout, build-frame}

abbrev fields : ℕ → ℕ → List ℕ → List ℕ → ℕ → Fields
fields start id meta bytes end = record {
  magic_start = start;
  packet_id = id;
  metadata_size = length meta;
  data_size = length bytes;
  metadata_bytes = meta;
  data_bytes = bytes;
  magic_end = end;
}

-- What stands before bytes is as long at least.
more : (xs ys : List ℕ) → 0 < length ys → 0 < length (xs ++ ys)
more xs ys h = omega (arith, h, length-append xs ys)

module _ (start id : ℕ) (meta bytes : List ℕ) (end : ℕ) (rest : List ℕ) (hs : start < 2 ^ 16)
    (hi : id < 2 ^ 16) (hm : length meta < 2 ^ 16) (hb : length bytes < 2 ^ 32)
    (he : end < 2 ^ 16) where
  tail_some : 0 < length (written 2 true end ++ rest)
  tail_some = omega (arith, length-append (written 2 true end) rest, length-written 2 true end)

  -- Whatever the two magic numbers are, the fields that were laid out are read.
  pub read_fields-Reads :
      Reads read_fields
        (fields start id meta bytes end)
        (layout start id meta bytes end ++ rest)
        rest
  unfolding read_fields
  read_fields-Reads = rw (layout_then start id meta bytes end rest) (
      Reads-bind (read 2 true) _ start (read-Reads 2 true start _ hs (omega arith)) (
        Reads-bind (read 2 true) _ id (read-Reads 2 true id _ hi (omega arith)) (
          Reads-bind (read 2 true) _ (length meta)
            (read-Reads 2 true (length meta) _ hm (omega arith))
            (Reads-bind (read 4 true) _ (length bytes)
              (read-Reads 4 true (length bytes) _ hb (omega arith))
              (Reads-bind (read_view (length meta)) _ meta
                (read_view-Reads meta _ (more meta _ (more bytes _ tail_some)))
                (Reads-bind (read_view (length bytes)) _ bytes
                  (read_view-Reads bytes _ (more bytes _ tail_some))
                  (Reads-bind (read 2 true) _ end (read-Reads 2 true end _ he (omega arith))
                    (Reads-pure _ rest))))))))

-- What a packet shows of a frame.
pub record Shows {head : PacketHead} (p : BasePacket head) (id : ℕ) (meta : head.Message)
    (bytes : List ℕ) : Type 0 where
  pub id_shown : p.packet_id ≡ id
  pub size_shown : p.data_size ≡ length bytes
  pub metadata_shown : p.metadata ≡ meta
  pub data_shown : p.data_bytes ≡ bytes

from_bytes-layout :
    (head : PacketHead) (start id : ℕ) (meta bytes : List ℕ) (end : ℕ) (rest : List ℕ)
    → start < 2 ^ 16
    → id < 2 ^ 16
    → length meta < 2 ^ 16
    → length bytes < 2 ^ 32
    → end < 2 ^ 16
    → length rest < 2 ^ 62
    → (p : BasePacket head) × (from_bytes head (layout start id meta bytes end ++ rest) ≡ ok p)
      × Shows p id (head.parse meta) bytes
unfolding from_bytes
from_bytes-layout head start id meta bytes end rest hs hi hm hb he hr =
    let whole = layout start id meta bytes end ++ rest in
    let (b', e, a) =
      read_fields-Reads start id meta bytes end rest hs hi hm hb he (BufferView.make whole) (
        Ahead-make whole (
          omega (
            arith,
            length-append (layout start id meta bytes end) rest,
            length-layout start id meta bytes end,
          ))) in
    (
      _,
      ap (λ r. from_fields head r.0 r.1) e,
      record { id_shown = refl; size_shown = refl; metadata_shown = refl; data_shown = refl },
    )

-- A packet that a building constructor made, sent and received with fewer than 2 ^ 62 bytes of any
-- kind behind it, comes back with its id, its data and its metadata, if the id has 16 bits, the
-- metadata fewer than 2 ^ 16 bytes and the data fewer than 2 ^ 32, and if parsing undoes
-- serializing for the generated class.
pub from_bytes-build :
    (head : PacketHead)
    → IsCodec head
    → (bytes : List ℕ) (id sequence now : ℕ) (rest : List ℕ) → id < 2 ^ 16
    → length (head.serialize (stamped head sequence now)) < 2 ^ 16
    → length bytes < 2 ^ 32
    → length rest < 2 ^ 62
    → (p : BasePacket head) × (from_bytes head
          (BufferView.get_data_ownership (build head bytes id sequence now).view ++ rest)
        ≡ ok p)
      × Shows p id (stamped head sequence now) bytes
from_bytes-build head codec bytes id sequence now rest hi hm hb hr =
    let meta = head.serialize (stamped head sequence now) in
    let (p, e, s) =
      from_bytes-layout head 0x4567 id meta bytes 0x89ab rest (omega arith) hi hm hb (omega arith)
        hr in
    (
      p,
      rw (build-frame head bytes id sequence now hi hm hb) e,
      rw (codec.parse-serialize (stamped head sequence now)) at s,
    )
