-- ===== src/Packet/Frame.antt =====
-- The layout of a frame, as the documentation of the protocol would give it, and the building
-- constructors of util/BasePacket.cpp against it.
use ey_ps.Prelude.{
  ℕ, ◌+◌, ◌%◌, ◌^◌, ◌<◌, ◌≡◌, ap, ◌∙◌, true, List, ◌++◌, length, All, All-append, length-append,
  arith,
}
use ey_ps.Wire.Endian.{written, length-written, written-IsByte}
use ey_ps.Prelude.Bytes.{IsByte}
use ey_ps.Wire.BufferView
use ey_ps.Wire.BufferView.{BufferView, write, write_array}
use ey_ps.Wire.BufferView.Writes.{
  IsWriter-make, items, Writes, Writes->>, write_array-Writes, write-Writes,
}
use mathlib.Core.List.{append_assoc}
use ey_ps.Packet.Head.{PacketHead}
use ey_ps.Packet.{write_frame, build, stamped}

-- magic, id, the two sizes, metadata, data, magic; all numbers big-endian
abbrev pub layout : ℕ → ℕ → List ℕ → List ℕ → ℕ → List ℕ
layout start id meta bytes end =
    written 2 true start
    ++ (written 2 true id
        ++ (written 2 true (length meta)
            ++ (written 4 true (length bytes) ++ (meta ++ (bytes ++ written 2 true end)))))

pub length-layout :
    (start id : ℕ) (meta bytes : List ℕ) (end : ℕ)
    → length (layout start id meta bytes end) ≡ length meta + length bytes + 12
length-layout start id meta bytes end = simp (length-append, length-written) (omega arith)

-- The layout with more bytes behind it, grouped the way it is read.
pub layout_then :
    (start id : ℕ) (meta bytes : List ℕ) (end : ℕ) (rest : List ℕ)
    → layout start id meta bytes end ++ rest
      ≡ written 2 true start
        ++ (written 2 true id
            ++ (written 2 true (length meta)
                ++ (written 4 true (length bytes)
                    ++ (meta ++ (bytes ++ (written 2 true end ++ rest))))))
layout_then start id meta bytes end rest = simp append_assoc

-- A frame that a client or the server sends.
abbrev pub frame : ℕ → List ℕ → List ℕ → List ℕ
frame id meta bytes = layout 0x4567 id meta bytes 0x89ab

write_frame-Writes :
    (id : ℕ) (meta bytes : List ℕ)
    → id < 2 ^ 16
    → length meta < 2 ^ 16
    → length bytes < 2 ^ 32
    → Writes (write_frame id meta bytes) (frame id meta bytes)
unfolding write_frame
write_frame-Writes id meta bytes hi hm hb =
    let i : id % 2 ^ 16 ≡ id = omega arith in
    let m : length meta % 2 ^ 16 ≡ length meta = omega arith in
    let d : length bytes % 2 ^ 32 ≡ length bytes = omega arith in
    rw (i, m, d)
      (Writes->> _ _ _ _ (write-Writes 2 0x4567 true) (
        Writes->> _ _ _ _ (write-Writes 2 id true) (
          Writes->> _ _ _ _ (write-Writes 2 (length meta) true) (
            Writes->> _ _ _ _ (write-Writes 4 (length bytes) true) (
              Writes->> _ _ _ _ (write_array-Writes meta)
                (Writes->> _ _ _ _ (write_array-Writes bytes) (write-Writes 2 0x89ab true)))))))

-- What a building constructor leaves in the write buffer, for an id of 16 bits, metadata of fewer
-- than 2 ^ 16 bytes and data of fewer than 2 ^ 32, is exactly the frame.
pub build-frame :
    (head : PacketHead) (bytes : List ℕ) (id sequence now : ℕ)
    → id < 2 ^ 16
    → length (head.serialize (stamped head sequence now)) < 2 ^ 16
    → length bytes < 2 ^ 32
    → BufferView.get_data_ownership (build head bytes id sequence now).view
      ≡ frame id (head.serialize (stamped head sequence now)) bytes
unfolding build
build-frame head bytes id sequence now hi hm hb =
    let meta = head.serialize (stamped head sequence now) in
    let (b', e, i, v) =
      write_frame-Writes id meta bytes hi hm hb (BufferView.make bytes) (IsWriter-make bytes)
        (omega (arith, length-layout 0x4567 id meta bytes 0x89ab)) in
    ap (λ p. items p.1) e ∙ i

pub frame-IsByte :
    (id : ℕ) (meta bytes : List ℕ)
    → All IsByte meta
    → All IsByte bytes
    → All IsByte (frame id meta bytes)
frame-IsByte id meta bytes hm hb = All-append IsByte _ _ (written-IsByte 2 true 0x4567) (
    All-append IsByte _ _ (written-IsByte 2 true id) (
      All-append IsByte _ _ (written-IsByte 2 true (length meta)) (
        All-append IsByte _ _ (written-IsByte 4 true (length bytes))
          (All-append IsByte _ _ hm (All-append IsByte _ _ hb (written-IsByte 2 true 0x89ab))))))
