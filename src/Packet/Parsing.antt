-- ===== src/Packet/Parsing.antt =====
-- The receiving constructor of util/BasePacket.cpp on any bytes.
use ey_ps.Prelude.{
  ℕ, ◌^◌, ◌<◌, ◌≡◌, refl, sym, ap, subst, ◌∙◌, true, some, List, ◌++◌, length, arith, All,
}
use ey_ps.Prelude.Bytes.{IsByte}
use ey_ps.Prelude.Exec.{Result, ok, err, ok-injective}
use ey_ps.Wire.Endian.{written}
use ey_ps.Wire.BufferView
use ey_ps.Wire.BufferView.{BufferView, read_impl, read, read_view, span_at, advance}
use ey_ps.Wire.BufferView.Reads.{Ahead, Ahead-make}
use ey_ps.Wire.BufferView.Inversion.{read_then, view_then}
use ey_ps.Packet.Head.{PacketHead}
use ey_ps.Packet.{BasePacket, Fields, read_fields, from_fields, from_bytes}
use ey_ps.Packet.Frame.{layout, layout_then}

-- The fields that were read, and the layout of them that stood in front.
record ReadFields (f : Fields) (left : List ℕ) : Type 0 where
  rest : List ℕ
  laid_out :
      left ≡ layout f.magic_start f.packet_id f.metadata_bytes f.data_bytes f.magic_end ++ rest
  start_fits : f.magic_start < 2 ^ 16
  id_fits : f.packet_id < 2 ^ 16
  metadata_len : length f.metadata_bytes ≡ f.metadata_size
  data_len : length f.data_bytes ≡ f.data_size
  metadata_fits : f.metadata_size < 2 ^ 16
  data_fits : f.data_size < 2 ^ 32

-- The pieces that were taken one after the other, put together again.
assemble :
    (start id : ℕ) (meta bytes : List ℕ) (end : ℕ) (l7 : List ℕ) {left l1 l2 l3 l4 l5 l6 : List ℕ}
    → left ≡ written 2 true start ++ l1
    → l1 ≡ written 2 true id ++ l2
    → l2 ≡ written 2 true (length meta) ++ l3
    → l3 ≡ written 4 true (length bytes) ++ l4
    → l4 ≡ meta ++ l5
    → l5 ≡ bytes ++ l6
    → l6 ≡ written 2 true end ++ l7
    → left ≡ layout start id meta bytes end ++ l7
assemble start id meta bytes end l7 s1 s2 s3 s4 s5 s6 s7 =
    rw (layout_then start id meta bytes end l7, s1, s2, s3, s4, s5, s6, s7)

resize :
    (w : ℕ) {n : ℕ} (bytes rest : List ℕ)
    → length bytes ≡ n
    → written w true n ++ rest ≡ written w true (length bytes) ++ rest
resize w bytes rest e = ap (λ k. written w true k ++ rest) (sym e)

read_fields_took :
    (b : BufferView) (left : List ℕ) {f : Fields} {b' : BufferView}
    → Ahead left b
    → All IsByte left
    → read_fields b ≡ (ok f, b')
    → ReadFields f left
unfolding read_fields
read_fields_took b left a h e =
    read_then 2 _ b left (omega arith) a h e λ start b1 l1 f1 s1 a1 h1 e1.
      read_then 2 _ b1 l1 (omega arith) a1 h1 e1 λ id b2 l2 f2 s2 a2 h2 e2.
        read_then 2 _ b2 l2 (omega arith) a2 h2 e2 λ msize b3 l3 f3 s3 a3 h3 e3.
          read_then 4 _ b3 l3 (omega arith) a3 h3 e3 λ dsize b4 l4 f4 s4 a4 h4 e4.
            view_then msize _ b4 l4 (omega arith) a4 h4 e4 λ meta b5 l5 f5 s5 a5 h5 e5.
              view_then dsize _ b5 l5 (omega arith) a5 h5 e5 λ bytes b6 l6 f6 s6 a6 h6 e6.
                read_then 2 _ b6 l6 (omega arith) a6 h6 e6 λ end b7 l7 f7 s7 a7 h7 e7.
                  subst (λ k. ReadFields k left) (ok-injective (ap (λ r. r.0) e7))
                    (record {
                      rest = l7;
                      laid_out =
                          assemble start id meta bytes end l7 s1 s2 (s3 ∙ resize 2 meta l3 f5)
                            (s4 ∙ resize 4 bytes l4 f6) s5 s6 s7;
                      start_fits = f1;
                      id_fits = f2;
                      metadata_len = f5;
                      data_len = f6;
                      metadata_fits = f3;
                      data_fits = f4;
                    })

-- How `input` holds the packet `p`, with any bytes behind it.
pub record Holds {head : PacketHead} (p : BasePacket head) (input : List ℕ) : Type 0 where
  pub start : ℕ
  pub metadata_bytes : List ℕ
  pub end : ℕ
  pub rest : List ℕ
  pub laid_out : input ≡ layout start p.packet_id metadata_bytes p.data_bytes end ++ rest
  pub start_shown : p.magic_start ≡ some start
  pub end_shown : p.magic_end ≡ some end
  pub metadata_shown : p.metadata ≡ head.parse metadata_bytes
  pub metadata_len : length metadata_bytes ≡ p.metadata_size
  pub data_len : length p.data_bytes ≡ p.data_size

-- Whatever bytes, fewer than 2 ^ 63, a packet was accepted from, they begin with the layout of its
-- own fields: its two magic numbers (which can be any), its id, its metadata and its data, with
-- sizes that are true.
pub from_bytes-Holds :
    (head : PacketHead) (input : List ℕ) {p : BasePacket head}
    → All IsByte input
    → length input < 2 ^ 63
    → from_bytes head input ≡ ok p
    → Holds p input
unfolding from_bytes
from_bytes-Holds head input {p} h small e =
    go (read_fields (BufferView.make input)).0 (read_fields (BufferView.make input)).1 refl e
  where
    go :
        (r : Result Fields) (view : BufferView)
        → read_fields (BufferView.make input) ≡ (r, view)
        → from_fields head r view ≡ ok p
        → Holds p input
    go (ok f) view q k =
        let r = read_fields_took (BufferView.make input) input (Ahead-make input small) h q in
        subst (λ x. Holds x input) (ok-injective k)
          (record {
            start = f.magic_start;
            metadata_bytes = f.metadata_bytes;
            end = f.magic_end;
            rest = r.rest;
            laid_out = r.laid_out;
            start_shown = refl;
            end_shown = refl;
            metadata_shown = refl;
            metadata_len = r.metadata_len;
            data_len = r.data_len;
          })
    go (err x) view q k = let bad : ⊥ = cc in absurd bad
