-- ===== src/Game/Handshake/Laws.antt =====
-- What a handshake looks like on the wire, and which bytes open a connection.
use ey_ps.Prelude.{
  ℕ, ◌^◌, ◌<◌, ◌≡◌, sym, ap, ◌∙◌, true, false, List, [], ◌++◌, some, length, length-append, take,
  take-length-append, arith, ◌==◌, ◌&&◌, ltb, ge→ltb_false,
}
use ey_ps.Prelude.Exec.{Exec, ok, ◌>>◌}
use ey_ps.Wire.Endian.{written, length-written}
use ey_ps.Wire.Appending
use ey_ps.Wire.DynamicBuffer.{DynamicBuffer}
use ey_ps.Wire.DynamicBuffer.Contents
use ey_ps.Wire.DynamicBuffer.Contents.{Writes, write-Writes}
use ey_ps.Wire.BufferView
use ey_ps.Wire.BufferView.{BufferView, read}
use ey_ps.Wire.BufferView.Reads.{Ahead-make, Reads, Reads-bind, Reads-pure, read-Reads}
use ey_ps.Game.Handshake.{
  Handshake, Words, read_words, decoded, decode, write_words, encode, connect1, connect2,
}
use mathlib.Core.List.{append_assoc, append-nil}

-- Five big-endian words.
abbrev pub wire : ℕ → ℕ → ℕ → ℕ → ℕ → List ℕ
wire magic1 conv token data_word magic2 =
    written 4 true magic1
    ++ (written 4 true conv
        ++ (written 4 true token ++ (written 4 true data_word ++ written 4 true magic2)))

length-wire : (a b c d e : ℕ) → length (wire a b c d e) ≡ 20
length-wire a b c d e = simp (length-append, length-written) (omega arith)

-- The fields are 32-bit words.
pub record IsWords (h : Handshake) : Type 0 where
  pub magic1 : h.magic1 < 2 ^ 32
  pub conv : h.conv < 2 ^ 32
  pub token : h.token < 2 ^ 32
  pub data_word : h.data_word < 2 ^ 32
  pub magic2 : h.magic2 < 2 ^ 32

abbrev wire_of : Handshake → List ℕ
wire_of h = wire h.magic1 h.conv h.token h.data_word h.magic2

length-wire_of : (h : Handshake) → length (wire_of h) ≡ 20
length-wire_of h = length-wire h.magic1 h.conv h.token h.data_word h.magic2

write_words-Writes : (h : Handshake) → Writes (write_words h) (wire_of h)
unfolding write_words
write_words-Writes h = then' _ _ _ _ (write-Writes 4 h.magic1 true) (
    then' _ _ _ _ (write-Writes 4 h.conv true) (
      then' _ _ _ _ (write-Writes 4 h.token true)
        (then' _ _ _ _ (write-Writes 4 h.data_word true) (write-Writes 4 h.magic2 true))))
  where
    then' :
        (m k : Exec DynamicBuffer (Unit {0})) (xs ys : List ℕ)
        → Writes m xs
        → Writes k ys
        → Writes (m >> k) (xs ++ ys)
    then' = Appending.Writes->> Contents.items Contents.IsValid

-- A handshake whose buffer is empty encodes to its five words.
pub encode-wire :
    (h : Handshake)
    → Contents.IsValid h.buffer
    → h.buffer.buffer.items ≡ []
    → (encode h).0 ≡ wire_of h
unfolding encode
encode-wire h v fresh =
    let (b', e, i, v') =
      write_words-Writes h h.buffer v (omega (arith, length-wire_of h, ap length fresh)) in
    ap (λ p. take 20 p.1.buffer.items) e
    ∙ ap (take 20) (i ∙ ap (λ l. l ++ wire_of h) fresh ∙ sym (append-nil _))
    ∙ take-length-append 20 (wire_of h) [] (length-wire_of h)

-- The fields that decoding five words gives to `h0`.
abbrev with_words : Handshake → Words → Handshake
with_words h0 w = record h0 {
  magic1 = w.magic1;
  conv = w.conv;
  token = w.token;
  data_word = w.data_word;
  magic2 = w.magic2;
}

abbrev words_of : Handshake → Words
words_of h = record {
  magic1 = h.magic1;
  conv = h.conv;
  token = h.token;
  data_word = h.data_word;
  magic2 = h.magic2;
}

pub wire_then :
    (a b c d e : ℕ) (rest : List ℕ)
    → wire a b c d e ++ rest
      ≡ written 4 true a
        ++ (written 4 true b
            ++ (written 4 true c ++ (written 4 true d ++ (written 4 true e ++ rest))))
wire_then a b c d e rest = simp append_assoc

read_words-Reads :
    (h : Handshake) (rest : List ℕ)
    → IsWords h
    → Reads read_words (words_of h) (wire_of h ++ rest) rest
unfolding read_words
read_words-Reads h rest w = rw (wire_then h.magic1 h.conv h.token h.data_word h.magic2 rest) (
    Reads-bind (read 4 true) _ h.magic1 (read-Reads 4 true h.magic1 _ w.magic1 (omega arith)) (
      Reads-bind (read 4 true) _ h.conv (read-Reads 4 true h.conv _ w.conv (omega arith)) (
        Reads-bind (read 4 true) _ h.token (read-Reads 4 true h.token _ w.token (omega arith)) (
          Reads-bind (read 4 true) _ h.data_word
            (read-Reads 4 true h.data_word _ w.data_word (omega arith))
            (Reads-bind (read 4 true) _ h.magic2
              (read-Reads 4 true h.magic2 _ w.magic2 (omega arith)) (Reads-pure _ rest))))))

-- The words of a handshake, with any bytes behind them, are decoded to its fields, and the verdict
-- is the comparison of its two magic numbers with those of a connection request.
pub decode-wire :
    (h h0 : Handshake) (rest : List ℕ)
    → IsWords h
    → length rest < 2 ^ 62
    → decode (BufferView.make (wire_of h ++ rest)) true h0
      ≡ ok (some (h.magic1 == connect1 && h.magic2 == connect2), with_words h0 (words_of h))
unfolding decode
decode-wire h h0 rest w fits =
    let bytes = wire_of h ++ rest in
    let (b', e, a) =
      read_words-Reads h rest w (BufferView.make bytes)
        (Ahead-make bytes (omega (arith, length-append (wire_of h) rest, length-wire_of h))) in
    let long : ltb (length bytes) 20 ≡ false =
      ge→ltb_false _ _ (omega (arith, length-append (wire_of h) rest, length-wire_of h)) in
    rw long (ap (λ r. decoded true h0 r.0) e)
