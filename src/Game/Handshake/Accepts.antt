-- ===== src/Game/Handshake/Accepts.antt =====
-- Which datagrams open a connection.
use ey_ps.Prelude.{
  ℕ, ◌^◌, ◌<◌, ◌≡◌, ◌↔◌, refl, ap, ap₂, subst, ◌∙◌, inl, inr, true, List, ◌++◌, some, length,
  length-append, arith, ◌==◌, ◌&&◌, ltb, All, Bool-cases,
}
use ey_ps.Prelude.Bytes.{IsByte}
use ey_ps.Prelude.Exec.{Result, ok, err, ok-injective}
use ey_ps.Wire.BufferView
use ey_ps.Wire.BufferView.{BufferView, read}
use ey_ps.Wire.BufferView.Reads.{Ahead, Ahead-make}
use ey_ps.Wire.BufferView.Inversion.{read_then}
use ey_ps.Game.Handshake.{Handshake, Words, read_words, decoded, decode, connect1, connect2}
use ey_ps.Game.Handshake.Laws.{wire, wire_then, decode-wire}

-- The five words that were read, with what stood behind them.
record ReadWords (w : Words) (input : List ℕ) : Type 0 where
  rest : List ℕ
  split : input ≡ wire w.magic1 w.conv w.token w.data_word w.magic2 ++ rest
  conv_fits : w.conv < 2 ^ 32
  token_fits : w.token < 2 ^ 32
  data_fits : w.data_word < 2 ^ 32

read_words_took :
    (b : BufferView) (left : List ℕ) {w : Words} {b' : BufferView}
    → Ahead left b
    → All IsByte left
    → read_words b ≡ (ok w, b')
    → ReadWords w left
unfolding read_words
read_words_took b left a h e = read_then 4 _ b left (omega arith) a h e λ m1 b1 l1 f1 s1 a1 h1 e1.
    read_then 4 _ b1 l1 (omega arith) a1 h1 e1 λ conv b2 l2 f2 s2 a2 h2 e2.
      read_then 4 _ b2 l2 (omega arith) a2 h2 e2 λ token b3 l3 f3 s3 a3 h3 e3.
        read_then 4 _ b3 l3 (omega arith) a3 h3 e3 λ word b4 l4 f4 s4 a4 h4 e4.
          read_then 4 _ b4 l4 (omega arith) a4 h4 e4 λ m2 b5 l5 f5 s5 a5 h5 e5.
            subst (λ k. ReadWords k left) (ok-injective (ap (λ r. r.0) e5))
              (record {
                rest = l5;
                split = rw (wire_then m1 conv token word m2 l5, s1, s2, s3, s4, s5);
                conv_fits = f2;
                token_fits = f3;
                data_fits = f4;
              })

-- `input` begins with a connection request that carries these three words.
pub record IsRequest (input : List ℕ) : Type 0 where
  pub conv : ℕ
  pub token : ℕ
  pub data_word : ℕ
  pub rest : List ℕ
  pub conv_fits : conv < 2 ^ 32
  pub token_fits : token < 2 ^ 32
  pub data_fits : data_word < 2 ^ 32
  pub laid_out : input ≡ wire connect1 conv token data_word connect2 ++ rest

module _ (input : List ℕ) (h0 : Handshake) (bytes : All IsByte input)
    (small : length input < 2 ^ 62) where
  accepted_words :
      (r : Result Words) (b' : BufferView) {h' : Handshake}
      → read_words (BufferView.make input) ≡ (r, b')
      → decoded true h0 r ≡ ok (some true, h')
      → IsRequest input
  accepted_words (ok w) b' q e =
      let r =
        read_words_took (BufferView.make input) input (Ahead-make input (omega arith)) bytes q in
      let m : (w.magic1 == connect1 && w.magic2 == connect2) ≡ true =
        ground (arith, ok-injective e) in
      let m1 : w.magic1 ≡ connect1 = ground arith in
      let m2 : w.magic2 ≡ connect2 = ground arith in
      record {
        conv = w.conv;
        token = w.token;
        data_word = w.data_word;
        rest = r.rest;
        conv_fits = r.conv_fits;
        token_fits = r.token_fits;
        data_fits = r.data_fits;
        laid_out = r.split ∙ ap₂ (λ x y. wire x w.conv w.token w.data_word y ++ r.rest) m1 m2;
      }
  accepted_words (err x) b' q e = let bad : ⊥ = cc in absurd bad

  request : IsRequest input → Handshake
  request r = record h0 {
    magic1 = connect1;
    conv = r.conv;
    token = r.token;
    data_word = r.data_word;
    magic2 = connect2;
  }

  accepted :
      (r : IsRequest input) → decode (BufferView.make input) true h0 ≡ ok (some true, request r)
  unfolding request
  accepted r =
      ap (λ l. decode (BufferView.make l) true h0) r.laid_out
      ∙ decode-wire (request r) h0 r.rest
          (record {
            magic1 = omega arith;
            conv = r.conv_fits;
            token = r.token_fits;
            data_word = r.data_fits;
            magic2 = omega arith;
          })
          (omega (
            arith,
            ap length r.laid_out,
            length-append (wire connect1 r.conv r.token r.data_word connect2) r.rest,
          ))

  -- A datagram of fewer than 2 ^ 62 bytes is accepted as a connection request exactly when it
  -- begins with one: five big-endian words, the first and the last the two magic numbers of a
  -- request, the rest any.
  pub decode_exact :
      ((h' : Handshake) × (decode (BufferView.make input) true h0 ≡ ok (some true, h')))
      ↔ IsRequest input
  unfolding decode
  decode_exact = (
    λ (h', e). elim (Bool-cases (ltb (length input) 20)) [
      | inl short ↦ (let bad : ⊥ = ground arith in absurd bad)
      | inr long ↦
          accepted_words (read_words (BufferView.make input)).0
            (read_words (BufferView.make input)).1 refl (rw long at e)
    ],
    λ r. (_, accepted r),
  )
