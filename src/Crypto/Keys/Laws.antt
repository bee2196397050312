-- ===== src/Crypto/Keys/Laws.antt =====
-- The shape of keys and tokens.
use ey_ps.Prelude.Options.{of_some, none-ne-some}
use ey_ps.Crypto.Cipher.Laws.{scan, at-scan}
use ey_ps.Prelude.{
  ℕ, zero, suc, ◌+◌, get_elem?, some, Bool, ◌==◌, ◌&&◌, ltb, ◌*◌, ◌/◌, ◌%◌, ◌<◌, ◌≡◌, ◌≢◌, ◌↔◌,
  refl, sym, ap, ◌∙◌, true, List, [], ◌∷◌, ◌++◌, length, length-append, All, All-append, get_or,
  drop, arith,
}
use ey_ps.Prelude.Bytes.{IsByte, codes}
use ey_ps.Wire.Endian.{written, length-written, written-IsByte}
use ey_ps.Prelude.Decimal.{to_string}
use ey_ps.Wire.Appending
use ey_ps.Wire.DynamicBuffer
use ey_ps.Wire.DynamicBuffer.{DynamicBuffer, write}
use ey_ps.Wire.DynamicBuffer.Contents
use ey_ps.Wire.DynamicBuffer.Contents.{Writes, write-Writes}
use ey_ps.Crypto.Mersenne.{seed, next}
use ey_ps.Crypto.Keys.{write_words, seeded, generate_key, hex_digit, hex, create_token}
use mathlib.Core.List.{append-nil}

-- The generator's next numbers, big-endian.
stream : ℕ → List ℕ → List ℕ
stream zero generator = []
stream (suc rounds) generator =
    written 8 true (next generator).0 ++ stream rounds (next generator).1

length-stream : (rounds : ℕ) (g : List ℕ) → length (stream rounds g) ≡ 8 * rounds
unfolding stream
length-stream zero g = refl
length-stream (suc rounds) g = omega (
  arith,
  length-append (written 8 true (next g).0) (stream rounds (next g).1),
  length-written 8 true (next g).0,
  length-stream rounds (next g).1,
)

stream-IsByte : (rounds : ℕ) (g : List ℕ) → All IsByte (stream rounds g)
unfolding stream
stream-IsByte zero g = tt
stream-IsByte (suc rounds) g =
    All-append IsByte (written 8 true (next g).0) (stream rounds (next g).1)
      (written-IsByte 8 true (next g).0) (stream-IsByte rounds (next g).1)

write_words-Writes : (rounds : ℕ) (g : List ℕ) → Writes (write_words rounds g) (stream rounds g)
unfolding write_words stream
write_words-Writes zero g = λ b v fits. (b, refl, sym (append-nil _), v)
write_words-Writes (suc rounds) g =
    Appending.Writes->> Contents.items Contents.IsValid (write 8 (next g).0 true)
      (write_words rounds (next g).1) (written 8 true (next g).0) (stream rounds (next g).1)
      (write-Writes 8 (next g).0 true) (write_words-Writes rounds (next g).1)

generate_key-stream : (seed_value : ℕ) → generate_key seed_value ≡ stream 512 (seeded seed_value)
unfolding generate_key
generate_key-stream seed_value =
    let b = DynamicBuffer.make 0 in
    let g = seeded seed_value in
    let (b', e, i, v) =
      write_words-Writes 512 g b (Contents.make-IsValid 0)
        (omega (arith, length-stream 512 g, ap length (Contents.items-make 0))) in
    ap (λ p. p.1.buffer.items) e ∙ i ∙ ap (λ l. l ++ stream 512 g) (Contents.items-make 0)

-- The key of any seed consists of 4096 bytes.
pub generate_key_shape :
    (seed_value : ℕ)
    → (length (generate_key seed_value) ≡ 4096) × All IsByte (generate_key seed_value)
generate_key_shape seed_value =
    rw (generate_key-stream seed_value)
      (omega (arith, length-stream 512 (seeded seed_value)), stream-IsByte 512 (seeded seed_value))

pub generate_key-nonempty : (seed_value : ℕ) → generate_key seed_value ≢ []
generate_key-nonempty seed_value e =
    let empty : length (generate_key seed_value) ≡ 0 = ap length e in
    omega (arith, empty, (generate_key_shape seed_value).0)

length-hex : (bs : List ℕ) → length (hex bs) ≡ 2 * length bs
unfolding hex
length-hex [] = refl
length-hex (b ∷ bs) = omega (arith, length-hex bs)

hex_digit-injective : (c d : ℕ) → c < 16 → d < 16 → hex_digit c ≡ hex_digit d → c ≡ d
unfolding hex_digit
hex_digit-injective c d hc hd e = ground arith

hex-injective : (xs ys : List ℕ) → All IsByte xs → All IsByte ys → hex xs ≡ hex ys → xs ≡ ys
unfolding hex
hex-injective [] [] hx hy e = refl
hex-injective [] (y ∷ ys) hx hy e = cc
hex-injective (x ∷ xs) [] hx hy e = cc
hex-injective (x ∷ xs) (y ∷ ys) (hx, hxs) (hy, hys) e =
    let hi : x / 16 ≡ y / 16 =
      hex_digit-injective _ _ (omega arith) (omega arith) (ap (λ l. get_or l 0 0) e) in
    let lo : x % 16 ≡ y % 16 =
      hex_digit-injective _ _ (omega arith) (omega arith) (ap (λ l. get_or l 1 0) e) in
    let head : x ≡ y = omega arith in cc (head, hex-injective xs ys hxs hys (ap (drop 2) e))

-- The sixteen digits, in their order.
abbrev digits : List ℕ
digits = codes "0123456789abcdef"

abbrev is_digit : ℕ → Bool
is_digit d = get_or digits d 0 == hex_digit d && ltb d (length digits)

hex_digit_table : scan is_digit 16 ≡ true
unfolding scan hex_digit
hex_digit_table = refl

get_elem?-get_or : (xs : List ℕ) (i : ℕ) → i < length xs → get_elem? xs i ≡ some (get_or xs i 0)
get_elem?-get_or [] i h = absurd (omega (arith, h))
get_elem?-get_or (x ∷ xs) zero h = refl
get_elem?-get_or (x ∷ xs) (suc i) h = get_elem?-get_or xs i (omega (arith, h))

get_elem?-digits : (d : ℕ) → d < 16 → get_elem? digits d ≡ some (hex_digit d)
get_elem?-digits d h =
    let t : is_digit d ≡ true = at-scan is_digit d h hex_digit_table in
    let inside : d < length digits = ground arith in
    let same' : get_or digits d 0 ≡ hex_digit d = ground (arith, t) in
    get_elem?-get_or digits d inside ∙ ap some same'

hex-digits :
    (bs : List ℕ) (i b : ℕ)
    → All IsByte bs
    → get_elem? bs i ≡ some b
    → (high : ℕ) × (low : ℕ) × (get_elem? (hex bs) (2 * i) ≡ some high)
      × (get_elem? (hex bs) (2 * i + 1) ≡ some low)
      × (get_elem? digits (b / 16) ≡ some high)
      × (get_elem? digits (b % 16) ≡ some low)
unfolding hex
hex-digits [] i b h e = absurd (none-ne-some e)
hex-digits (x ∷ xs) zero b (h, hs) e =
    let same' : x ≡ b = of_some e in
    (
      hex_digit (x / 16),
      hex_digit (x % 16),
      refl,
      refl,
      ap (λ y. get_elem? digits (y / 16)) (sym same') ∙ get_elem?-digits (x / 16) (omega arith),
      ap (λ y. get_elem? digits (y % 16)) (sym same') ∙ get_elem?-digits (x % 16) (omega arith),
    )
hex-digits (x ∷ xs) (suc i) b (h, hs) e =
    let (high, low, e1, e2, up, down) = hex-digits xs i b hs e in
    let at1 : 2 * suc i ≡ suc (suc (2 * i)) = omega arith in
    let at2 : 2 * suc i + 1 ≡ suc (suc (2 * i + 1)) = omega arith in
    (
      high,
      low,
      ap (get_elem? (hex (x ∷ xs))) at1 ∙ e1,
      ap (get_elem? (hex (x ∷ xs))) at2 ∙ e2,
      up,
      down,
    )

-- A token is the text of its digest in small hexadecimal digits: it has two characters for each byte,
-- at the byte's place i the characters 2 i and 2 i + 1 are the digits of the byte's upper and of its
-- lower half, and two clock values give one token exactly when the digests of their random numbers
-- are the same. The digest consists of bytes.
pub create_token_exact :
    (sha1 : List ℕ → List ℕ)
    → ((text : List ℕ) → All IsByte (sha1 text))
    → (now then' : ℕ)
    → (length (create_token sha1 now) ≡ 2 * length (sha1 (to_string (next (seed now)).0)))
      × ((i b : ℕ)
          → get_elem? (sha1 (to_string (next (seed now)).0)) i ≡ some b
          → (high : ℕ) × (low : ℕ) × (get_elem? (create_token sha1 now) (2 * i) ≡ some high)
            × (get_elem? (create_token sha1 now) (2 * i + 1) ≡ some low)
            × (get_elem? (codes "0123456789abcdef") (b / 16) ≡ some high)
            × (get_elem? (codes "0123456789abcdef") (b % 16) ≡ some low))
      × ((create_token sha1 now ≡ create_token sha1 then')
          ↔ (sha1 (to_string (next (seed now)).0) ≡ sha1 (to_string (next (seed then')).0)))
unfolding create_token
create_token_exact sha1 bytes now then' = (
  length-hex _,
  λ i b e. hex-digits (sha1 (to_string (next (seed now)).0)) i b (bytes _) e,
  (λ e. hex-injective _ _ (bytes _) (bytes _) e, λ e. ap hex e),
)
