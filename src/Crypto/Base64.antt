-- ===== src/Crypto/Base64.antt =====
-- `Base64Encode` and `Base64Decode` of util/Crypto.cpp: the wrappers of Boost's functions, which write
-- into the string that they are given. `none` is a write past the end of the string.
use ey_ps.Prelude.{
  ℕ, zero, suc, ◌≤◌, ◌≡◌, refl, ap, List, [], ◌∷◌, ◌++◌, Option, none, some, length, drop, ltb,
  if◌then◌else◌, ge→ltb_false, arith,
}

-- boost::beast::detail::base64: the sizes that are reserved, and what is written to the output, whose
-- length is the number that the functions return.
pub record Base64 : Type 0 where
  pub encoded_size : ℕ → ℕ
  pub encode : List ℕ → List ℕ
  pub decoded_size : ℕ → ℕ
  pub decode : List ℕ → List ℕ

-- What Boost documents: the sizes are enough, and decoding undoes encoding.
pub record IsBase64 (b : Base64) : Type 0 where
  pub encode_fits : (input : List ℕ) → length (b.encode input) ≤ b.encoded_size (length input)
  pub decode_fits : (input : List ℕ) → length (b.decode input) ≤ b.decoded_size (length input)
  pub decode-encode : (input : List ℕ) → b.decode (b.encode input) ≡ input

-- std::string::resize
abbrev resize : ℕ → List ℕ → List ℕ
resize zero s = []
resize (suc n) [] = 0 ∷ resize n []
resize (suc n) (c ∷ s) = c ∷ resize n s

-- The bytes are written from the start of the string on, and the string is cut to their number.
unfoldable pub written_into : List ℕ → List ℕ → Option (List ℕ)
written_into bytes output =
    if ltb (length output) (length bytes)
    then none
    else some (resize (length bytes) (bytes ++ drop (length bytes) output))

-- Base64Encode(input, output)
unfoldable pub base64_encode : Base64 → List ℕ → List ℕ → Option (List ℕ)
unfolding written_into
base64_encode b input output =
    written_into (b.encode input) (resize (b.encoded_size (length input)) output)

-- Base64Decode(input, output)
unfoldable pub base64_decode : Base64 → List ℕ → List ℕ → Option (List ℕ)
unfolding written_into
base64_decode b input output =
    written_into (b.decode input) (resize (b.decoded_size (length input)) output)

length-resize : (n : ℕ) (s : List ℕ) → length (resize n s) ≡ n
length-resize zero s = refl
length-resize (suc n) [] = ap suc (length-resize n [])
length-resize (suc n) (c ∷ s) = ap suc (length-resize n s)

resize-append : (front back : List ℕ) → resize (length front) (front ++ back) ≡ front
resize-append [] back = refl
resize-append (c ∷ front) back = ap (λ l. c ∷ l) (resize-append front back)

written_into_fits :
    (bytes output : List ℕ) → length bytes ≤ length output → written_into bytes output ≡ some bytes
unfolding written_into
written_into_fits bytes output h =
    rw (ge→ltb_false (length output) (length bytes) h)
      (ap some (resize-append bytes (drop (length bytes) output)))

module _ (b : Base64) (lawful : IsBase64 b) where
  pub base64_encode_fits :
      (input output : List ℕ) → base64_encode b input output ≡ some (b.encode input)
  unfolding base64_encode
  base64_encode_fits input output = written_into_fits (b.encode input) _ (
      omega (arith, lawful.encode_fits input, length-resize (b.encoded_size (length input)) output))

  pub base64_decode_fits :
      (input output : List ℕ) → base64_decode b input output ≡ some (b.decode input)
  unfolding base64_decode
  base64_decode_fits input output = written_into_fits (b.decode input) _ (
      omega (arith, lawful.decode_fits input, length-resize (b.decoded_size (length input)) output))
