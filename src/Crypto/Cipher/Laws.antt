-- ===== src/Crypto/Cipher/Laws.antt =====
-- `Xor` is its own inverse, keeps the length, and works byte by byte.
use ey_ps.Prelude.{
  ℕ, zero, suc, ◌+◌, ◌^◌, ◌≤◌, lt→ltb, Bool-cases, ◌%◌, ◌<◌, ◌≡◌, ◌≢◌, ◌⊎◌, inl, inr, refl, ap, ◌∙◌,
  Bool, true, false, ◌&&◌, if◌then◌else◌, List, [], ◌∷◌, none, some, length, get_or, get_elem?, All,
  bit_xor, arith, ◌==◌, ltb,
}
use ey_ps.Prelude.Bytes.{IsByte}
use ey_ps.Crypto.Cipher.{xor_loop, xor}
use mathlib.Core.Option

-- Over bytes, every pair of values is checked by evaluation.
unfoldable pub scan : (ℕ → Bool) → ℕ → Bool
scan test zero = true
scan test (suc last) = let before = scan test last in if test last then before else false

pub at-scan :
    {bound : ℕ} (test : ℕ → Bool) (value : ℕ)
    → value < bound
    → scan test bound ≡ true
    → test value ≡ true
unfolding scan
at-scan {bound = zero} test value inside passed = absurd (omega arith)
at-scan {bound = suc last} test value inside passed =
    ground (arith, at-scan {bound = last} test value)

abbrev undoes_at : ℕ → ℕ → Bool
undoes_at b k = bit_xor (bit_xor b k) k == b && ltb (bit_xor b k) 256

abbrev undoes : ℕ → Bool
undoes b = scan (undoes_at b) 256

undoes_table : scan undoes 256 ≡ true
unfolding scan
undoes_table = refl

byte_laws : (b k : ℕ) → b < 256 → k < 256 → (bit_xor (bit_xor b k) k ≡ b) × (bit_xor b k < 256)
byte_laws b k hb hk =
    let row : undoes b ≡ true = at-scan undoes b hb undoes_table in
    let both : undoes_at b k ≡ true = at-scan (undoes_at b) k hk row in
    (ground (arith, both), ground (arith, both))

get_or-IsByte : (key : List ℕ) (i : ℕ) → All IsByte key → get_or key i 0 < 256
get_or-IsByte [] i h = omega arith
get_or-IsByte (k ∷ ks) zero h = h.0
get_or-IsByte (k ∷ ks) (suc i) h = get_or-IsByte ks i h.1

xor_loop_twice :
    (key : List ℕ) (i : ℕ) (bs : List ℕ)
    → All IsByte key
    → All IsByte bs
    → xor_loop key i (xor_loop key i bs) ≡ bs
unfolding xor_loop
xor_loop_twice key i [] hk hb = refl
xor_loop_twice key i (b ∷ bs) hk (h, hs) = cc (
  (byte_laws b (get_or key (i % length key) 0) h (get_or-IsByte key _ hk)).0,
  xor_loop_twice key (i + 1) bs hk hs,
)

xor_loop-IsByte :
    (key : List ℕ) (i : ℕ) (bs : List ℕ)
    → All IsByte key
    → All IsByte bs
    → All IsByte (xor_loop key i bs)
unfolding xor_loop
xor_loop-IsByte key i [] hk hb = tt
xor_loop-IsByte key i (b ∷ bs) hk (h, hs) =
    ((byte_laws b _ h (get_or-IsByte key _ hk)).1, xor_loop-IsByte key (i + 1) bs hk hs)

length-xor_loop : (key : List ℕ) (i : ℕ) (bs : List ℕ) → length (xor_loop key i bs) ≡ length bs
unfolding xor_loop
length-xor_loop key i [] = refl
length-xor_loop key i (b ∷ bs) = ap suc (length-xor_loop key (i + 1) bs)

-- Where the size is an int, the loop is what Xor does.
xor-loop :
    (packet key : List ℕ)
    → key ≢ []
    → length packet < 2 ^ 31
    → xor packet key ≡ some (xor_loop key 0 packet)
unfolding xor xor_loop
xor-loop packet [] hk small = absurd (hk refl)
xor-loop [] (k ∷ ks) hk small = refl
xor-loop (b ∷ bs) (k ∷ ks) hk small = rw (lt→ltb (length (b ∷ bs)) (2 ^ 31) small)

-- Enciphering a packet of fewer than 2 ^ 31 bytes twice under one non-empty key of bytes gives the
-- packet back, and what is enciphered has the packet's length and consists of bytes.
pub xor-xor :
    (packet key : List ℕ)
    → key ≢ []
    → length packet < 2 ^ 31
    → All IsByte key
    → All IsByte packet
    → (sent : List ℕ) × (xor packet key ≡ some sent)
      × (xor sent key ≡ some packet)
      × (length sent ≡ length packet)
      × All IsByte sent
xor-xor packet key hk small kb pb =
    let sent = xor_loop key 0 packet in
    let len = length-xor_loop key 0 packet in
    (
      sent,
      xor-loop packet key hk small,
      xor-loop sent key hk (omega (arith, len)) ∙ ap some (xor_loop_twice key 0 packet kb pb),
      len,
      xor_loop-IsByte key 0 packet kb pb,
    )

get_elem?-xor_loop :
    (key : List ℕ) (i j : ℕ) (bs : List ℕ)
    → get_elem? (xor_loop key i bs) j
      ≡ Option.map (λ b. bit_xor b (get_or key ((i + j) % length key) 0)) (get_elem? bs j)
unfolding xor_loop
get_elem?-xor_loop key i j [] = refl
get_elem?-xor_loop key i zero (b ∷ bs) =
    let e : i ≡ i + 0 = omega arith in ap (λ n. some (bit_xor b (get_or key (n % length key) 0))) e
get_elem?-xor_loop key i (suc j) (b ∷ bs) =
    let e : i + 1 + j ≡ i + suc j = omega arith in
    get_elem?-xor_loop key (i + 1) j bs
    ∙ ap (λ n. Option.map (λ b. bit_xor b (get_or key (n % length key) 0)) (get_elem? bs j)) e

-- Xor has a result for an empty packet, and for one of fewer than 2 ^ 31 bytes with a key that is
-- not empty: every byte of it is the packet's byte at that place, combined with the key's byte at the
-- place modulo the key's length. For every other packet it has none: the division by the size of an
-- empty key, or the overflow of the index, is undefined.
pub xor_bytewise :
    (packet key : List ℕ)
    → ((packet ≢ []) × ((key ≡ []) ⊎ (2 ^ 31 ≤ length packet)) × (xor packet key ≡ none))
      ⊎ ((sent : List ℕ) × ((packet ≡ []) ⊎ ((key ≢ []) × (length packet < 2 ^ 31)))
          × (xor packet key ≡ some sent)
          × ((j : ℕ)
              → get_elem? sent j
                ≡ Option.map (λ b. bit_xor b (get_or key (j % length key) 0)) (get_elem? packet j)))
unfolding xor
xor_bytewise [] key = inr ([], inl refl, refl, λ j. refl)
xor_bytewise (b ∷ bs) [] = inl (λ e. cc, inl refl, refl)
xor_bytewise (b ∷ bs) (k ∷ ks) = elim (Bool-cases (ltb (length (b ∷ bs)) (2 ^ 31))) [
  | inr h ↦ inl (λ e. cc, inr (ground arith), rw h)
  | inl h ↦ inr (
    xor_loop (k ∷ ks) 0 (b ∷ bs),
    inr (λ e. cc, ground arith),
    rw h,
    λ j.
        let e : 0 + j ≡ j = omega arith in
        get_elem?-xor_loop (k ∷ ks) 0 j (b ∷ bs)
        ∙ ap
            (λ n.
              Option.map (λ x. bit_xor x (get_or (k ∷ ks) (n % length (k ∷ ks)) 0))
                (get_elem? (b ∷ bs) j))
            e,
  )
]

-- With a key that is not empty and a size that is an int there is nothing to fail.
pub xor_total :
    (packet key : List ℕ)
    → key ≢ []
    → length packet < 2 ^ 31
    → (sent : List ℕ) × (xor packet key ≡ some sent)
xor_total packet key h small = (xor_loop key 0 packet, xor-loop packet key h small)
