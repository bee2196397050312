-- ===== src/Wire/BufferView/Inversion.antt =====
-- From a successful read of util/bufferView.h back to the bytes that were read.
use ey_ps.Prelude.{
  ℕ, ◌^◌, ◌<◌, ◌≡◌, sym, ap, subst, ◌∙◌, inl, inr, true, List, [], ◌∷◌, ◌++◌, length, take, drop,
  take-append-drop, All,
}
use ey_ps.Prelude.Bytes.{IsByte}
use ey_ps.Prelude.Exec.{Exec, Result, ok, err, pure, ◌>>=◌, >>=-eq-ok, ok-injective}
use ey_ps.Wire.Endian.{written, decoded, written-decoded, decoded-lt}
use ey_ps.Wire.BufferView.{BufferView, read_impl, read, read_view, span_at, advance}
use ey_ps.Wire.BufferView.Reads.{Ahead, read_view_exact, Ahead-advance}

-- `m` returned `a` from `b`, and `bytes` are what it took of what was ahead.
record Took (bytes left : List ℕ) (b' : BufferView) : Type 0 where
  rest : List ℕ
  split : left ≡ bytes ++ rest
  ahead : Ahead rest b'

-- What a reader's outcome says, if it returned.
abbrev TookBy : ℕ → List ℕ → Result (List ℕ) × BufferView → Type 0
TookBy n left (ok bytes, b') = (length bytes ≡ n) × Took bytes left b'
TookBy n left (err e, b') = Unit

All-right : (xs ys : List ℕ) → All IsByte (xs ++ ys) → All IsByte ys
All-right [] ys h = h
All-right (x ∷ xs) ys h = All-right xs ys h.1

All-left : (xs ys : List ℕ) → All IsByte (xs ++ ys) → All IsByte xs
All-left [] ys h = tt
All-left (x ∷ xs) ys h = (h.0, All-left xs ys h.1)

Took-span_at :
    (n : ℕ) (b : BufferView) (left : List ℕ)
    → Ahead left b
    → length (span_at n b) ≡ n
    → Took (span_at n b) left (advance n b)
Took-span_at n b left a len =
    let eq : left ≡ span_at n b ++ drop n left =
      sym (take-append-drop n left) ∙ ap (λ l. take n l ++ drop n left) (sym a.ahead) in
    record {
      rest = drop n left;
      split = eq;
      ahead =
          subst (λ k. Ahead (drop n left) (advance k b)) len
            (Ahead-advance (span_at n b) (drop n left) b (subst (λ l. Ahead l b) eq a));
    }

read_view-Took :
    (n : ℕ) (b : BufferView) (left : List ℕ) {bytes : List ℕ} {b' : BufferView}
    → n < 2 ^ 63
    → Ahead left b
    → read_view n b ≡ (ok bytes, b')
    → (length bytes ≡ n) × Took bytes left b'
read_view-Took n b left {bytes} {b'} hn a e = elim (read_view_exact n b a.valid hn) [
  | inl (fits, before, view, impl, len, valid) ↦
      subst (λ (r : Result (List ℕ) × BufferView). TookBy n left r) (sym view ∙ e)
        (len, Took-span_at n b left a len)
  | inr (inl (end, zero', view, impl)) ↦
      subst (λ (r : Result (List ℕ) × BufferView). TookBy n left r) (sym view ∙ e) tt
  | inr (inr (short, view, impl)) ↦
      subst (λ (r : Result (List ℕ) × BufferView). TookBy n left r) (sym view ∙ e) tt
]

read_impl-Took :
    (n : ℕ) (b : BufferView) (left : List ℕ) {bytes : List ℕ} {b' : BufferView}
    → n < 2 ^ 63
    → Ahead left b
    → read_impl n b ≡ (ok bytes, b')
    → (length bytes ≡ n) × Took bytes left b'
read_impl-Took n b left {bytes} {b'} hn a e = elim (read_view_exact n b a.valid hn) [
  | inl (fits, before, view, impl, len, valid) ↦
      subst (λ (r : Result (List ℕ) × BufferView). TookBy n left r) (sym impl ∙ e)
        (len, Took-span_at n b left a len)
  | inr (inl (end, zero', view, impl)) ↦
      subst (λ (r : Result (List ℕ) × BufferView). TookBy n left r) (sym impl ∙ e) tt
  | inr (inr (short, view, impl)) ↦
      subst (λ (r : Result (List ℕ) × BufferView). TookBy n left r) (sym impl ∙ e) tt
]

Took-IsByte :
    {bytes left : List ℕ} {b' : BufferView}
    → (t : Took bytes left b') → All IsByte left
    → All IsByte bytes × All IsByte t.rest
Took-IsByte {bytes} {left} t h =
    let h' : All IsByte (bytes ++ t.rest) = subst (All IsByte) t.split h in
    (All-left bytes t.rest h', All-right bytes t.rest h')

-- A number that `Read<T>` returned, and the bytes that it stood in.
record ReadNumber (w v : ℕ) (left : List ℕ) (b' : BufferView) : Type 0 where
  fits : v < 256 ^ w
  took : Took (written w true v) left b'
  bytes : All IsByte took.rest

read_took :
    (w : ℕ) (b : BufferView) (left : List ℕ) {v : ℕ} {b' : BufferView}
    → w < 2 ^ 63
    → Ahead left b
    → All IsByte left
    → read w true b ≡ (ok v, b')
    → ReadNumber w v left b'
unfolding read
read_took w b left {v} {b'} hw a h e =
    let (bs, b1, e1, e2) = >>=-eq-ok (read_impl w) (λ bs. pure (decoded w true bs)) b e in
    let (len, t) = read_impl-Took w b left hw a e1 in
    let (hbs, hrest) = Took-IsByte t h in
    let v_eq : decoded w true bs ≡ v = ok-injective (ap (λ r. r.0) e2) in
    let b_eq : b1 ≡ b' = ap (λ r. r.1) e2 in
    let w_eq : bs ≡ written w true v =
      sym (written-decoded w true bs len hbs) ∙ ap (written w true) v_eq in
    record {
      fits = subst (λ k. k < 256 ^ w) v_eq (decoded-lt w true bs len hbs);
      took = record {
        rest = t.rest;
        split = t.split ∙ ap (λ l. l ++ t.rest) w_eq;
        ahead = subst (Ahead t.rest) b_eq t.ahead;
      };
      bytes = hrest;
    }

module _ {C : Type 0} {R : Type 0} where
  -- A block that begins with `Read<T>` and returned: the number, and what was left behind it.
  pub read_then :
      (w : ℕ) (f : ℕ → Exec BufferView C) (b : BufferView) (left : List ℕ) {c : C} {b' : BufferView}
      → w < 2 ^ 63
      → Ahead left b
      → All IsByte left
      → (read w true >>= f) b ≡ (ok c, b')
      → ((v : ℕ) (b1 : BufferView) (rest : List ℕ)
          → v < 256 ^ w
          → left ≡ written w true v ++ rest
          → Ahead rest b1
          → All IsByte rest
          → f v b1 ≡ (ok c, b')
          → R)
      → R
  read_then w f b left hw a h e k =
      let (v, b1, e1, e2) = >>=-eq-ok (read w true) f b e in
      let r = read_took w b left hw a h e1 in
      k v b1 r.took.rest r.fits r.took.split r.took.ahead r.bytes e2

  -- The same for a block that begins with `ReadView`.
  pub view_then :
      (n : ℕ) (f : List ℕ → Exec BufferView C) (b : BufferView) (left : List ℕ) {c : C}
      {b' : BufferView}
      → n < 2 ^ 63
      → Ahead left b
      → All IsByte left
      → (read_view n >>= f) b ≡ (ok c, b')
      → ((bytes : List ℕ) (b1 : BufferView) (rest : List ℕ)
          → length bytes ≡ n
          → left ≡ bytes ++ rest
          → Ahead rest b1
          → All IsByte rest
          → f bytes b1 ≡ (ok c, b')
          → R)
      → R
  view_then n f b left hn a h e k =
      let (bytes, b1, e1, e2) = >>=-eq-ok (read_view n) f b e in
      let (len, t) = read_view-Took n b left hn a e1 in
      k bytes b1 t.rest len t.split t.ahead (Took-IsByte t h).1 e2
