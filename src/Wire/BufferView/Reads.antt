-- ===== src/Wire/BufferView/Reads.antt =====
-- The readers of util/bufferView.cpp: what they return, where they stop, and when they throw.
use ey_ps.Prelude.{
  ℕ, ◌+◌, ◌%◌, ◌^◌, ◌≤◌, ◌<◌, ◌≡◌, refl, sym, ap, ◌∙◌, ◌⊎◌, inl, inr, Bool, true, List, [], ◌∷◌,
  ◌++◌, length, length-append, length-take, length-drop, take, drop, ltb, arith, le→leb, lt→ltb,
  Bool-cases, take-length-append, drop-length-append, drop-drop,
}
use ey_ps.Prelude.Exec.{Exec, ok, err, out_of_data, past_the_end, ◌>>=◌, >>=-ok}
use ey_ps.Wire.Endian.{written, decoded, length-written, decoded-written}
use ey_ps.Wire.BufferView.{
  BufferView, make, can_read_bytes, span_at, advance, read_impl, read_view, read, read_chars,
}

-- A span is in memory, so that its size is below 2 ^ 63, and the offset is inside it.
pub record IsValid (b : BufferView) : Type 0 where
  pub inside : b.cur_data_offset ≤ length b.data_view
  pub small : length b.data_view < 2 ^ 63

-- What is left to read.
pub record Ahead (left : List ℕ) (b : BufferView) : Type 0 where
  pub valid : IsValid b
  pub ahead : drop b.cur_data_offset b.data_view ≡ left

-- A fresh view over a span has all of it ahead.
pub Ahead-make : (view : List ℕ) → length view < 2 ^ 63 → Ahead view (make view)
Ahead-make view h = record { valid = omega arith; ahead = refl }

module _ (bytes rest : List ℕ) (b : BufferView) (h : Ahead (bytes ++ rest) b) where
  room : b.cur_data_offset + length bytes ≤ length b.data_view
  room = omega (
    arith,
    h.valid,
    ap length h.ahead,
    length-append bytes rest,
    length-drop b.cur_data_offset b.data_view,
  )

  unwrapped : (b.cur_data_offset + length bytes) % 2 ^ 64 ≡ b.cur_data_offset + length bytes
  unwrapped = omega (arith, room, h.valid)

  span-ahead : span_at (length bytes) b ≡ bytes
  span-ahead = ap (take (length bytes)) h.ahead ∙ take-length-append (length bytes) bytes rest refl

  can_read-ahead : can_read_bytes (length bytes) b ≡ true
  unfolding can_read_bytes
  can_read-ahead = le→leb _ _ (omega (arith, unwrapped, room))

  -- Behind the bytes stands the rest.
  pub Ahead-advance : Ahead rest (advance (length bytes) b)
  Ahead-advance = record {
    valid = record { inside = omega (arith, unwrapped, room); small = h.valid.small };
    ahead =
        ap (λ k. drop k b.data_view) unwrapped
        ∙ sym (drop-drop b.cur_data_offset (length bytes) b.data_view)
        ∙ ap (drop (length bytes)) h.ahead
        ∙ drop-length-append (length bytes) bytes rest refl;
  }

  before_end : 0 < length (bytes ++ rest) → ltb b.cur_data_offset (length b.data_view) ≡ true
  before_end some' =
      lt→ltb _ _ (
        omega (arith, h.valid, some', ap length h.ahead, length-drop b.cur_data_offset b.data_view))

  view_read :
      0 < length (bytes ++ rest) → read_view (length bytes) b ≡ (ok bytes, advance (length bytes) b)
  unfolding read_view
  view_read some' = rw (can_read-ahead, before_end some', span-ahead)

  impl_read :
      0 < length (bytes ++ rest) → read_impl (length bytes) b ≡ (ok bytes, advance (length bytes) b)
  unfolding read_impl
  impl_read some' = rw (can_read-ahead, before_end some', span-ahead)

  chars_read :
      ltb 0 (length bytes) ≡ true
      → read_chars (length bytes) b ≡ (ok bytes, advance (length bytes) b)
  unfolding read_chars
  chars_read pos = rw (can_read-ahead, pos, span-ahead)

-- With `left` ahead, `m` returns `a` and leaves `rest` ahead.
abbrev pub Reads : {A : Type 0} → Exec BufferView A → A → List ℕ → List ℕ → Type 0
Reads m a left rest =
    (b : BufferView) → Ahead left b → (b' : BufferView) × (m b ≡ (ok a, b')) × Ahead rest b'

module _ {A B : Type 0} where
  pub Reads-bind :
      (m : Exec BufferView A) (f : A → Exec BufferView B) (a : A) {c : B} {left mid rest : List ℕ}
      → Reads m a left mid
      → Reads (f a) c mid rest
      → Reads (m >>= f) c left rest
  Reads-bind m f a hm hf b h =
      let (b1, e1, h1) = hm b h in let (b2, e2, h2) = hf b1 h1 in (b2, >>=-ok m f b e1 ∙ e2, h2)

pub Reads-pure : {A : Type 0} (a : A) (left : List ℕ) → Reads (λ b. (ok a, b)) a left left
Reads-pure a left b h = (b, refl, h)

pub read_view-Reads :
    (bytes rest : List ℕ)
    → 0 < length (bytes ++ rest)
    → Reads (read_view (length bytes)) bytes (bytes ++ rest) rest
read_view-Reads bytes rest some' b h =
    (advance (length bytes) b, view_read bytes rest b h some', Ahead-advance bytes rest b h)

pub read_impl-Reads :
    (bytes rest : List ℕ)
    → 0 < length (bytes ++ rest)
    → Reads (read_impl (length bytes)) bytes (bytes ++ rest) rest
read_impl-Reads bytes rest some' b h =
    (advance (length bytes) b, impl_read bytes rest b h some', Ahead-advance bytes rest b h)

pub read_chars-Reads :
    (bytes rest : List ℕ) → Reads (read_chars (length bytes)) bytes (bytes ++ rest) rest
read_chars-Reads [] rest b h = (b, unfold read_chars in rw (can_read-ahead [] rest b h), h)
read_chars-Reads (x ∷ xs) rest b h =
    (advance _ b, chars_read (x ∷ xs) rest b h (ground arith), Ahead-advance (x ∷ xs) rest b h)

-- The bytes that `Write<T>` emits are read back by `Read<T>` of the same width and byte order.
pub read-Reads :
    (w : ℕ) (big : Bool) (v : ℕ) (rest : List ℕ)
    → v < 256 ^ w
    → 0 < w
    → Reads (read w big) v (written w big v ++ rest) rest
unfolding read
read-Reads w big v rest h pos =
    Reads-bind (read_impl w) (λ bytes b. (ok (decoded w big bytes), b)) (written w big v) impl
      λ b a. (b, ap (λ u. (ok u, b)) (decoded-written w big v h), a)
  where
    some' : 0 < length (written w big v ++ rest)
    some' = omega (arith, pos, length-append (written w big v) rest, length-written w big v)

    impl : Reads (read_impl w) (written w big v) (written w big v ++ rest) rest
    impl = rw (length-written w big v) at (read_impl-Reads (written w big v) rest some')

span_length :
    (count : ℕ) (b : BufferView)
    → b.cur_data_offset + count ≤ length b.data_view
    → length (span_at count b) ≡ count
span_length count b h =
    length-take count (drop b.cur_data_offset b.data_view)
      (omega (arith, length-drop b.cur_data_offset b.data_view))

-- For an offset inside a view of fewer than 2 ^ 63 bytes, and a count below 2 ^ 63: `ReadView` and
-- `ReadImpl` return `count` bytes from the offset on and move the offset behind them, still inside the
-- view, exactly when that many remain and one byte remains at least. Where the offset is at the end and
-- the count is 0 they index the view past its end, which is undefined; where too few bytes remain they
-- throw and leave the view as it was.
pub read_view_exact :
    (count : ℕ) (b : BufferView)
    → IsValid b
    → count < 2 ^ 63
    → ((b.cur_data_offset + count ≤ length b.data_view)
        × (b.cur_data_offset < length b.data_view)
        × (read_view count b ≡ (ok (span_at count b), advance count b))
        × (read_impl count b ≡ (ok (span_at count b), advance count b))
        × (length (span_at count b) ≡ count)
        × IsValid (advance count b))
      ⊎ ((b.cur_data_offset ≡ length b.data_view)
          × (count ≡ 0)
          × (read_view count b ≡ (err past_the_end, b))
          × (read_impl count b ≡ (err past_the_end, b)))
      ⊎ ((length b.data_view < b.cur_data_offset + count)
          × (read_view count b ≡ (err out_of_data, b))
          × (read_impl count b ≡ (err out_of_data, b)))
unfolding read_view read_impl can_read_bytes
read_view_exact count b v h = elim (Bool-cases (can_read_bytes count b)) [
  | inl e ↦
      let le : b.cur_data_offset + count ≤ length b.data_view = ground arith in
      elim (Bool-cases (ltb b.cur_data_offset (length b.data_view))) [
        | inl f ↦ inl (le, ground arith, rw (e, f), rw (e, f), span_length count b le, ground arith)
        | inr f ↦
            let at_end : length b.data_view ≤ b.cur_data_offset = ground arith in
            inr (inl (omega (arith, le, at_end), omega (arith, le, at_end), rw (e, f), rw (e, f)))
      ]
  | inr e ↦ inr (inr (ground arith, rw e, rw e))
]
