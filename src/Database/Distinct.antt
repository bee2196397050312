-- ===== src/Database/Distinct.antt =====
-- Lists without repetitions of ids, names or keys, for the accounts of src/database.
use ey_ps.Prelude.{
  ℕ, ◌≡◌, ◌≢◌, ◌⊎◌, inl, inr, refl, sym, ap, subst, ◌∙◌, Bool, List, [], ◌∷◌, ◌++◌, map, some, All,
  Bool-cases, same, same_refl, same→eq, clash, if◌then◌else◌,
}
use ey_ps.Database.Collections.{Document, filter}
use ey_ps.Database.Keys.{first_with}

-- `x` is none of them.
abbrev pub Absent : List ℕ → List (List ℕ) → Type 0
Absent x ys = All (λ y. y ≢ x) ys

abbrev pub Distinct : List (List ℕ) → Type 0
Distinct [] = Unit {0}
Distinct (x ∷ xs) = Absent x xs × Distinct xs

-- The first that is `old` becomes `new`.
abbrev pub replace_first : List ℕ → List ℕ → List (List ℕ) → List (List ℕ)
replace_first old new [] = []
replace_first old new (x ∷ xs) =
    let rest = replace_first old new xs in if same x old then new ∷ xs else x ∷ rest

pub replace_first-Absent :
    (old new y : List ℕ) (xs : List (List ℕ))
    → Absent y xs
    → new ≢ y
    → Absent y (replace_first old new xs)
replace_first-Absent old new y [] h n = tt
replace_first-Absent old new y (x ∷ xs) h n = elim (Bool-cases (same x old)) [
  | inl e ↦ rw e (n, h.1)
  | inr e ↦ rw e (h.0, replace_first-Absent old new y xs h.1 n)
]

pub replace_first-Distinct :
    (old new : List ℕ) (xs : List (List ℕ))
    → Distinct xs
    → Absent new xs
    → Distinct (replace_first old new xs)
replace_first-Distinct old new [] d h = tt
replace_first-Distinct old new (x ∷ xs) d h = elim (Bool-cases (same x old)) [
  | inl e ↦ rw e (h.1, d.1)
  | inr e ↦ rw e (
    replace_first-Absent old new x xs d.0 (λ p. h.0 (sym p)),
    replace_first-Distinct old new xs d.1 h.1,
  )
]

-- Where only the last is `old`, it is the one.
pub replace_first-last :
    (old new : List ℕ) (xs : List (List ℕ))
    → Absent old xs
    → replace_first old new (xs ++ (old ∷ [])) ≡ xs ++ (new ∷ [])
replace_first-last old new [] h = rw (same_refl old)
replace_first-last old new (x ∷ xs) h = elim (Bool-cases (same x old)) [
  | inl e ↦ absurd (h.0 (same→eq x old e))
  | inr e ↦ rw (e, replace_first-last old new xs h.1)
]

pub Absent-append :
    (y x : List ℕ) (xs : List (List ℕ)) → Absent y xs → x ≢ y → Absent y (xs ++ (x ∷ []))
Absent-append y x [] h n = (n, tt)
Absent-append y x (z ∷ xs) h n = (h.0, Absent-append y x xs h.1 n)

pub Distinct-append :
    (x : List ℕ) (xs : List (List ℕ)) → Distinct xs → Absent x xs → Distinct (xs ++ (x ∷ []))
Distinct-append x [] d h = (tt, tt)
Distinct-append x (y ∷ xs) d h =
    (Absent-append y x xs d.0 (λ p. h.0 (sym p)), Distinct-append x xs d.1 h.1)

-- A document of the list.
abbrev pub In : Document → List Document → Type 0
In d [] = ⊥
In d (x ∷ xs) = (x ≡ d) ⊎ In d xs

pub Absent-ne :
    (f : Document → List ℕ) (y : List ℕ) (ds : List Document) {d : Document}
    → Absent y (map f ds)
    → In d ds
    → f d ≢ y
Absent-ne f y [] h i = absurd i
Absent-ne f y (x ∷ ds) h (inl e) = λ p. h.0 (ap f e ∙ p)
Absent-ne f y (x ∷ ds) h (inr i) = Absent-ne f y ds h.1 i

filter_absent :
    (f : Document → List ℕ) (y : List ℕ) (ds : List Document)
    → Absent y (map f ds)
    → filter (λ d. same (f d) y) ds ≡ []
filter_absent f y [] h = refl
filter_absent f y (x ∷ ds) h = elim (Bool-cases (same (f x) y)) [
  | inl e ↦ absurd (h.0 (same→eq (f x) y e))
  | inr e ↦ rw e (filter_absent f y ds h.1)
]

-- Of documents with different values the one with a document's value is that document.
pub filter_only :
    (f : Document → List ℕ) (d : Document) (ds : List Document)
    → Distinct (map f ds)
    → In d ds
    → filter (λ e. same (f e) (f d)) ds ≡ d ∷ []
filter_only f d [] h i = absurd i
filter_only f d (x ∷ ds) h (inl e) =
    subst (λ y. filter (λ z. same (f z) (f y)) (x ∷ ds) ≡ y ∷ []) e
      (rw (same_refl (f x), filter_absent f (f x) ds h.0))
filter_only f d (x ∷ ds) h (inr i) = elim (Bool-cases (same (f x) (f d))) [
  | inl e ↦ absurd (Absent-ne f (f x) ds h.0 i (sym (same→eq (f x) (f d) e)))
  | inr e ↦ rw e (filter_only f d ds h.1 i)
]

pub first_only :
    (f : Document → List ℕ) (d : Document) (ds : List Document)
    → Distinct (map f ds)
    → In d ds
    → first_with (λ e. same (f e) (f d)) ds ≡ some d
first_only f d [] h i = absurd i
first_only f d (x ∷ ds) h (inl e) =
    subst (λ y. first_with (λ z. same (f z) (f y)) (x ∷ ds) ≡ some y) e (rw (same_refl (f x)))
first_only f d (x ∷ ds) h (inr i) = elim (Bool-cases (same (f x) (f d))) [
  | inl e ↦ absurd (Absent-ne f (f x) ds h.0 i (sym (same→eq (f x) (f d) e)))
  | inr e ↦ rw e (first_only f d ds h.1 i)
]

-- What a filter lets through is in the list.
pub In-filter :
    (p : Document → Bool) (ds : List Document) {d : Document} {es : List Document}
    → filter p ds ≡ d ∷ es
    → In d ds
In-filter p [] e = let bad : ⊥ = cc in absurd bad
In-filter p (x ∷ ds) {d} {es} e = elim (Bool-cases (p x)) [
  | inl h ↦ (let found : x ∷ filter p ds ≡ d ∷ es = rw h at e in inl (cc))
  | inr h ↦ inr (In-filter p ds (rw h at e))
]

-- A value that no document has passes no filter, and a filter that nothing passes shows that.
pub Absent-filter :
    (f : Document → List ℕ) (y : List ℕ) (ds : List Document)
    → filter (λ d. same (f d) y) ds ≡ []
    → Absent y (map f ds)
Absent-filter f y [] e = tt
Absent-filter f y (x ∷ ds) e = elim (Bool-cases (same (f x) y)) [
  | inl h ↦
      let some' : x ∷ filter (λ d. same (f d) y) ds ≡ [] = rw h at e in
      let bad : ⊥ = cc in absurd bad
  | inr h ↦ (λ p. clash (ap (λ z. same z y) p ∙ same_refl y) h, Absent-filter f y ds (rw h at e))
]
