-- ===== src/Http/Routes/Answers.antt =====
-- How many answers a request gets, and which.
use ey_ps.Prelude.{
  ℕ, ◌≤◌, ◌≡◌, ◌⊎◌, inl, inr, refl, ap, subst, true, List, [], ◌∷◌, ◌++◌, Option, some, ◌==◌,
  length, length-append, Bool-cases, arith,
}
use ey_ps.Prelude.Bytes.{codes}
use ey_ps.Prelude.Options.{of_some, none-ne-some, map-eq-some}
use ey_ps.Http.Routes.{
  Route, starts_with, first_match, region_table, generic_table, login_table, or_greeting,
  handle_request, generic_handler, login_handler, answers,
}
use ey_ps.Http.Routes.Tables.{
  apart, alone, plain, all_plain, first_match-apart, first_match-plain, length-first_match,
}

-- A target that begins with a slash reaches none of the three logins.
pub login_handler-unreachable : (target : List ℕ) → login_handler (47 ∷ target) ≡ []
unfolding login_handler first_match starts_with
login_handler-unreachable target = refl

-- The address of a region that the region list gives out, under any name, gets no answer.
pub answers-dispatch_url : (name : List ℕ) → answers (codes "/query_cur_region/" ++ name) ≡ some []
unfolding answers first_match starts_with
answers-dispatch_url name = refl

-- At most one of two lists has an element, and no more than one.
length-one :
    (xs ys : List Route)
    → (xs ≡ []) ⊎ (ys ≡ [])
    → length xs ≤ 1
    → length ys ≤ 1
    → length (xs ++ ys) ≤ 1
length-one xs ys (inl e) hx hy = omega (arith, length-append xs ys, ap length e)
length-one xs ys (inr e) hx hy = omega (arith, length-append xs ys, ap length e)

tables-apart :
    (apart region_table generic_table ≡ true)
    × (apart region_table login_table ≡ true)
    × (apart generic_table login_table ≡ true)
unfolding apart alone starts_with
tables-apart = (refl, refl, refl)

tables-plain : (all_plain generic_table ≡ true) × (all_plain login_table ≡ true)
unfolding all_plain plain
tables-plain = (refl, refl)

module _ (target : List ℕ) where
  abbrev regions : List Route
  regions = first_match region_table target

  abbrev others : List Route
  others = generic_handler target ++ login_handler target

  length-others : length others ≤ 1
  unfolding generic_handler login_handler
  length-others =
      length-one _ _ (first_match-apart generic_table login_table target tables-apart.2)
        (length-first_match generic_table target) (length-first_match login_table target)

  others-empty :
      (first_match generic_table target ≡ []) → (first_match login_table target ≡ []) → others ≡ []
  unfolding generic_handler login_handler
  others-empty g l = rw (g, l)

-- Where a region is asked for, nobody else answers.
others-after_region :
    (target : List ℕ) (r : Route) (rs : List Route)
    → first_match region_table target ≡ r ∷ rs
    → others target ≡ []
others-after_region target r rs found =
    others-empty target
      (not-both (first_match-apart region_table generic_table target tables-apart.0))
      (not-both (first_match-apart region_table login_table target tables-apart.1))
  where
    not-both : {ys : List Route} → (first_match region_table target ≡ []) ⊎ (ys ≡ []) → ys ≡ []
    not-both (inl e) = let bad : ⊥ = cc in absurd bad
    not-both (inr e) = e

answered :
    (found : List Route) (target : List ℕ) (sent : List Route)
    → first_match region_table target ≡ found
    → or_greeting found target ≡ some sent
    → length (sent ++ others target) ≤ 1
answered (r ∷ rs) target sent q e =
    let alone' : length (others target) ≡ 0 = ap length (others-after_region target r rs q) in
    omega (
      arith,
      length-append sent (others target),
      alone',
      ap length (of_some e),
      ap length q,
      length-first_match region_table target,
    )
answered [] [] sent q e = absurd (none-ne-some e)
answered [] (a ∷ []) sent q e = absurd (none-ne-some e)
answered [] (a ∷ b ∷ target) sent q e = elim (Bool-cases (b == 63)) [
  | inl h ↦
      let asked : some (Route.hello ∷ []) ≡ some sent = rw h at e in
      let quiet =
        others-empty (a ∷ b ∷ target) (first_match-plain generic_table a b target h tables-plain.0)
          (first_match-plain login_table a b target h tables-plain.1) in
      omega (
        arith,
        length-append sent (others (a ∷ b ∷ target)),
        ap length quiet,
        ap length (of_some asked),
      )
  | inr h ↦
      let silent : ◌≡◌ {A = Option (List Route)} (some []) (some sent) = rw h at e in
      omega (
        arith,
        length-append sent (others (a ∷ b ∷ target)),
        ap length (of_some silent),
        length-others (a ∷ b ∷ target),
      )
]

-- A request whose handlers all run is answered once at most, whatever its target.
pub answers-once :
    (target : List ℕ) (sent : List Route) → answers target ≡ some sent → length sent ≤ 1
unfolding answers handle_request
answers-once target sent e =
    let (first, e1, e2) =
      map-eq-some (λ s. s ++ others target) (or_greeting (regions target) target) e in
    subst (λ l. length l ≤ 1) e2 (answered (regions target) target first refl e1)
