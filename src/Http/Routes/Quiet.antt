-- ===== src/Http/Routes/Quiet.antt =====
-- Which of the answers of http/ touch the database: those of the logins.
use ey_ps.Prelude.{
  ℕ, ◌≡◌, inl, inr, refl, ap, subst, Bool, true, false, ◌&&◌, List, [], ◌∷◌, ◌++◌, Option, some,
  ◌==◌, Bool-cases, arith,
}
use ey_ps.Prelude.Options.{of_some, none-ne-some, map-eq-some}
use ey_ps.Http.Routes.{
  Route, first_match, region_table, generic_table, or_greeting, handle_request, generic_handler,
  login_handler, answers,
}

-- The routes that leave the database alone.
abbrev pub quiet : Route → Bool
quiet Route.client_login = false
quiet Route.token_login = false
quiet Route.session_key_login = false
quiet _ = true

abbrev pub all_quiet : List Route → Bool
all_quiet [] = true
all_quiet (route ∷ routes) = quiet route && all_quiet routes

all_quiet-append :
    (xs ys : List Route) → all_quiet xs ≡ true → all_quiet ys ≡ true → all_quiet (xs ++ ys) ≡ true
all_quiet-append [] ys hx hy = hy
all_quiet-append (x ∷ xs) ys hx hy = ground (arith, all_quiet-append xs ys)

abbrev routes_of : List (List ℕ × Route) → List Route
routes_of [] = []
routes_of ((prefix, route) ∷ table) = route ∷ routes_of table

-- A chain of tests sends what its table holds.
first_match-quiet :
    (table : List (List ℕ × Route)) (target : List ℕ)
    → all_quiet (routes_of table) ≡ true
    → all_quiet (first_match table target) ≡ true
unfolding first_match
first_match-quiet [] target h = refl
first_match-quiet ((prefix, route) ∷ table) target h =
    ground (arith, first_match-quiet table target)

or_greeting-quiet :
    (found : List Route) (target : List ℕ) (sent : List Route)
    → all_quiet found ≡ true
    → or_greeting found target ≡ some sent
    → all_quiet sent ≡ true
or_greeting-quiet (route ∷ found) target sent h e = subst (λ l. all_quiet l ≡ true) (of_some e) h
or_greeting-quiet [] [] sent h e = absurd (none-ne-some e)
or_greeting-quiet [] (a ∷ []) sent h e = absurd (none-ne-some e)
or_greeting-quiet [] (a ∷ b ∷ target) sent h e = elim (Bool-cases (b == 63)) [
  | inl asked ↦
      let said : some (Route.hello ∷ []) ≡ some sent = rw asked at e in
      subst (λ l. all_quiet l ≡ true) (of_some said) refl
  | inr other ↦
      let silent : ◌≡◌ {A = Option (List Route)} (some []) (some sent) = rw other at e in
      subst (λ l. all_quiet l ≡ true) (of_some silent) refl
]

-- Where no login answers, the answers leave the database alone.
pub answers-quiet :
    (target : List ℕ) (routes : List Route)
    → login_handler target ≡ []
    → answers target ≡ some routes
    → all_quiet routes ≡ true
unfolding answers handle_request generic_handler
answers-quiet target routes unreached e =
    let (sent, e1, e2) =
      map-eq-some (λ s. s ++ (generic_handler target ++ login_handler target))
        (handle_request target) e in
    let others : all_quiet (generic_handler target ++ login_handler target) ≡ true =
      all_quiet-append (generic_handler target) (login_handler target)
        (first_match-quiet generic_table target refl) (ap all_quiet unreached) in
    subst (λ l. all_quiet l ≡ true) e2
      (all_quiet-append sent _
        (or_greeting-quiet _ target sent (first_match-quiet region_table target refl) e1) others)
