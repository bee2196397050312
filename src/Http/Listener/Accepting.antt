-- ===== src/Http/Listener/Accepting.antt =====
-- Which connections the acceptor of http/HttpServer.cpp lets in.
use ey_ps.Prelude.{
  ℕ, ◌-◌, ◌≡◌, refl, sym, ap, ◌∙◌, Bool, true, false, not, ◌&&◌, List, [], ◌∷◌, ◌++◌, ◌==◌,
  if◌then◌else◌, arith,
}
use ey_ps.Http.Listener.{HttpServer, Errors, make, run, on_accept}
use mathlib.Core.List.{append-nil, append_assoc}

-- An async_accept completes, with or without an error, if one is pending.
unfoldable pub completed : Bool × ℕ → HttpServer → HttpServer
completed (error, socket) s =
    if s.accepting == 0
    then s
    else on_accept error socket (record s { accepting = s.accepting - 1 })

unfoldable pub completed_all : List (Bool × ℕ) → HttpServer → HttpServer
completed_all [] s = s
completed_all (c ∷ cs) s = completed_all cs (completed c s)

-- The sockets up to the first error.
abbrev pub before_error : List (Bool × ℕ) → List ℕ
before_error [] = []
before_error ((true, socket) ∷ cs) = []
before_error ((false, socket) ∷ cs) = socket ∷ before_error cs

abbrev pub no_error : List (Bool × ℕ) → Bool
no_error [] = true
no_error ((error, socket) ∷ cs) = not error && no_error cs

-- The completion of the one async_accept that is pending.
completed_pending :
    (error : Bool) (socket : ℕ) (s : HttpServer)
    → s.accepting ≡ 1
    → completed (error, socket) s ≡ on_accept error socket (record s { accepting = 0 })
unfolding completed
completed_pending error socket s h =
    ap (λ n. if n == 0 then s else on_accept error socket (record s { accepting = n - 1 })) h

stopped : (cs : List (Bool × ℕ)) (s : HttpServer) → s.accepting ≡ 0 → completed_all cs s ≡ s
unfolding completed_all completed
stopped [] s h = refl
stopped ((error, socket) ∷ cs) s h =
    ap (completed_all cs)
      (ap (λ n. if n == 0 then s else on_accept error socket (record s { accepting = n - 1 })) h)
    ∙ stopped cs s h

accepting_all :
    (cs : List (Bool × ℕ)) (s : HttpServer)
    → s.accepting ≡ 1
    → ((completed_all cs s).sessions ≡ s.sessions ++ before_error cs)
      × ((completed_all cs s).accepting ≡ (if no_error cs then 1 else 0))
unfolding completed_all on_accept
accepting_all [] s h = (sym (append-nil s.sessions), h)
accepting_all ((true, socket) ∷ cs) s h =
    let failed = on_accept true socket (record s { accepting = 0 }) in
    let ended =
      ap (completed_all cs) (completed_pending true socket s h) ∙ stopped cs failed refl in
    (
      ap {A = HttpServer} (λ x. x.sessions) ended ∙ sym (append-nil s.sessions),
      ap {A = HttpServer} (λ x. x.accepting) ended,
    )
accepting_all ((false, socket) ∷ cs) s h =
    let next = on_accept false socket (record s { accepting = 0 }) in
    let went = ap (completed_all cs) (completed_pending false socket s h) in
    let (served, left) = accepting_all cs next refl in
    (
      ap {A = HttpServer} (λ x. x.sessions) went
          ∙ served
          ∙ append_assoc s.sessions (socket ∷ []) (before_error cs),
      ap {A = HttpServer} (λ x. x.accepting) went ∙ left,
    )

made : (e : Errors) → ((make e).accepting ≡ 0) × ((make e).sessions ≡ [])
unfolding make
made e = ground arith

-- Once the server runs, however the setting up of its acceptor has ended, a session is made for
-- exactly the connections that are accepted before the first error of an accept, in their order.
-- While there has been none, one accept is pending; after the first there is none any more.
pub completed_all_exact :
    (e : Errors) (cs : List (Bool × ℕ))
    → ((completed_all cs (run (make e))).sessions ≡ before_error cs)
      × ((completed_all cs (run (make e))).accepting ≡ (if no_error cs then 1 else 0))
unfolding run
completed_all_exact e cs =
    let (served, left) = accepting_all cs (run (make e)) (omega (arith, (made e).0)) in
    (served ∙ ap (λ l. l ++ before_error cs) (made e).1, left)
