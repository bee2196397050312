-- ===== src/Http/Session/Pending.antt =====
-- How many operations a session of http/HttpSession.h has pending.
use ey_ps.Prelude.{
  ℕ, ◌+◌, ◌≤◌, ◌≡◌, refl, ap, subst, ◌∙◌, Bool, true, false, List, [], ◌∷◌, ◌++◌, some, clash,
  Bool-cases, inl, inr, length, length-append, arith,
}
use ey_ps.Prelude.Options.{of_some, map-eq-some}
use ey_ps.Http.Routes.{Route, answers}
use ey_ps.Http.Routes.Answers.{answers-once}
use ey_ps.Http.Session.{
  Operation, ErrorCode, HttpSession, run, do_read, send, send_all, on_read, on_write, Step,
  Reachable,
}

-- At most one operation is pending, and none after the connection was closed.
pub record Single (s : HttpSession) : Type 0 where
  pub one : length s.pending ≤ 1
  pub none_closed : s.closed ≡ true → length s.pending ≡ 0

-- An open session with nothing pending.
record Idle (s : HttpSession) : Type 0 where
  idle : length s.pending ≡ 0
  open' : s.closed ≡ false

send_all-pending :
    (keep_alive : Bool) (routes : List Route) (s : HttpSession)
    → (length (send_all keep_alive routes s).pending ≡ length s.pending + length routes)
      × ((send_all keep_alive routes s).closed ≡ s.closed)
unfolding send_all
send_all-pending keep_alive [] s = (omega arith, refl)
send_all-pending keep_alive (route ∷ routes) s =
    let (len, open') = send_all-pending keep_alive routes (send keep_alive route s) in
    (omega (arith, len, length-append s.pending (Operation.writing keep_alive ∷ [])), open')

on_read-Single :
    (ec : ErrorCode) (target : List ℕ) (keep_alive : Bool) (s s' : HttpSession)
    → Idle s
    → on_read ec target keep_alive s ≡ some s'
    → Single s'
unfolding on_read
on_read-Single ErrorCode.success target keep_alive s s' i e =
    let (routes, e1, e2) = map-eq-some _ (answers target) e in
    let (len, same) = send_all-pending keep_alive routes s in
    let few = answers-once target routes e1 in
    subst Single e2 (record {
      one = omega (arith, len, few, i.idle);
      none_closed = λ c. absurd (clash c (same ∙ i.open'));
    })
on_read-Single ErrorCode.end_of_stream target keep_alive s s' i e =
    subst Single (of_some e) (record { one = omega (arith, i.idle); none_closed = λ c. i.idle })
on_read-Single ErrorCode.failure target keep_alive s s' i e =
    subst Single (of_some e) (record { one = omega (arith, i.idle); none_closed = λ c. i.idle })

on_write-Single :
    (keep_alive : Bool) (ec : ErrorCode) (s : HttpSession)
    → Idle s
    → Single (on_write keep_alive ec s)
unfolding on_write do_read
on_write-Single true ErrorCode.success s i = record {
  one = omega (arith, i.idle, length-append s.pending (Operation.reading ∷ []));
  none_closed = λ c. absurd (clash c i.open');
}
on_write-Single false ErrorCode.success s i = record {
  one = omega (arith, i.idle);
  none_closed = λ c. i.idle;
}
on_write-Single keep_alive ErrorCode.end_of_stream s i = record {
  one = omega (arith, i.idle);
  none_closed = λ c. i.idle;
}
on_write-Single keep_alive ErrorCode.failure s i = record {
  one = omega (arith, i.idle);
  none_closed = λ c. i.idle;
}

-- What is left when the one pending operation completes.
taken-Idle :
    (op : Operation) (before after : List Operation) (s : HttpSession)
    → s.pending ≡ before ++ (op ∷ after)
    → Single s
    → Idle (record s { pending = before ++ after })
taken-Idle op before after s e single =
    let whole : length s.pending ≡ length (before ++ after) + 1 =
      omega (arith, ap length e, length-append before (op ∷ after), length-append before after) in
    elim (Bool-cases s.closed) [
      | inl c ↦ (let bad : ⊥ = omega (arith, whole, single.none_closed c) in absurd bad)
      | inr c ↦ record { idle = omega (arith, whole, single.one); open' = c }
    ]

-- In every state that a session reaches, at most one read or write is pending, and none once it has
-- been closed: no two answers are written at the same time, and nothing is read after the close.
pub Reachable-Single : (s : HttpSession) → Reachable s → Single s
unfolding run
Reachable-Single _ Reachable.start = record {
  one = omega arith;
  none_closed = λ c. absurd (clash c refl);
}
Reachable-Single _
      (Reachable.step r (Step.read_done ec target keep_alive before after s s' e done)) =
    on_read-Single ec target keep_alive _ s'
      (taken-Idle Operation.reading before after s e (Reachable-Single s r)) done
Reachable-Single _ (Reachable.step r (Step.write_done ec keep_alive before after s e)) =
    on_write-Single keep_alive ec _
      (taken-Idle (Operation.writing keep_alive) before after s e (Reachable-Single s r))
