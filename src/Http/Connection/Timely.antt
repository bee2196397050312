-- ===== src/Http/Connection/Timely.antt =====
-- An HTTP connection waits for one operation at a time, and not for ever.
use ey_ps.Prelude.{
  ℕ, ◌+◌, ◌≤◌, ◌≡◌, ◌⊎◌, inl, inr, refl, sym, ap, ◌∙◌, Bool, true, false, List, [], ◌∷◌, ◌++◌,
  length, length-append, Bool-cases, if◌then◌else◌, arith,
}
use ey_ps.Prelude.Options.{of_some}
use ey_ps.Http.Session
use ey_ps.Http.Session.{HttpSession, Operation, ErrorCode, on_read, on_write}
use ey_ps.Http.Session.Pending.{Single, Reachable-Single}
use ey_ps.Http.Connection.{
  Connection, expires_after, detect_run, on_detect, on_handshake, do_close, waiting, settled,
  write_timer, session_run, Step, Reachable,
}

-- The time at which what is pending is given up.
abbrev pub timer_of : Connection → ℕ
timer_of (Connection.detecting timer) = timer
timer_of (Connection.handshaking timer) = timer
timer_of (Connection.serving secure timer s) = timer
timer_of (Connection.shutting_down timer) = timer
timer_of Connection.ended = 0

-- A session that is served is one that a session reaches, open, with something pending.
abbrev Serves : Connection → Type 0
Serves (Connection.serving secure timer s) =
    Session.Reachable s × (s.closed ≡ false) × (1 ≤ length s.pending)
Serves _ = Unit {0}

record Sound (now : ℕ) (c : Connection) : Type 0 where
  timely : timer_of c ≤ expires_after now
  serves : Serves c

waiting-Sound :
    (secure : Bool) (now timer : ℕ) (ops : List Operation) (s : HttpSession)
    → s.pending ≡ ops
    → timer ≤ expires_after now
    → Session.Reachable s
    → s.closed ≡ false
    → Sound now (waiting secure timer ops s)
waiting-Sound secure now timer [] s e h r o = record { timely = omega arith; serves = tt }
waiting-Sound secure now timer (op ∷ ops) s e h r o = record {
  timely = h;
  serves = (r, o, omega (arith, ap length e));
}

do_close-Sound : (secure : Bool) (now : ℕ) → Sound now (do_close secure now)
do_close-Sound true now = record { timely = omega arith; serves = tt }
do_close-Sound false now = record { timely = omega arith; serves = tt }

settled-Sound :
    (secure : Bool) (now timer : ℕ) (s : HttpSession)
    → timer ≤ expires_after now
    → Session.Reachable s
    → Sound now (settled secure now timer s)
unfolding settled
settled-Sound secure now timer s h r = elim (Bool-cases s.closed) [
  | inl c ↦ simp c (do_close-Sound secure now)
  | inr o ↦ simp o (waiting-Sound secure now timer s.pending s refl h r o)
]

run-Sound : (secure : Bool) (now : ℕ) → Sound now (session_run secure now)
unfolding Session.run
run-Sound secure now = record {
  timely = omega arith;
  serves = (Session.Reachable.start, refl, omega arith);
}

on_detect-Sound : (now : ℕ) (ec : ErrorCode) (result : Bool) → Sound now (on_detect now ec result)
unfolding on_detect
on_detect-Sound now ErrorCode.success true = record { timely = omega arith; serves = tt }
on_detect-Sound now ErrorCode.success false = run-Sound false now
on_detect-Sound now ErrorCode.end_of_stream result = record { timely = omega arith; serves = tt }
on_detect-Sound now ErrorCode.failure result = record { timely = omega arith; serves = tt }

on_handshake-Sound : (now : ℕ) (ec : ErrorCode) → Sound now (on_handshake now ec)
unfolding on_handshake
on_handshake-Sound now ErrorCode.success = run-Sound true now
on_handshake-Sound now ErrorCode.end_of_stream = record { timely = omega arith; serves = tt }
on_handshake-Sound now ErrorCode.failure = record { timely = omega arith; serves = tt }

write_timer-le :
    (keep_alive : Bool) (ec : ErrorCode) (now timer : ℕ)
    → timer ≤ expires_after now
    → write_timer keep_alive ec now timer ≤ expires_after now
write_timer-le true ErrorCode.success now timer h = omega arith
write_timer-le true ErrorCode.end_of_stream now timer h = h
write_timer-le true ErrorCode.failure now timer h = h
write_timer-le false ErrorCode.success now timer h = h
write_timer-le false ErrorCode.end_of_stream now timer h = h
write_timer-le false ErrorCode.failure now timer h = h

Step-Sound :
    {now : ℕ} {ec : ErrorCode} {c c' : Connection} → Step now ec c c' → Sound now c → Sound now c'
Step-Sound {now} {ec} (Step.detected timer result) h = on_detect-Sound now ec result
Step-Sound {now} {ec} (Step.handshaken timer) h = on_handshake-Sound now ec
Step-Sound {now} {ec} (Step.read_done secure timer target keep_alive before after s s' e done) h =
    settled-Sound secure now timer s' h.timely (
      Session.Reachable.step h.serves.0
        (Session.Step.read_done ec target keep_alive before after s s' e done))
Step-Sound {now} {ec} (Step.write_done secure timer keep_alive before after s e) h =
    settled-Sound secure now _ _ (write_timer-le keep_alive ec now timer h.timely)
      (Session.Reachable.step h.serves.0 (Session.Step.write_done ec keep_alive before after s e))
Step-Sound (Step.shut_down timer) h = record { timely = omega arith; serves = tt }

Reachable-Sound : {opened now : ℕ} {c : Connection} → Reachable opened now c → Sound now c
unfolding detect_run
Reachable-Sound Reachable.start = record { timely = omega arith; serves = tt }
Reachable-Sound (Reachable.wait r later) =
    let before = Reachable-Sound r in
    record { timely = omega (arith, before.timely); serves = before.serves }
Reachable-Sound (Reachable.step ec r s) = Step-Sound s (Reachable-Sound r)

-- Of one pending operation nothing is left when it is taken out.
nothing_left :
    (op : Operation) (before after : List Operation) (s : HttpSession)
    → Single s
    → s.pending ≡ before ++ (op ∷ after)
    → before ++ after ≡ []
nothing_left op [] [] s single e = refl
nothing_left op [] (a ∷ after) s single e =
    let bad : ⊥ = omega (arith, ap length e, single.one) in absurd bad
nothing_left op (b ∷ before) after s single e =
    let bad : ⊥ = omega (arith, ap length e, length-append before (op ∷ after), single.one) in
    absurd bad

settled-ended :
    (secure : Bool) (now timer : ℕ) (s : HttpSession)
    → s.closed ≡ false
    → s.pending ≡ []
    → settled secure now timer s ≡ Connection.ended
unfolding settled
settled-ended secure now timer s o e =
    ap (λ b. if b then do_close secure now else waiting secure timer s.pending s) o
    ∙ ap (λ ops. waiting secure timer ops s) e

on_write_failed :
    (keep_alive : Bool) (s : HttpSession) → on_write keep_alive ErrorCode.failure s ≡ s
unfolding on_write
on_write_failed true s = refl
on_write_failed false s = refl

failed-ended :
    {now : ℕ} {c c' : Connection}
    → Step now ErrorCode.failure c c'
    → Sound now c
    → c' ≡ Connection.ended
unfolding on_detect on_handshake on_read
failed-ended (Step.detected timer result) h = refl
failed-ended (Step.handshaken timer) h = refl
failed-ended {now} (Step.read_done secure timer target keep_alive before after s s' e done) h =
    let left = nothing_left Operation.reading before after s (Reachable-Single s h.serves.0) e in
    ap (settled secure now timer) (sym (of_some done))
    ∙ settled-ended secure now timer (record s { pending = before ++ after }) h.serves.1 left
failed-ended {now} (Step.write_done secure timer keep_alive before after s e) h =
    let left =
      nothing_left (Operation.writing keep_alive) before after s (Reachable-Single s h.serves.0)
        e in
    ap (settled secure now _) (on_write_failed keep_alive (record s { pending = before ++ after }))
    ∙ settled-ended secure now _ (record s { pending = before ++ after }) h.serves.1 left
failed-ended (Step.shut_down timer) h = refl

serving_fails :
    (now timer : ℕ) (secure : Bool) (s : HttpSession) (ops : List Operation)
    → s.pending ≡ ops
    → 1 ≤ length ops
    → (c' : Connection) × Step now ErrorCode.failure (Connection.serving secure timer s) c'
unfolding on_read
serving_fails now timer secure s [] e h = absurd (omega arith)
serving_fails now timer secure s (Operation.reading ∷ ops) e h =
    (_, Step.read_done secure timer [] true [] ops s _ e refl)
serving_fails now timer secure s (Operation.writing keep_alive ∷ ops) e h =
    (_, Step.write_done secure timer keep_alive [] ops s e)

-- Either it is over, or something is pending that can fail.
fails :
    (now : ℕ) (c : Connection)
    → Serves c
    → (c ≡ Connection.ended) ⊎ ((c' : Connection) × Step now ErrorCode.failure c c')
fails now (Connection.detecting timer) h = inr (_, Step.detected timer true)
fails now (Connection.handshaking timer) h = inr (_, Step.handshaken timer)
fails now (Connection.serving secure timer s) h =
    inr (serving_fails now timer secure s s.pending refl h.2)
fails now (Connection.shutting_down timer) h = inr (_, Step.shut_down timer)
fails now Connection.ended h = inl refl

-- A silent peer holds no connection for ever. At any time a connection that is not over waits for an
-- operation whose timer runs out at most 30 seconds later; the operation can fail, as it does when the
-- timer runs out, and once it fails the connection is over.
pub Reachable-timely :
    (opened now : ℕ) (c : Connection)
    → Reachable opened now c
    → (c ≡ Connection.ended)
      ⊎ ((timer_of c ≤ now + 30)
          × ((c' : Connection) × Step now ErrorCode.failure c c')
          × ((c' : Connection) → Step now ErrorCode.failure c c' → c' ≡ Connection.ended))
Reachable-timely opened now c r =
    let sound = Reachable-Sound r in
    elim (fails now c sound.serves) [
      | inl over ↦ inl over
      | inr next ↦ inr (sound.timely, next, λ c' s. failed-ended s sound)
    ]
