-- ===== src/Game/Queue/Draining.antt =====
-- The inner loop of `PacketQueueHandler` takes the packets in the order of their arrival and ends.
use ey_ps.Prelude.{
  ℕ, zero, suc, ◌<◌, ◌≡◌, ◌≢◌, refl, sym, ap, ◌∙◌, inl, inr, Bool, true, false, List, [], ◌∷◌, ◌++◌,
  reverse, Option, none, some, length, length-reverse, Bool-cases, arith,
}
use ey_ps.Prelude.Options.{of_some, none-ne-some, map-eq-some}
use ey_ps.Packet.Head.{PacketHead}
use ey_ps.Packet.{BasePacket}
use ey_ps.Game.Ikcp.{Ikcp}
use ey_ps.Game.Kcp.{Kcp}
use ey_ps.Game.Handlers.{Environment, Handler, dispatch, handler_of}
use ey_ps.Game.Handlers.Sessions.{effect, dispatch-effect}
use ey_ps.Game.Queue.{pop_back, Drained, handle_popped, resume, popped, drain, drain_queue, passes}
use mathlib.Core.List.{reverse-cons, reverse-reverse}

module _ {ℓ} {A : Type ℓ} where
  pub pop_back-append : (xs : List A) (x : A) → pop_back (xs ++ (x ∷ [])) ≡ some (x, xs)
  unfolding pop_back
  pop_back-append [] x = refl
  pop_back-append (a ∷ []) x = refl
  pop_back-append (a ∷ b ∷ xs) x = rw (pop_back-append (b ∷ xs) x)

  -- The element that comes off the back is the one that was pushed first.
  pub pop_back-reverse : (x : A) (xs : List A) → pop_back (reverse (x ∷ xs)) ≡ some (x, reverse xs)
  pop_back-reverse x xs = ap pop_back (reverse-cons x xs) ∙ pop_back-append (reverse xs) x

module _ {ik : Ikcp} {head : PacketHead} (env : Environment) where
  effect-queue : (h : Handler) (k : Kcp ik head) → (effect h k).packet_queue ≡ k.packet_queue
  effect-queue Handler.ping k = refl
  effect-queue Handler.player_token k = refl
  effect-queue Handler.player_login k = refl

  pub dispatch-queue :
      (h : Option Handler) (packet : BasePacket head) (k k' : Kcp ik head)
      → dispatch env h packet k ≡ some k'
      → k'.packet_queue ≡ k.packet_queue
  unfolding dispatch
  dispatch-queue none packet k k' e = absurd (none-ne-some e)
  dispatch-queue (some h) packet k k' e =
      ap {A = Kcp ik head} (λ x. x.packet_queue) (dispatch-effect env h packet k k' e)
      ∙ effect-queue h k

  -- A packet that its handler has taken passed the gate.
  pub handle_popped-inv :
      (packet : BasePacket head) (k k' : Kcp ik head)
      → handle_popped env packet k ≡ some (true, k')
      → (passes env.ids k.session packet.packet_id ≡ true)
        × (dispatch env (handler_of env.ids packet.packet_id) packet k ≡ some k')
  unfolding handle_popped
  handle_popped-inv packet k k' e = elim (Bool-cases (passes env.ids k.session packet.packet_id)) [
    | inl p ↦
        let (k1, e1, e2) = map-eq-some (λ x. (true, x)) _ (sym (rw p) ∙ e) in
        (p, e1 ∙ ap some (ap {A = Bool × Kcp ik head} (λ r. r.1) e2))
    | inr p ↦
        let shut : some (false, record k { packet_handler = false }) ≡ some (true, k') =
          sym (rw p) ∙ e in
        absurd (ground (arith, ap {A = Bool × Kcp ik head} (λ r. r.0) (of_some shut)))
  ]

  handle_popped-queue :
      (packet : BasePacket head) (k k' : Kcp ik head)
      → handle_popped env packet k ≡ some (true, k')
      → k'.packet_queue ≡ k.packet_queue
  handle_popped-queue packet k k' e =
      dispatch-queue _ packet k k' (handle_popped-inv packet k k' e).1

  -- The specification of the loop: the packets, the oldest first, one after the other; while a packet
  -- is handled the queue holds those that came later.
  abbrev pub serve : List (BasePacket head) → Kcp ik head → Drained ik head
  serve [] k = Drained.emptied k
  serve (p ∷ ps) k =
      resume env (serve ps) (handle_popped env p (record k { packet_queue = reverse ps }))

  resume-eq :
      (f g : Kcp ik head → Drained ik head) (r : Option (Bool × Kcp ik head))
      → ((k' : Kcp ik head) → r ≡ some (true, k') → f k' ≡ g k')
      → resume env f r ≡ resume env g r
  resume-eq f g none h = refl
  resume-eq f g (some (true, k')) h = h k' refl
  resume-eq f g (some (false, k')) h = refl

  drain-serve :
      (fuel : ℕ) (ps : List (BasePacket head)) (k : Kcp ik head)
      → k.packet_queue ≡ reverse ps
      → length ps < fuel
      → drain env fuel k ≡ serve ps k
  unfolding drain pop_back
  drain-serve zero ps k q h = absurd (omega arith)
  drain-serve (suc fuel) [] k q h = ap (λ o. popped env (drain env fuel) k (pop_back o)) q
  drain-serve (suc fuel) (p ∷ ps) k q h =
      ap (popped env (drain env fuel) k) (ap pop_back q ∙ pop_back-reverse p ps)
      ∙ resume-eq (drain env fuel) (serve ps)
          (handle_popped env p (record k { packet_queue = reverse ps }))
          (λ k' e. drain-serve fuel ps k' (handle_popped-queue p _ k' e) (omega arith))

  -- The loop that pops the back of the deque serves the packets of the queue in the order in which
  -- they were pushed to its front, up to the first that the gate stops or whose handling is
  -- undefined.
  pub drain_queue-serve : (k : Kcp ik head) → drain_queue env k ≡ serve (reverse k.packet_queue) k
  drain_queue-serve k =
      drain-serve (suc (length k.packet_queue)) (reverse k.packet_queue) k
        (sym (reverse-reverse k.packet_queue)) (omega (arith, length-reverse k.packet_queue))

  resume-ends :
      (next : Kcp ik head → Drained ik head) (r : Option (Bool × Kcp ik head))
      → ((k : Kcp ik head) → next k ≢ Drained.out_of_fuel)
      → resume env next r ≢ Drained.out_of_fuel
  resume-ends next none h e = cc
  resume-ends next (some (true, k')) h e = h k' e
  resume-ends next (some (false, k')) h e = cc

  serve-ends : (ps : List (BasePacket head)) (k : Kcp ik head) → serve ps k ≢ Drained.out_of_fuel
  serve-ends [] k e = cc
  serve-ends (p ∷ ps) k e = resume-ends (serve ps) _ (serve-ends ps) e

  -- The inner loop of the queue's thread ends: the fuel that it is given, one more than the
  -- packets in the queue, is never used up.
  drain_queue_ends : (k : Kcp ik head) → drain_queue env k ≢ Drained.out_of_fuel
  drain_queue_ends k e = serve-ends _ k (sym (drain_queue-serve k) ∙ e)
