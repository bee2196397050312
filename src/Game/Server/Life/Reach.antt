-- ===== src/Game/Server/Life/Reach.antt =====
-- The states that the server of game/GameServer.cpp reaches: the datagrams that come in and the turns
-- of all its connections' threads, in any order.
use ey_ps.Prelude.{
  ℕ, ◌≡◌, inl, inr, refl, sym, subst, ◌∙◌, Bool, false, List, Option, none, some, Bool-cases,
}
use ey_ps.Prelude.Assoc.{find, find-All, assign-All}
use ey_ps.Prelude.Options.{of_some, none-ne-some, map-eq-some}
use ey_ps.Packet.Head.{PacketHead}
use ey_ps.Packet.{BasePacket}
use ey_ps.Game.Ikcp.{Ikcp}
use ey_ps.Game.Kcp.{Endpoint, Kcp, background_round, is_connected}
use ey_ps.Game.Handlers.{Environment}
use ey_ps.Game.Queue.{pop_back, handle_popped}
use ey_ps.Game.Queue.Reach
use ey_ps.Game.Queue.Reach.{Keyed, keying, Reachable-Keyed}
use ey_ps.Game.Server.{ip_port_num, parse_packet}
use ey_ps.Game.Server.Growth.{Grown, AllGrown, parse_for-Grown}
use ey_ps.Game.Server.Life.{
  GameServer, is_freed, started, keep, deliver, turn_of, queue_turn_for, queue_turn, after_round,
  clock_turn_for, clock_turn,
}

module _ (ik : Ikcp) (head : PacketHead) (env : Environment) where
  pub data Step : GameServer ik head → GameServer ik head → Type 0 where
    on_datagram :
        (ep : Endpoint) (now : ℕ) (buffer : List ℕ) (s s' : GameServer ik head)
        → deliver env ep now buffer s ≡ some s'
        → Step s s'
    on_queue :
        (number : ℕ) (s s' : GameServer ik head) → queue_turn env number s ≡ some s' → Step s s'
    on_clock :
        (now current number : ℕ) (s s' : GameServer ik head)
        → clock_turn env now current number s ≡ some s'
        → Step s s'

  pub data Reachable : GameServer ik head → Type 0 where
    start : Reachable (started env)
    step : {s s' : GameServer ik head} → Reachable s → Step s s' → Reachable s'

module _ {ik : Ikcp} {head : PacketHead} (env : Environment) where
  same-Grown :
      (s s' : GameServer ik head)
      → AllGrown env s.clients
      → some s ≡ some s'
      → AllGrown env s'.clients
  same-Grown s s' h e = subst (λ (x : GameServer ik head). AllGrown env x.clients) (of_some e) h

  deliver-Grown :
      (ep : Endpoint) (now : ℕ) (buffer : List ℕ) (s s' : GameServer ik head)
      → AllGrown env s.clients
      → deliver env ep now buffer s ≡ some s'
      → AllGrown env s'.clients
  unfolding deliver parse_packet
  deliver-Grown ep now buffer s s' h e = elim (Bool-cases (is_freed (ip_port_num ep) s.freed)) [
    | inl p ↦ absurd (none-ne-some (sym (rw p) ∙ e))
    | inr p ↦
        let (clients, e1, f1) =
          map-eq-some {B = GameServer ik head} (λ c. record s { clients = c })
            (parse_packet env.dispatch_key ep now buffer s.clients) (sym (rw p) ∙ e) in
        subst (λ (x : GameServer ik head). AllGrown env x.clients) f1
          (parse_for-Grown env _ ep now buffer s.clients clients refl h e1)
  ]

  keep-Grown :
      (number : ℕ) (s s' : GameServer ik head) (o : Option (Kcp ik head))
      → AllGrown env s.clients
      → ((k : Kcp ik head) → o ≡ some k → Grown env k)
      → keep env number s o ≡ some s'
      → AllGrown env s'.clients
  keep-Grown number s s' none h g e = absurd (none-ne-some e)
  keep-Grown number s s' (some k) h g e =
      subst (λ (x : GameServer ik head). AllGrown env x.clients) (of_some e)
        (assign-All (Grown env) number k s.clients (g k refl) h)

  turn_of-Grown :
      (o : Option (BasePacket head × List (BasePacket head))) (k k' : Kcp ik head)
      → Grown env k
      → turn_of env o k ≡ some k'
      → Grown env k'
  turn_of-Grown none k k' h e = elim (Bool-cases (is_connected k.connection)) [
    | inl p ↦ subst (Grown env) (of_some (sym (rw p) ∙ e)) h
    | inr p ↦
        let shut : some (record k { packet_handler = false }) ≡ some k' = sym (rw p) ∙ e in
        subst (Grown env) (of_some shut) (Reach.Reachable.step h (Reach.Step.on_return k))
  ]
  turn_of-Grown (some (packet, rest)) k k' h e =
      let ((go, k1), e1, f1) =
        map-eq-some {A = Bool × Kcp ik head} (λ r. r.1)
          (handle_popped env packet (record k { packet_queue = rest })) e in
      subst (Grown env) f1 (Reach.Reachable.step h (Reach.Step.on_handle packet rest k k1 go e1))

  queue_turn_for-Grown :
      (number : ℕ) (c : Option (Kcp ik head)) (s s' : GameServer ik head)
      → find number s.clients ≡ c
      → AllGrown env s.clients
      → queue_turn_for env number c s ≡ some s'
      → AllGrown env s'.clients
  queue_turn_for-Grown number none s s' q h e = same-Grown s s' h e
  queue_turn_for-Grown number (some k) s s' q h e = elim (Bool-cases k.packet_handler) [
    | inr p ↦ same-Grown s s' h (sym (rw p) ∙ e)
    | inl p ↦ elim (Bool-cases (is_freed number s.freed)) [
      | inl f ↦ absurd (none-ne-some (sym (rw (p, f)) ∙ e))
      | inr f ↦
          keep-Grown number s s' (turn_of env (pop_back k.packet_queue) k) h
            (λ k' r. turn_of-Grown _ k k' (find-All (Grown env) number s.clients h q) r)
            (sym (rw (p, f)) ∙ e)
    ]
  ]

  after_round-Grown :
      (number now current : ℕ) (k : Kcp ik head) (o : Option (Option (Kcp ik head)))
      (s s' : GameServer ik head)
      → background_round now current k ≡ o
      → Grown env k
      → AllGrown env s.clients
      → after_round env number o s ≡ some s'
      → AllGrown env s'.clients
  after_round-Grown number now current k none s s' q g h e = absurd (none-ne-some e)
  after_round-Grown number now current k (some none) s s' q g h e =
      subst (λ (x : GameServer ik head). AllGrown env x.clients) (of_some e) h
  after_round-Grown number now current k (some (some k')) s s' q g h e =
      keep-Grown number s s' (some k') h
        (λ k'' r.
          subst (Grown env) (of_some r)
            (Reach.Reachable.step g (Reach.Step.on_clock now current k k' q)))
        e

  clock_turn_for-Grown :
      (now current number : ℕ) (c : Option (Kcp ik head)) (s s' : GameServer ik head)
      → find number s.clients ≡ c
      → AllGrown env s.clients
      → clock_turn_for env now current number c s ≡ some s'
      → AllGrown env s'.clients
  clock_turn_for-Grown now current number none s s' q h e = same-Grown s s' h e
  clock_turn_for-Grown now current number (some k) s s' q h e =
      elim (Bool-cases (is_freed number s.freed)) [
        | inl f ↦ same-Grown s s' h (sym (rw f) ∙ e)
        | inr f ↦ elim (Bool-cases k.background) [
          | inr p ↦ same-Grown s s' h (sym (rw (f, p)) ∙ e)
          | inl p ↦
              after_round-Grown number now current k _ s s' refl
                (find-All (Grown env) number s.clients h q) h (sym (rw (f, p)) ∙ e)
        ]
      ]

  Reachable-Grown : (s : GameServer ik head) → Reachable ik head env s → AllGrown env s.clients
  unfolding queue_turn clock_turn
  Reachable-Grown _ Reachable.start = tt
  Reachable-Grown _ (Reachable.step r (Step.on_datagram ep now buffer s s' e)) =
      deliver-Grown ep now buffer s s' (Reachable-Grown s r) e
  Reachable-Grown _ (Reachable.step r (Step.on_queue number s s' e)) =
      queue_turn_for-Grown number _ s s' refl (Reachable-Grown s r) e
  Reachable-Grown _ (Reachable.step r (Step.on_clock now current number s s' e)) =
      clock_turn_for-Grown now current number _ s s' refl (Reachable-Grown s r) e

  -- In every state that the server reaches by datagrams of any senders and turns of its connections'
  -- threads, in any order, each connection of the table agrees with its session: it waits for the
  -- token without a key, or for the login or the character with the key that the seed of the answer
  -- to the token request generates.
  pub Reachable-AllKeyed :
      (s : GameServer ik head) (number : ℕ) (k : Kcp ik head)
      → Reachable ik head env s
      → find number s.clients ≡ some k
      → Keyed (keying k)
  Reachable-AllKeyed s number k r e =
      Reachable-Keyed env k (find-All (Grown env) number s.clients (Reachable-Grown s r) e)
