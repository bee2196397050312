-- ===== src/Game/Server/Life/Freed.antt =====
-- A connection that has deleted itself stays in g_Clients of game/GameServer.cpp for good.
use ey_ps.Prelude.{
  ℕ, ◌≡◌, ◌==◌, ==_refl, refl, sym, ap, subst, ◌∙◌, Bool, true, false, ◌||◌, List, ◌∷◌, Option,
  none, some, Bool-cases, inl, inr, if◌then◌else◌,
}
use ey_ps.Prelude.Options.{of_some, none-ne-some, map-eq-some}
use ey_ps.Packet.Head.{PacketHead}
use ey_ps.Game.Ikcp.{Ikcp}
use ey_ps.Game.Kcp.{Endpoint, Kcp, background_round}
use ey_ps.Game.Handlers.{Environment}
use ey_ps.Game.Queue.{pop_back}
use ey_ps.Game.Server.{ip_port_num, parse_packet}
use ey_ps.Game.Server.Life.{
  GameServer, is_freed, keep, deliver, turn_of, queue_turn_for, queue_turn, after_round,
  clock_turn_for, clock_turn,
}
use ey_ps.Game.Server.Life.Reach.{Step}

module _ (ik : Ikcp) (head : PacketHead) (env : Environment) where
  -- Any number of steps of the server.
  pub data Steps : GameServer ik head → GameServer ik head → Type 0 where
    here : (s : GameServer ik head) → Steps s s
    then' : {s s' s'' : GameServer ik head} → Steps s s' → Step ik head env s' s'' → Steps s s''

pub is_freed_first : (number : ℕ) (freed : List ℕ) → is_freed number (number ∷ freed) ≡ true
unfolding is_freed
is_freed_first number freed = ap (λ b. b || is_freed number freed) (==_refl number)

is_freed_more :
    (number other : ℕ) (freed : List ℕ)
    → is_freed number freed ≡ true
    → is_freed number (other ∷ freed) ≡ true
unfolding is_freed
is_freed_more number other freed h = ap (λ b. (other == number) || b) h ∙ or_true (other == number)
  where
    or_true : (b : Bool) → (b || true) ≡ true
    or_true true = refl
    or_true false = refl

module _ {ik : Ikcp} {head : PacketHead} (env : Environment) where
  pub deliver_freed :
      (ep : Endpoint) (now : ℕ) (buffer : List ℕ) (s : GameServer ik head)
      → is_freed (ip_port_num ep) s.freed ≡ true
      → deliver env ep now buffer s ≡ none
  unfolding deliver
  deliver_freed ep now buffer s h = rw h

  -- A step that leaves the numbers as they were, or adds one.
  abbrev Keeps : ℕ → GameServer ik head → Type 0
  Keeps number s = is_freed number s.freed ≡ true

  keep_freed :
      (number other : ℕ) (s s' : GameServer ik head) (o : Option (Kcp ik head))
      → Keeps number s
      → keep env other s o ≡ some s'
      → Keeps number s'
  keep_freed number other s s' none h e = absurd (none-ne-some e)
  keep_freed number other s s' (some k) h e = subst (Keeps number) (of_some e) h

  deliver-Keeps :
      (number : ℕ) (ep : Endpoint) (now : ℕ) (buffer : List ℕ) (s s' : GameServer ik head)
      → Keeps number s
      → deliver env ep now buffer s ≡ some s'
      → Keeps number s'
  unfolding deliver
  deliver-Keeps number ep now buffer s s' h e =
      elim (Bool-cases (is_freed (ip_port_num ep) s.freed)) [
        | inl p ↦ absurd (none-ne-some (sym (rw p) ∙ e))
        | inr p ↦
            let (clients, e1, f1) =
              map-eq-some {B = GameServer ik head} (λ c. record s { clients = c })
                (parse_packet env.dispatch_key ep now buffer s.clients) (sym (rw p) ∙ e) in
            subst (Keeps number) f1 h
      ]

  queue_turn-Keeps :
      (number other : ℕ) (c : Option (Kcp ik head)) (s s' : GameServer ik head)
      → Keeps number s
      → queue_turn_for env other c s ≡ some s'
      → Keeps number s'
  queue_turn-Keeps number other none s s' h e = subst (Keeps number) (of_some e) h
  queue_turn-Keeps number other (some k) s s' h e = go k.packet_handler (is_freed other s.freed) e
    where
      go :
          (b f : Bool)
          → (if b
              then (if f then none else keep env other s (turn_of env (pop_back k.packet_queue) k))
              else some s)
            ≡ some s'
          → Keeps number s'
      go true true p = absurd (none-ne-some p)
      go true false p = keep_freed number other s s' _ h p
      go false f p = subst (Keeps number) (of_some p) h

  after_round-Keeps :
      (number other : ℕ) (o : Option (Option (Kcp ik head))) (s s' : GameServer ik head)
      → Keeps number s
      → after_round env other o s ≡ some s'
      → Keeps number s'
  after_round-Keeps number other none s s' h e = absurd (none-ne-some e)
  after_round-Keeps number other (some none) s s' h e =
      subst (Keeps number) (of_some e) (is_freed_more number other s.freed h)
  after_round-Keeps number other (some (some k)) s s' h e =
      keep_freed number other s s' (some k) h e

  clock_turn-Keeps :
      (number now current other : ℕ) (c : Option (Kcp ik head)) (s s' : GameServer ik head)
      → Keeps number s
      → clock_turn_for env now current other c s ≡ some s'
      → Keeps number s'
  clock_turn-Keeps number now current other none s s' h e = subst (Keeps number) (of_some e) h
  clock_turn-Keeps number now current other (some k) s s' h e =
      go (is_freed other s.freed) k.background e
    where
      go :
          (f b : Bool)
          → (if f
              then some s
              else (if b then after_round env other (background_round now current k) s else some s))
            ≡ some s'
          → Keeps number s'
      go true b p = subst (Keeps number) (of_some p) h
      go false true p = after_round-Keeps number other _ s s' h p
      go false false p = subst (Keeps number) (of_some p) h

  -- What is freed stays freed.
  pub Steps-freed :
      (number : ℕ) (s s' : GameServer ik head)
      → Steps ik head env s s'
      → is_freed number s.freed ≡ true
      → is_freed number s'.freed ≡ true
  unfolding queue_turn clock_turn
  Steps-freed number _ _ (Steps.here s) h = h
  Steps-freed number s _ (Steps.then' {s' = s1} steps (Step.on_datagram ep now buffer _ s' e)) h =
      deliver-Keeps number ep now buffer _ s' (Steps-freed number s _ steps h) e
  Steps-freed number s _ (Steps.then' steps (Step.on_queue other _ s' e)) h =
      queue_turn-Keeps number other _ _ s' (Steps-freed number s _ steps h) e
  Steps-freed number s _ (Steps.then' steps (Step.on_clock now current other _ s' e)) h =
      clock_turn-Keeps number now current other _ _ s' (Steps-freed number s _ steps h) e
