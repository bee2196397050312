-- ===== src/Game/Queue/Reach.antt =====
-- The states that a connection of game/Kcp.cpp reaches: what its two threads, the server and the
-- client's datagrams can do, one call at a time.
use ey_ps.Prelude.{
  if◌then◌else◌, ℕ, ◌≡◌, inl, inr, refl, sym, ap, subst, ◌∙◌, Bool, true, false, List, [], Option,
  none, some, Bool-cases, ltb, ◌-◌, not, ◌||◌, arith,
}
use ey_ps.Prelude.Int.{ℤ}
use ey_ps.Prelude.Exec.{Result}
use ey_ps.Game.Handshake.{encode}
use ey_ps.Game.Kcp.{answer}
use ey_ps.Game.Kcp.Sending.{output_to_sent}
use ey_ps.Prelude.Options.{of_some, none-ne-some, map-eq-some}
use ey_ps.Packet.Head.{PacketHead}
use ey_ps.Packet.{BasePacket}
use ey_ps.Crypto.Keys.{generate_key}
use ey_ps.Game.Ikcp.{Ikcp}
use ey_ps.Game.Kcp.{
  Endpoint, Kcp, SessionState, make, accept_nonblock, set_context, set_callback, ConnectionState,
  input, input_in, input_connected, recv, background_round, update_round, initialize, answer_to,
  answer_handshake, new_conv, new_token, output_to, udp_output, is_connected,
}
use ey_ps.Game.Kcp.Receiving.{recv-block}
use ey_ps.Game.Handlers.{Environment, Handler, handler_of, dispatch, secret_key_seed}
use ey_ps.Game.Handlers.Sessions.{effect, dispatch-effect}
use ey_ps.Game.Queue.{push_front, handle_popped, passes}
use ey_ps.Game.Queue.Gate.{login_gate}
use ey_ps.Game.Queue.Draining.{handle_popped-inv}

module _ (ik : Ikcp) (head : PacketHead) (env : Environment) where
  pub data Step : Kcp ik head → Kcp ik head → Type 0 where
    -- A datagram from the client, and the packets that are read after it.
    on_input :
        (now : ℕ) (buffer : List ℕ) (k : Kcp ik head) (r : Result ℤ) (k' : Kcp ik head)
        → input now buffer k ≡ some (r, k')
        → Step k k'
    on_recv :
        (k : Kcp ik head) (bytes : List ℕ) (k' : Kcp ik head)
        → recv k ≡ some (bytes, k')
        → Step k k'
    on_push :
        (packet : BasePacket head) (k : Kcp ik head)
        → Step k (record k { packet_queue = push_front packet k.packet_queue })
    -- The thread of the queue takes the packet `packet`, and leaves `rest`.
    on_handle :
        (packet : BasePacket head) (rest : List (BasePacket head)) (k k' : Kcp ik head) (go : Bool)
        → handle_popped env packet (record k { packet_queue = rest }) ≡ some (go, k')
        → Step k k'
    -- The thread of the protocol's clock.
    on_clock :
        (now current : ℕ) (k k' : Kcp ik head)
        → background_round now current k ≡ some (some k')
        → Step k k'
    -- The server writes the number of its sender, and the thread of the queue returns.
    on_number : (number : ℕ) (k : Kcp ik head) → Step k (record k { ip_port_num = number })
    on_return : (k : Kcp ik head) → Step k (record k { packet_handler = false })

  -- A connection that the server has accepted, at time `now` from the endpoint `ep`.
  abbrev pub accepted : Endpoint → ℕ → Kcp ik head
  accepted ep now = accept_nonblock (set_context ep (set_callback (make ep now)))

  pub data Reachable : Kcp ik head → Type 0 where
    start : (ep : Endpoint) (now : ℕ) → Reachable (accepted ep now)
    step : {k k' : Kcp ik head} → Reachable k → Step k k' → Reachable k'

-- The session has begun and its key agrees with it: before the token request there is no key, and
-- after it the one that the client makes from the seed it is sent.
abbrev pub Keyed : SessionState × Bool × List ℕ → Type 0
Keyed (SessionState.waiting_for_token, use_mt, key) = (use_mt ≡ false) × (key ≡ [])
Keyed (SessionState.waiting_for_login, use_mt, key) =
    (use_mt ≡ true) × (key ≡ generate_key secret_key_seed)
Keyed (SessionState.picking_character, use_mt, key) =
    (use_mt ≡ true) × (key ≡ generate_key secret_key_seed)
Keyed (SessionState.inactive, use_mt, key) = ⊥
Keyed (SessionState.active, use_mt, key) = ⊥

module _ {ik : Ikcp} {head : PacketHead} where
  abbrev pub keying : Kcp ik head → SessionState × Bool × List ℕ
  keying k = (k.session, k.use_mt, k.mt_key)

  output_to-keying :
      (c : Option Endpoint) (ds : List (List ℕ)) (k k' : Kcp ik head)
      → output_to c ds k ≡ some k'
      → keying k' ≡ keying k
  output_to-keying c ds k k' e =
      let (sent, changed) = output_to_sent c ds k k' e in sym (ap {A = Kcp ik head} keying changed)

  either-keying :
      (b : Bool) (x y : Result ℤ × Kcp ik head) {r : Result ℤ} {k' : Kcp ik head}
      {a : SessionState × Bool × List ℕ}
      → (if b then some x else some y) ≡ some (r, k')
      → keying x.1 ≡ a
      → keying y.1 ≡ a
      → keying k' ≡ a
  either-keying true x y e h g =
      sym (ap {A = Result ℤ × Kcp ik head} (λ z. keying z.1) (of_some e)) ∙ h
  either-keying false x y e h g =
      sym (ap {A = Result ℤ × Kcp ik head} (λ z. keying z.1) (of_some e)) ∙ g

  answer_handshake-keying :
      (now : ℕ) (k : Kcp ik head) (r : Result ℤ) (k' : Kcp ik head)
      → answer_handshake now k ≡ some (r, k')
      → keying k' ≡ keying k
  unfolding answer_handshake initialize
  answer_handshake-keying now k r k' e = go k.ctx e
    where
      go :
          (c : Option Endpoint)
          → answer_to c now (record k { conv = new_conv now; token = new_token now }) ≡ some (r, k')
          → keying k' ≡ keying k
      go none p = absurd (none-ne-some p)
      go (some ep) p =
          either-keying (ik.sends ep.address ep.port (encode (answer now)).0) _ _ p refl refl

  input-keying :
      (c : Option ConnectionState) (now : ℕ) (buffer : List ℕ) (k : Kcp ik head) (r : Result ℤ)
      (k' : Kcp ik head)
      → input_in c now buffer k ≡ some (r, k')
      → keying k' ≡ keying k
  unfolding input_in input_connected
  input-keying none now buffer k r k' e = absurd (none-ne-some e)
  input-keying (some ConnectionState.closed) now buffer k r k' e =
      sym (ap {A = Result ℤ × Kcp ik head} (λ x. keying x.1) (of_some e))
  input-keying (some ConnectionState.disconnected) now buffer k r k' e =
      sym (ap {A = Result ℤ × Kcp ik head} (λ x. keying x.1) (of_some e))
  input-keying (some ConnectionState.handshake_connect) now buffer k r k' e =
      sym (ap {A = Result ℤ × Kcp ik head} (λ x. keying x.1) (of_some e))
  input-keying (some ConnectionState.handshake_wait) now buffer k r k' e =
      answer_handshake-keying now k r k' e
  input-keying (some ConnectionState.connected) now buffer k r k' e = go k.kcp e
    where
      go : (c : Option ik.Cb) → input_connected c buffer k ≡ some (r, k') → keying k' ≡ keying k
      go none p = absurd (none-ne-some p)
      go (some cb) p = sym (ap {A = Result ℤ × Kcp ik head} (λ x. keying x.1) (of_some p))

  recv-keying :
      (k : Kcp ik head) (bytes : List ℕ) (k' : Kcp ik head)
      → recv k ≡ some (bytes, k')
      → keying k' ≡ keying k
  recv-keying k bytes k' e =
      let (cb, changed) = recv-block k bytes k' e in ap {A = Kcp ik head} keying changed

  update_round-keying :
      (c : Option ik.Cb) (current : ℕ) (k k' : Kcp ik head)
      → update_round c current k ≡ some k'
      → keying k' ≡ keying k
  unfolding update_round udp_output
  update_round-keying none current k k' e = absurd (none-ne-some e)
  update_round-keying (some cb) current k k' e = output_to-keying k.ctx _ _ k' e

  background_round-keying :
      (now current : ℕ) (k k' : Kcp ik head)
      → background_round now current k ≡ some (some k')
      → keying k' ≡ keying k
  unfolding background_round
  background_round-keying now current k k' e =
      elim (Bool-cases (not (is_connected k.connection) || ltb 20 (now - k.last_packet_time))) [
        | inl p ↦ absurd (none-ne-some (of_some (sym (rw p) ∙ e)))
        | inr p ↦
            let (k1, e1, e2) = map-eq-some some _ (sym (rw p) ∙ e) in
            update_round-keying k.kcp current k k' (e1 ∙ e2)
      ]

module _ {ik : Ikcp} {head : PacketHead} (env : Environment) where
  effect-Keyed :
      (h : Handler) (k : Kcp ik head)
      → (h ≡ Handler.player_login → k.session ≡ SessionState.waiting_for_login)
      → Keyed (keying k)
      → Keyed (keying (effect h k))
  effect-Keyed Handler.ping k gate sound = sound
  effect-Keyed Handler.player_token k gate sound = (refl, refl)
  effect-Keyed Handler.player_login k gate sound =
      subst (λ s. Keyed (s, k.use_mt, k.mt_key)) (gate refl) sound

  handled-Keyed :
      (h : Option Handler) (packet : BasePacket head) (k k' : Kcp ik head)
      → dispatch env h packet k ≡ some k'
      → (h ≡ some Handler.player_login → k.session ≡ SessionState.waiting_for_login)
      → Keyed (keying k)
      → Keyed (keying k')
  unfolding dispatch
  handled-Keyed none packet k k' e gate sound = absurd (none-ne-some e)
  handled-Keyed (some h) packet k k' e gate sound =
      subst Keyed (sym (ap {A = Kcp ik head} keying (dispatch-effect env h packet k k' e)))
        (effect-Keyed h k (λ p. gate (ap some p)) sound)

  pub handle_popped-Keyed :
      (packet : BasePacket head) (k k' : Kcp ik head) (go : Bool)
      → handle_popped env packet k ≡ some (go, k')
      → Keyed (keying k)
      → Keyed (keying k')
  unfolding handle_popped
  handle_popped-Keyed packet k k' true e sound =
      let (p, d) = handle_popped-inv env packet k k' e in
      handled-Keyed _ packet k k' d (λ h. login_gate env.ids k.session packet.packet_id h p) sound
  handle_popped-Keyed packet k k' false e sound =
      elim (Bool-cases (passes env.ids k.session packet.packet_id)) [
        | inl p ↦
            let (k1, e1, e2) =
              map-eq-some {B = Bool × Kcp ik head} (λ x. (true, x))
                (dispatch env (handler_of env.ids packet.packet_id) packet k) (sym (rw p) ∙ e) in
            absurd (ground (arith, ap {A = Bool × Kcp ik head} (λ r. r.0) e2))
        | inr p ↦
            let shut : some (false, record k { packet_handler = false }) ≡ some (false, k') =
              sym (rw p) ∙ e in
            subst Keyed (ap {A = Bool × Kcp ik head} (λ r. keying r.1) (of_some shut)) sound
      ]

  Step-Keyed : (k k' : Kcp ik head) → Step ik head env k k' → Keyed (keying k) → Keyed (keying k')
  unfolding input
  Step-Keyed _ _ (Step.on_input now buffer k r k' e) s =
      subst Keyed (sym (input-keying _ now buffer _ r k' e)) s
  Step-Keyed _ _ (Step.on_recv k bytes k' e) s = subst Keyed (sym (recv-keying k bytes k' e)) s
  Step-Keyed _ _ (Step.on_push packet k) s = s
  Step-Keyed _ _ (Step.on_handle packet rest k k' go e) s = handle_popped-Keyed packet _ k' go e s
  Step-Keyed _ _ (Step.on_clock now current k k' e) s =
      subst Keyed (sym (background_round-keying now current k k' e)) s
  Step-Keyed _ _ (Step.on_number number k) s = s
  Step-Keyed _ _ (Step.on_return k) s = s

  -- In every state that an accepted connection reaches by datagrams, packets and the rounds of its
  -- two threads, its session waits for the token, the login or the character, never being inactive
  -- or active; while it waits for the token it has no key, and afterwards its key is the one that
  -- the seed in the answer to the token request generates.
  pub Reachable-Keyed : (k : Kcp ik head) → Reachable ik head env k → Keyed (keying k)
  unfolding accept_nonblock make
  Reachable-Keyed _ (Reachable.start ep now) = (refl, refl)
  Reachable-Keyed _ (Reachable.step r s) = Step-Keyed _ _ s (Reachable-Keyed _ r)
