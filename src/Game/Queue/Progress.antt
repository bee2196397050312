-- ===== src/Game/Queue/Progress.antt =====
-- The conversation of a client that keeps to the order of game/Kcp.cpp: the token request, the login,
-- and pings once there is a key.
use ey_ps.Prelude.{ℕ, ◌≡◌, ◌≢◌, refl, sym, ap, ◌∙◌, Bool, true, List, [], ◌∷◌, reverse, some, arith}
use ey_ps.Packet.Head.{PacketHead}
use ey_ps.Packet.{BasePacket}
use ey_ps.Crypto.Keys.Laws.{generate_key-nonempty}
use ey_ps.Game.Ikcp.{Ikcp}
use ey_ps.Game.Kcp.{Kcp, SessionState}
use ey_ps.Game.Messages.{PacketIds, IsDistinct}
use ey_ps.Game.Handlers.{Environment, Handler, handler_of, secret_key_seed}
use ey_ps.Game.Kcp.Sending.{NeverFails}
use ey_ps.Game.Handlers.Sending.{CanSend, AreSmall, dispatch_total}
use ey_ps.Game.Handlers.Sessions.{effect, dispatch-effect}
use ey_ps.Game.Queue.{passes, handle_popped, Drained, drain_queue}
use ey_ps.Game.Queue.Draining.{serve, drain_queue-serve, dispatch-queue}
use ey_ps.Game.Queue.Reach.{Keyed, keying, handle_popped-Keyed, Reachable, Reachable-Keyed}
use mathlib.Core.List.{reverse-reverse}

-- The packets, the oldest first, lead a session from one state to another.
pub data Leads {head : PacketHead} (ids : PacketIds)
    : SessionState → List (BasePacket head) → SessionState → Type 0 where
  done : (s : SessionState) → Leads ids s [] s
  ping :
      (p : BasePacket head) (ps : List (BasePacket head)) (s t : SessionState)
      → p.packet_id ≡ ids.ping_req
      → s ≢ SessionState.waiting_for_token
      → Leads ids s ps t
      → Leads ids s (p ∷ ps) t
  token :
      (p : BasePacket head) (ps : List (BasePacket head)) (t : SessionState)
      → p.packet_id ≡ ids.get_player_token_req
      → Leads ids SessionState.waiting_for_login ps t
      → Leads ids SessionState.waiting_for_token (p ∷ ps) t
  login :
      (p : BasePacket head) (ps : List (BasePacket head)) (t : SessionState)
      → p.packet_id ≡ ids.player_login_req
      → Leads ids SessionState.picking_character ps t
      → Leads ids SessionState.waiting_for_login (p ∷ ps) t

Keyed-key :
    (s : SessionState) (use_mt : Bool) (key : List ℕ)
    → Keyed (s, use_mt, key)
    → s ≢ SessionState.waiting_for_token
    → key ≢ []
Keyed-key SessionState.waiting_for_token use_mt key sound h = absurd (h refl)
Keyed-key SessionState.waiting_for_login use_mt key sound h =
    λ e. generate_key-nonempty secret_key_seed (sym sound.1 ∙ e)
Keyed-key SessionState.picking_character use_mt key sound h =
    λ e. generate_key-nonempty secret_key_seed (sym sound.1 ∙ e)
Keyed-key SessionState.inactive use_mt key sound h = absurd sound
Keyed-key SessionState.active use_mt key sound h = absurd sound

module _ (ids : PacketIds) (d : IsDistinct ids) where
  ping_passes :
      (s : SessionState) (id : ℕ)
      → id ≡ ids.ping_req
      → (passes ids s id ≡ true) × (handler_of ids id ≡ some Handler.ping)
  unfolding passes handler_of
  ping_passes s id e = (ground arith, ground arith)

  token_passes :
      (id : ℕ)
      → id ≡ ids.get_player_token_req
      → (passes ids SessionState.waiting_for_token id ≡ true)
        × (handler_of ids id ≡ some Handler.player_token)
  unfolding passes handler_of
  token_passes id e = (ground arith, ground arith)

  login_passes :
      (id : ℕ)
      → id ≡ ids.player_login_req
      → (passes ids SessionState.waiting_for_login id ≡ true)
        × (handler_of ids id ≡ some Handler.player_login)
  unfolding passes handler_of
  login_passes id e = (ground arith, ground arith)

module _ {ik : Ikcp} {head : PacketHead} where
  -- What a packet that passes leaves behind.
  record Handled (h : Handler) (k k' : Kcp ik head) : Type 0 where
    ready : CanSend k'
    session : k'.session ≡ (effect h k).session
    queue : k'.packet_queue ≡ k.packet_queue

  -- The queue is empty, and the session is where the packets lead.
  pub record Arrived (t : SessionState) (k : Kcp ik head) : Type 0 where
    pub session : k.session ≡ t
    pub queue : k.packet_queue ≡ []
    pub keyed : Keyed (keying k)

module _ {ik : Ikcp} {head : PacketHead} (env : Environment) (sends : NeverFails ik)
    (nonempty : env.dispatch_key ≢ []) (small : AreSmall env head) where
  handled :
      (h : Handler) (p : BasePacket head) (k : Kcp ik head) (cb : ik.Cb)
      → (passes env.ids k.session p.packet_id ≡ true) × (handler_of env.ids p.packet_id ≡ some h)
      → k.kcp ≡ some cb
      → (h ≢ Handler.player_token → k.mt_key ≢ [])
      → (k' : Kcp ik head) × (handle_popped env p k ≡ some (true, k')) × Handled h k k'
  unfolding handle_popped
  handled h p k cb (gate, found) hk hm =
      let (k', e, ready) = dispatch_total sends env h p k cb nonempty small hk hm in
      (
        k',
        rw (gate, found, e),
        record {
          ready = ready;
          session = ap {A = Kcp ik head} (λ x. x.session) (dispatch-effect env h p k k' e);
          queue = dispatch-queue env (some h) p k k' e;
        },
      )

  after_packet :
      (h : Handler) (p : BasePacket head) (ps : List (BasePacket head)) (k : Kcp ik head)
      (cb : ik.Cb) (t : SessionState)
      → (passes env.ids k.session p.packet_id ≡ true) × (handler_of env.ids p.packet_id ≡ some h)
      → k.kcp ≡ some cb
      → (h ≢ Handler.player_token → k.mt_key ≢ [])
      → Keyed (keying k)
      → ((k' : Kcp ik head) (cb' : ik.Cb)
          → k'.session ≡ (effect h k).session
          → k'.packet_queue ≡ reverse ps
          → k'.kcp ≡ some cb'
          → Keyed (keying k')
          → (k'' : Kcp ik head) × (serve env ps k' ≡ Drained.emptied k'') × Arrived t k'')
      → (k'' : Kcp ik head) × (serve env (p ∷ ps) k ≡ Drained.emptied k'') × Arrived t k''
  after_packet h p ps k cb t gate hk hm sound next =
      let k1 : Kcp ik head = record k { packet_queue = reverse ps } in
      let (k', e, then') = handled h p k1 cb gate hk hm in
      let (k'', served, arrived) =
        next k' then'.ready.block (then'.session ∙ effect-session h) then'.queue then'.ready.created
          (handle_popped-Keyed env p k1 k' true e sound) in
      (k'', rw e served, arrived)
    where
      effect-session :
          (g : Handler)
          → (effect g (record k { packet_queue = reverse ps })).session ≡ (effect g k).session
      effect-session Handler.ping = refl
      effect-session Handler.player_token = refl
      effect-session Handler.player_login = refl

  serve-Leads :
      (d : IsDistinct env.ids) {s t : SessionState} {ps : List (BasePacket head)}
      → Leads env.ids s ps t
      → (k : Kcp ik head) (cb : ik.Cb) → k.session ≡ s
      → k.packet_queue ≡ reverse ps
      → k.kcp ≡ some cb
      → Keyed (keying k)
      → (k' : Kcp ik head) × (serve env ps k ≡ Drained.emptied k') × Arrived t k'
  serve-Leads d (done s) k cb at queue hk sound =
      (k, refl, record { session = at; queue = queue; keyed = sound })
  serve-Leads d (ping p ps s t id later rest) k cb at queue hk sound =
      after_packet Handler.ping p ps k cb t (ping_passes env.ids d k.session p.packet_id id) hk
        (λ h. Keyed-key k.session k.use_mt k.mt_key sound (λ e. later (sym at ∙ e))) sound
        (λ k' cb' at' queue' hk' sound'. serve-Leads d rest k' cb' (at' ∙ at) queue' hk' sound')
  serve-Leads d (token p ps t id rest) k cb at queue hk sound =
      after_packet Handler.player_token p ps k cb t (rw at (token_passes env.ids d p.packet_id id))
        hk (λ h. absurd (h refl)) sound
        (λ k' cb' at' queue' hk' sound'. serve-Leads d rest k' cb' at' queue' hk' sound')
  serve-Leads d (login p ps t id rest) k cb at queue hk sound =
      after_packet Handler.player_login p ps k cb t (rw at (login_passes env.ids d p.packet_id id))
        hk
        (λ h.
          Keyed-key k.session k.use_mt k.mt_key sound
            (λ e. let bad : ⊥ = ground (arith, at, e) in bad))
        sound (λ k' cb' at' queue' hk' sound'. serve-Leads d rest k' cb' at' queue' hk' sound')

  -- A client that keeps to the order makes progress: a queue that holds, the oldest first, a token
  -- request where the session waits for it, a login where it waits for that, and pings at any time
  -- after the token request, is emptied, and the session has then come to where these packets lead,
  -- with the key that belongs there. The connection is one that an accepted client reaches, with its
  -- control block made; the dispatch key is not empty, the ids of the requests differ, every packet
  -- that a handler builds has fewer than 2 ^ 31 bytes, and the socket's send_to never throws.
  pub drain_queue-Leads :
      (k : Kcp ik head) (cb : ik.Cb) (t : SessionState)
      → IsDistinct env.ids
      → Reachable ik head env k
      → k.kcp ≡ some cb
      → Leads env.ids k.session (reverse k.packet_queue) t
      → (k' : Kcp ik head) × (drain_queue env k ≡ Drained.emptied k') × Arrived t k'
  drain_queue-Leads k cb t d reach hk leads = rw (drain_queue-serve env k) (
      serve-Leads d leads k cb refl (sym (reverse-reverse k.packet_queue)) hk
        (Reachable-Keyed env k reach))
