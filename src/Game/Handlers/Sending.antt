-- ===== src/Game/Handlers/Sending.antt =====
-- The handlers of game/packet come to their end where the connection can send.
use ey_ps.Prelude.{
  ℕ, ◌<◌, ◌^◌, length, ◌≡◌, ◌≢◌, refl, sym, ap, subst, Bool, true, false, List, [], Option, none,
  some, if◌then◌else◌,
}
use ey_ps.Prelude.Options.{none-ne-some}
use ey_ps.Prelude.Int.{ℤ}
use ey_ps.Packet.Head.{PacketHead}
use ey_ps.Packet.{BasePacket, build}
use ey_ps.Wire.BufferView
use ey_ps.Crypto.Cipher.Laws.{xor_total}
use ey_ps.Crypto.Keys.Laws.{generate_key-nonempty}
use ey_ps.Game.Ikcp.{Ikcp}
use ey_ps.Game.Kcp.{Kcp, send_over, send_bytes, send_packet, udp_output}
use ey_ps.Game.Kcp.Sending.{send_packet-SameBut, NeverFails, output_to_total}
use ey_ps.Prelude.Bytes.{codes}
use ey_ps.Game.Messages.{TokenRsp}
use ey_ps.Game.Handlers.{
  Environment, Handler, send, dispatch, ◌>=>◌, open_states_from, storage, player_store, enter_scene,
  login_response,
}
use mathlib.Core.Option

-- The packet that is built for a message has fewer than 2 ^ 31 bytes.
abbrev pub Small : PacketHead → List ℕ → ℕ → ℕ → ℕ → Type 0
Small head bytes id sequence now =
    length (BufferView.get_data_ownership (build head bytes id sequence now).view) < 2 ^ 31

-- The messages that the handlers send are that small.
pub record AreSmall (env : Environment) (head : PacketHead) : Type 0 where
  pub ping_rsp :
      (time sequence : ℕ)
      → Small head (env.messages.ping_rsp time) env.ids.ping_rsp sequence env.now
  pub token_rsp :
      (rsp : TokenRsp)
      → Small head (env.messages.token_rsp rsp) env.ids.get_player_token_rsp 0 env.now
  pub open_states :
      Small head
        (env.messages.open_state_update_notify (open_states_from 2601 1))
        env.ids.open_state_update_notify
        0
        env.now
  pub weight_limit :
      Small head
        (env.messages.store_weight_limit_notify storage)
        env.ids.store_weight_limit_notify
        0
        env.now
  pub store :
      Small head
        (env.messages.player_store_notify player_store)
        env.ids.player_store_notify
        0
        env.now
  pub avatar :
      Small head
        (env.messages.avatar_data_notify (env.messages.base64_decode (codes "") 1677))
        env.ids.avatar_data_notify
        0
        env.now
  pub scene :
      Small head
        (env.messages.player_enter_scene_notify (enter_scene env.now))
        env.ids.player_enter_scene_notify
        0
        env.now
  pub login_rsp :
      Small head (env.messages.login_rsp login_response) env.ids.get_player_token_rsp 0 env.now

module _ {ik : Ikcp} {head : PacketHead} where
  -- There is a control block, and a key of the connection's own.
  pub record CanSend (k : Kcp ik head) : Type 0 where
    pub block : ik.Cb
    pub created : k.kcp ≡ some block
    pub keyed : k.mt_key ≢ []

  abbrev Sent : Option (ℤ × Kcp ik head) → Type 0
  Sent o = (r : ℤ × Kcp ik head) × (cb : ik.Cb) × (o ≡ some r) × (r.1.kcp ≡ some cb)

  send_over_total :
      NeverFails ik
      → (c : Option ik.Cb) (buffer : List ℕ) (k : Kcp ik head) (cb : ik.Cb) → c ≡ some cb
      → Sent (send_over c buffer k)
  unfolding send_over udp_output
  send_over_total sends none buffer k cb h = absurd (none-ne-some h)
  send_over_total sends (some cb) buffer k cb' h =
      let (ret, cb1) = ik.send buffer cb in
      let (datagrams, cb2) = ik.flush cb1 in
      let (k', e, block) = output_to_total sends k.ctx datagrams (record k { kcp = some cb2 }) in
      ((ret, k'), cb2, ap (Option.map (λ k'. (ret, k'))) e, block)

  -- A packet is sent where there is a control block and the key for it is not empty.
  send_packet_total :
      NeverFails ik
      → (dispatch_key : List ℕ) (packet : BasePacket head) (use_dispatch_key : Bool)
        (k : Kcp ik head) (cb : ik.Cb)
      → k.kcp ≡ some cb
      → (if use_dispatch_key then dispatch_key else k.mt_key) ≢ []
      → length (BufferView.get_data_ownership packet.view) < 2 ^ 31
      → Sent (send_packet dispatch_key packet use_dispatch_key k)
  unfolding send_packet send_bytes
  send_packet_total sends dispatch_key packet use_dispatch_key k cb hk h small =
      let (bytes, e) = xor_total (BufferView.get_data_ownership packet.view) _ h small in
      rw e (send_over_total sends k.kcp bytes k cb hk)

module _ {ik : Ikcp} {head : PacketHead} (sends : NeverFails ik) (env : Environment) where
  -- A step of a handler that comes to its end wherever the connection can send, and leaves it so.
  abbrev Works : (Kcp ik head → Option (Kcp ik head)) → Type 0
  Works f = (k : Kcp ik head) → CanSend k → (k' : Kcp ik head) × (f k ≡ some k') × CanSend k'

  Works->=> : (f g : Kcp ik head → Option (Kcp ik head)) → Works f → Works g → Works (f >=> g)
  unfolding Option.bind
  Works->=> f g hf hg k ready =
      let (k1, e1, ready1) = hf k ready in
      let (k2, e2, ready2) = hg k1 ready1 in (k2, rw e1 e2, ready2)

  send-Works :
      (bytes : List ℕ) (id sequence : ℕ) (use_dispatch_key : Bool)
      → env.dispatch_key ≢ []
      → Small head bytes id sequence env.now
      → Works (send env bytes id sequence use_dispatch_key)
  send-Works bytes id sequence use_dispatch_key hd small k ready =
      let packet = build head bytes id sequence env.now in
      let (r, cb, e, hk) =
        send_packet_total sends env.dispatch_key packet use_dispatch_key k ready.block ready.created
          (key use_dispatch_key) small in
      (
        r.1,
        ap (Option.map (λ (x : ℤ × Kcp ik head). x.1)) e,
        record {
          block = cb;
          created = hk;
          keyed =
              subst (λ (x : List ℕ). x ≢ [])
                (sym (
                  ap {A = Kcp ik head} (λ x. x.mt_key)
                    (send_packet-SameBut env.dispatch_key packet use_dispatch_key k e)))
                ready.keyed;
        },
      )
    where
      key : (b : Bool) → (if b then env.dispatch_key else k.mt_key) ≢ []
      key true = hd
      key false = ready.keyed

  -- With a dispatch key that is not empty and messages that are small, on a socket that never fails, every handler but that of the token request comes to its
  -- end wherever the connection can send; that of the token request makes the key itself.
  pub dispatch_total :
      (h : Handler) (packet : BasePacket head) (k : Kcp ik head) (cb : ik.Cb)
      → env.dispatch_key ≢ []
      → AreSmall env head
      → k.kcp ≡ some cb
      → (h ≢ Handler.player_token → k.mt_key ≢ [])
      → (k' : Kcp ik head) × (dispatch env (some h) packet k ≡ some k') × CanSend k'
  unfolding dispatch
  dispatch_total Handler.ping packet k cb hd small hk hm =
      send-Works _ _ _ _ hd (small.ping_rsp _ _) k
        (record { block = cb; created = hk; keyed = hm (λ e. cc) })
  dispatch_total Handler.player_token packet k cb hd small hk hm =
      send-Works _ _ _ _ hd (small.token_rsp _) _
        (record { block = cb; created = hk; keyed = generate_key-nonempty _ })
  dispatch_total Handler.player_login packet k cb hd small hk hm =
      Works->=> _ _
        (Works->=> _ _
          (Works->=> _ _
            (Works->=> _ _
              (Works->=> _ _
                (Works->=> _ _ (send-Works _ _ _ _ hd small.open_states)
                  (send-Works _ _ _ _ hd small.weight_limit))
                (send-Works _ _ _ _ hd small.store))
              (send-Works _ _ _ _ hd small.avatar))
            (send-Works _ _ _ _ hd small.scene))
          (λ k1 ready. (
            _,
            refl,
            record { block = ready.block; created = ready.created; keyed = ready.keyed },
          )))
        (send-Works _ _ _ _ hd small.login_rsp) k
        (record { block = cb; created = hk; keyed = hm (λ e. cc) })
