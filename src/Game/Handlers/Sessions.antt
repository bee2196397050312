-- ===== src/Game/Handlers/Sessions.antt =====
-- What the handlers of game/packet change in a connection.
use ey_ps.Prelude.{ℕ, ◌≡◌, ap, subst, Bool, true, List, Option, some}
use ey_ps.Prelude.Options.{of_some, bind-eq-some, map-eq-some}
use ey_ps.Packet.Head.{PacketHead}
use ey_ps.Packet.{BasePacket, build}
use ey_ps.Crypto.Keys.{generate_key}
use ey_ps.Game.Ikcp.{Ikcp}
use ey_ps.Game.Kcp.{Kcp, SessionState, send_packet}
use ey_ps.Game.Kcp.Sending.{SameBut, SameBut-trans, send_packet-SameBut}
use ey_ps.Game.Handlers.{Environment, Handler, send, dispatch, secret_key_seed, ◌>=>◌}

module _ {ik : Ikcp} {head : PacketHead} where
  -- What a handler leaves behind, apart from the control block and the datagrams.
  abbrev pub effect : Handler → Kcp ik head → Kcp ik head
  effect Handler.ping k = k
  effect Handler.player_token k = record k {
    use_mt = true;
    mt_key = generate_key secret_key_seed;
    session = SessionState.waiting_for_login;
  }
  effect Handler.player_login k = record k { session = SessionState.picking_character }

  abbrev Sends : (Kcp ik head → Option (Kcp ik head)) → Type 0
  Sends f = (k k' : Kcp ik head) → f k ≡ some k' → SameBut k k'

  Sends->=> : (f g : Kcp ik head → Option (Kcp ik head)) → Sends f → Sends g → Sends (f >=> g)
  Sends->=> f g hf hg k k' e =
      let (k1, e1, e2) = bind-eq-some (f k) g e in SameBut-trans k k1 k' (hf k k1 e1) (hg k1 k' e2)

module _ {ik : Ikcp} {head : PacketHead} (env : Environment) where
  send-Sends :
      (bytes : List ℕ) (id sequence : ℕ) (key : Bool)
      → Sends {ik = ik} {head = head} (send env bytes id sequence key)
  send-Sends bytes id sequence key k k' e =
      let (r, e1, e2) =
        map-eq-some (λ r. r.1)
          (send_packet env.dispatch_key (build head bytes id sequence env.now) key k) e in
      subst (λ x. SameBut k x) e2 (send_packet-SameBut _ _ key k e1)

  -- A packet that a handler has dealt with leaves the connection as `effect` says, apart from the
  -- control block and the datagrams: a ping changes nothing, a token request turns the key on and
  -- makes the session wait for the login, a login makes it wait for the character.
  pub dispatch-effect :
      (h : Handler) (packet : BasePacket head) (k k' : Kcp ik head)
      → dispatch env (some h) packet k ≡ some k'
      → SameBut (effect h k) k'
  unfolding dispatch
  dispatch-effect Handler.ping packet k k' e = send-Sends _ _ _ _ k k' e
  dispatch-effect Handler.player_token packet k k' e = send-Sends _ _ _ _ _ k' e
  dispatch-effect Handler.player_login packet k k' e =
      let (k6, e6, last) = bind-eq-some _ _ e in
      let (k5, e5, set) = bind-eq-some _ _ e6 in
      let five =
        Sends->=> _ _
          (Sends->=> _ _
            (Sends->=> _ _ (Sends->=> _ _ (send-Sends _ _ _ _) (send-Sends _ _ _ _))
              (send-Sends _ _ _ _))
            (send-Sends _ _ _ _))
          (send-Sends _ _ _ _) k k5 e5 in
      let before : SameBut (effect Handler.player_login k) k6 =
        subst (λ x. SameBut (effect Handler.player_login k) x) (of_some set)
          (ap (effect Handler.player_login) five) in
      SameBut-trans (effect Handler.player_login k) k6 k' before (send-Sends _ _ _ _ k6 k' last)
