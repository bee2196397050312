-- ===== src/Game/Server/Life/Heard.antt =====
-- A connection of game/Kcp.cpp that has just heard of its client.
use ey_ps.Prelude.{ℕ, ◌≡◌, refl, sym, ap, subst, ◌∙◌, true, List, [], ◌∷◌, Option, none, some}
use ey_ps.Prelude.Int.{ℤ}
use ey_ps.Prelude.Exec.{Result, ok, err}
use ey_ps.Prelude.Options.{of_some, none-ne-some, bind-eq-some}
use ey_ps.Packet.Head.{PacketHead}
use ey_ps.Packet.{BasePacket, from_bytes}
use ey_ps.Game.Ikcp.{Ikcp}
use ey_ps.Game.Kcp.{Kcp, ConnectionState, input, input_in, input_connected, recv}
use ey_ps.Game.Kcp.Receiving.{recv-block}
use ey_ps.Game.Handlers.{Environment}
use ey_ps.Game.Server.{receive, after_input, enqueue, push_deciphered, push_packet}

module _ {ik : Ikcp} {head : PacketHead} where
  -- An established connection that heard of its client at time `t` for the last time.
  pub record Heard (t : ℕ) (k : Kcp ik head) : Type 0 where
    pub block : ik.Cb
    pub created : k.kcp ≡ some block
    pub established : k.connection ≡ some ConnectionState.connected
    pub runs : k.background ≡ true
    pub at : k.last_packet_time ≡ t

  input_connected-Heard :
      (now : ℕ) (buffer : List ℕ) (c : Option ik.Cb) (k : Kcp ik head) (r : Result ℤ)
      (k' : Kcp ik head)
      → k.connection ≡ some ConnectionState.connected
      → k.background ≡ true
      → input_connected c buffer (record k { last_packet_time = now }) ≡ some (r, k')
      → Heard now k'
  unfolding input_connected
  input_connected-Heard now buffer none k r k' hc hb e = absurd (none-ne-some e)
  input_connected-Heard now buffer (some cb) k r k' hc hb e =
      subst (Heard now) (ap {A = Result ℤ × Kcp ik head} (λ x. x.1) (of_some e))
        (record { block = _; created = refl; established = hc; runs = hb; at = refl })

  pub input-Heard :
      (now : ℕ) (buffer : List ℕ) (k : Kcp ik head) (r : Result ℤ) (k' : Kcp ik head)
      → k.connection ≡ some ConnectionState.connected
      → k.background ≡ true
      → input now buffer k ≡ some (r, k')
      → Heard now k'
  unfolding input input_in
  input-Heard now buffer k r k' hc hb e =
      input_connected-Heard now buffer k.kcp k r k' hc hb
        (ap (λ c. input_in c now buffer (record k { last_packet_time = now })) (sym hc) ∙ e)

  pub recv-Heard :
      (t : ℕ) (k : Kcp ik head) (bytes : List ℕ) (k' : Kcp ik head)
      → Heard t k
      → recv k ≡ some (bytes, k')
      → Heard t k'
  recv-Heard t k bytes k' h e =
      let (cb, changed) = recv-block k bytes k' e in
      subst (Heard t) (sym changed) (record {
        block = cb;
        created = refl;
        established = h.established;
        runs = h.runs;
        at = h.at;
      })

module _ {ik : Ikcp} {head : PacketHead} (env : Environment) where
  push_deciphered-Heard :
      (t : ℕ) (o : Option (List ℕ)) (k k' : Kcp ik head)
      → Heard t k
      → push_deciphered env.dispatch_key o k ≡ some k'
      → Heard t k'
  push_deciphered-Heard t none k k' h e = absurd (none-ne-some e)
  push_deciphered-Heard t (some bytes) k k' h e = go (from_bytes head bytes) (of_some e)
    where
      go : (r : Result (BasePacket head)) → push_packet env.dispatch_key r k ≡ k' → Heard t k'
      go (ok packet) p = subst (Heard t) p (record {
        block = h.block;
        created = h.created;
        established = h.established;
        runs = h.runs;
        at = h.at;
      })
      go (err x) p = subst (Heard t) p h

  pub enqueue-Heard :
      (t : ℕ) (bytes : List ℕ) (k k' : Kcp ik head)
      → Heard t k
      → enqueue env.dispatch_key bytes k ≡ some k'
      → Heard t k'
  unfolding enqueue
  enqueue-Heard t [] k k' h e = subst (Heard t) (of_some e) h
  enqueue-Heard t (b ∷ bs) k k' h e = push_deciphered-Heard t _ k k' h e

  after_input-Heard :
      (t : ℕ) (r : Result ℤ) (k k' : Kcp ik head)
      → Heard t k
      → after_input env.dispatch_key r k ≡ some k'
      → Heard t k'
  after_input-Heard t (ok ret) k k' h e =
      let ((bytes, k2), e2, f2) = bind-eq-some (recv k) _ e in
      enqueue-Heard t bytes k2 k' (recv-Heard t k bytes k2 h e2) f2
  after_input-Heard t (err x) k k' h e = subst (Heard t) (of_some e) h

  pub receive-Heard :
      (now : ℕ) (buffer : List ℕ) (k k' : Kcp ik head)
      → k.connection ≡ some ConnectionState.connected
      → k.background ≡ true
      → receive env.dispatch_key now buffer k ≡ some k'
      → Heard now k'
  unfolding receive
  receive-Heard now buffer k k' hc hb e =
      let ((ret, k1), e1, f1) = bind-eq-some (input now buffer k) _ e in
      after_input-Heard now ret k1 k' (input-Heard now buffer k ret k1 hc hb e1) f1
