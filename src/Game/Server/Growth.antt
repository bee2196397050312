-- ===== src/Game/Server/Growth.antt =====
-- What a datagram does to the connections of the table of game/GameServer.cpp, as steps of each.
use ey_ps.Prelude.{
  ◌∙◌, ℕ, ◌≡◌, refl, subst, Bool, true, false, List, [], ◌∷◌, Option, none, some, All,
}
use ey_ps.Prelude.Int.{ℤ}
use ey_ps.Prelude.Exec.{Result, ok, err}
use ey_ps.Prelude.Assoc.{find, find-All, assign-All}
use ey_ps.Prelude.Options.{of_some, none-ne-some, map-eq-some, bind-eq-some}
use ey_ps.Packet.Head.{PacketHead}
use ey_ps.Packet.{BasePacket, from_bytes}
use ey_ps.Game.Ikcp.{Ikcp}
use ey_ps.Game.Handshake.{Handshake}
use ey_ps.Game.Kcp.{Endpoint, Kcp, input, recv}
use ey_ps.Game.Handlers.{Environment}
use ey_ps.Game.Queue.Reach
use ey_ps.Game.Queue.Reach.{Keyed, keying, Reachable-Keyed}
use ey_ps.Game.Server.{
  Clients, ip_port_num, parse_for, admit, connect, receive, store, store_new, accepted, after_input,
  enqueue, push_deciphered, push_packet,
}

module _ {ik : Ikcp} {head : PacketHead} (env : Environment) where
  abbrev pub Grown : Kcp ik head → Type 0
  Grown k = Reach.Reachable ik head env k

  abbrev pub AllGrown : Clients ik head → Type 0
  AllGrown clients = All (λ p. Grown p.1) clients

  push_deciphered-Grown :
      (o : Option (List ℕ)) (k k' : Kcp ik head)
      → Grown k
      → push_deciphered env.dispatch_key o k ≡ some k'
      → Grown k'
  push_deciphered-Grown none k k' h e = absurd (none-ne-some e)
  push_deciphered-Grown (some bytes) k k' h e = go (from_bytes head bytes) (of_some e)
    where
      go : (r : Result (BasePacket head)) → push_packet env.dispatch_key r k ≡ k' → Grown k'
      go (ok packet) p = subst Grown p (Reach.Reachable.step h (Reach.Step.on_push packet k))
      go (err x) p = subst Grown p h

  enqueue-Grown :
      (bytes : List ℕ) (k k' : Kcp ik head)
      → Grown k
      → enqueue env.dispatch_key bytes k ≡ some k'
      → Grown k'
  unfolding enqueue
  enqueue-Grown [] k k' h e = subst Grown (of_some e) h
  enqueue-Grown (b ∷ bs) k k' h e = push_deciphered-Grown _ k k' h e

  after_input-Grown :
      (r : Result ℤ) (k k' : Kcp ik head)
      → Grown k
      → after_input env.dispatch_key r k ≡ some k'
      → Grown k'
  after_input-Grown (ok ret) k k' h e =
      let ((bytes, k2), e2, f2) = bind-eq-some (recv k) _ e in
      enqueue-Grown bytes k2 k' (Reach.Reachable.step h (Reach.Step.on_recv k bytes k2 e2)) f2
  after_input-Grown (err x) k k' h e = subst Grown (of_some e) h

  receive-Grown :
      (now : ℕ) (buffer : List ℕ) (k k' : Kcp ik head)
      → Grown k
      → receive env.dispatch_key now buffer k ≡ some k'
      → Grown k'
  unfolding receive
  receive-Grown now buffer k k' h e =
      let ((ret, k1), e1, f1) = bind-eq-some (input now buffer k) _ e in
      after_input-Grown ret k1 k'
        (Reach.Reachable.step h (Reach.Step.on_input now buffer k ret k1 e1)) f1

  accepted-Grown :
      (ep : Endpoint) (r : Result ℤ) (k k' : Kcp ik head)
      → Grown k
      → accepted env.dispatch_key ep (r, k) ≡ some k'
      → Grown k'
  accepted-Grown ep (ok ret) k k' h e =
      subst Grown (of_some e) (Reach.Reachable.step h (Reach.Step.on_number (ip_port_num ep) k))
  accepted-Grown ep (err x) k k' h e = absurd (none-ne-some e)

  connect-Grown :
      (ep : Endpoint) (now : ℕ) (buffer : List ℕ) (o : Option (Kcp ik head))
      → connect env.dispatch_key ep now buffer ≡ some o
      → (k : Kcp ik head) → o ≡ some k
      → Grown k
  unfolding connect
  connect-Grown ep now buffer o e k q =
      let ((ret, k1), e1, f1) =
        map-eq-some {A = Result ℤ × Kcp ik head} (accepted env.dispatch_key ep)
          (input now buffer (Reach.accepted ik head env ep now)) e in
      accepted-Grown ep ret k1 k
        (Reach.Reachable.step (Reach.Reachable.start ep now)
          (Reach.Step.on_input now buffer _ ret k1 e1))
        (f1 ∙ q)

  store_new-Grown :
      (ep : Endpoint) (o : Option (Option (Kcp ik head))) (clients clients' : Clients ik head)
      → AllGrown clients
      → ((o' : Option (Kcp ik head)) → o ≡ some o' → (k : Kcp ik head) → o' ≡ some k → Grown k)
      → store_new env.dispatch_key ep o clients ≡ some clients'
      → AllGrown clients'
  store_new-Grown ep none clients clients' h g e = absurd (none-ne-some e)
  store_new-Grown ep (some none) clients clients' h g e = subst AllGrown (of_some e) h
  store_new-Grown ep (some (some k)) clients clients' h g e =
      subst AllGrown (of_some e) (assign-All Grown (ip_port_num ep) k clients (g _ refl k refl) h)

  store-Grown :
      (number : ℕ) (o : Option (Kcp ik head)) (clients clients' : Clients ik head)
      → AllGrown clients
      → ((k : Kcp ik head) → o ≡ some k → Grown k)
      → store env.dispatch_key number o clients ≡ some clients'
      → AllGrown clients'
  store-Grown number none clients clients' h g e = absurd (none-ne-some e)
  store-Grown number (some k) clients clients' h g e =
      subst AllGrown (of_some e) (assign-All Grown number k clients (g k refl) h)

  admit-Grown :
      (r : Result (Option Bool × Handshake)) (ep : Endpoint) (now : ℕ) (buffer : List ℕ)
      (clients clients' : Clients ik head)
      → AllGrown clients
      → admit env.dispatch_key r ep now buffer clients ≡ some clients'
      → AllGrown clients'
  admit-Grown (err x) ep now buffer clients clients' h e = subst AllGrown (of_some e) h
  admit-Grown (ok (none, w)) ep now buffer clients clients' h e = absurd (none-ne-some e)
  admit-Grown (ok (some false, w)) ep now buffer clients clients' h e = subst AllGrown (of_some e) h
  admit-Grown (ok (some true, w)) ep now buffer clients clients' h e =
      store_new-Grown ep _ clients clients' h (connect-Grown ep now buffer) e

  pub parse_for-Grown :
      (c : Option (Kcp ik head)) (ep : Endpoint) (now : ℕ) (buffer : List ℕ)
      (clients clients' : Clients ik head)
      → find (ip_port_num ep) clients ≡ c
      → AllGrown clients
      → parse_for env.dispatch_key c ep now buffer clients ≡ some clients'
      → AllGrown clients'
  parse_for-Grown none ep now buffer clients clients' q h e =
      admit-Grown _ ep now buffer clients clients' h e
  parse_for-Grown (some k) ep now buffer clients clients' q h e =
      store-Grown (ip_port_num ep) _ clients clients' h
        (λ k' r. receive-Grown now buffer k k' (find-All Grown _ clients h q) r) e
