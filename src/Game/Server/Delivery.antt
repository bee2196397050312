-- ===== src/Game/Server/Delivery.antt =====
-- Datagrams for the connections that the table of game/GameServer.cpp holds.
use ey_ps.Prelude.{
  ℕ, ◌+◌, ◌%◌, ◌^◌, ◌^◌, ◌<◌, ◌≡◌, ◌≢◌, refl, sym, ap, ◌∙◌, Bool, true, false, List, [], ◌∷◌, ◌++◌,
  Option, none, some, length, All, arith,
}
use ey_ps.Prelude.Bytes.{IsByte}
use ey_ps.Prelude.Exec.{Result, ok, err}
use ey_ps.Prelude.Options.{none-ne-some, of_some}
use ey_ps.Prelude.Assoc.{find, find-assign_other}
use ey_ps.Wire.BufferView
use ey_ps.Packet.Head.{PacketHead, IsCodec}
use ey_ps.Packet.{BasePacket, build, stamped, from_bytes}
use ey_ps.Packet.Frame.{frame, build-frame, frame-IsByte, length-layout}
use ey_ps.Packet.RoundTrip.{Shows, from_bytes-build}
use ey_ps.Crypto.Cipher.{xor}
use ey_ps.Crypto.Cipher.Laws.{xor-xor}
use ey_ps.Game.Ikcp.{Ikcp}
use ey_ps.Game.Handshake.{Handshake}
use ey_ps.Game.Kcp.{Endpoint, Kcp}
use ey_ps.Game.Queue.{push_front}
use ey_ps.Game.Server.{
  Clients, ip_port_num, parse_packet, parse_for, admit, store, store_new, enqueue, key_of,
  push_deciphered, push_packet,
}
use mathlib.Core.List.{append-nil}

module _ {ik : Ikcp} {head : PacketHead} (dispatch_key : List ℕ) where
  store-other :
      (key other : ℕ) (client : Option (Kcp ik head)) (clients clients' : Clients ik head)
      → other ≢ key
      → store dispatch_key key client clients ≡ some clients'
      → find other clients' ≡ find other clients
  store-other key other none clients clients' h e = absurd (none-ne-some e)
  store-other key other (some k) clients clients' h e =
      sym (ap (find other) (of_some e)) ∙ find-assign_other key other k clients h

  store_new-other :
      (ep : Endpoint) (other : ℕ) (client : Option (Option (Kcp ik head)))
      (clients clients' : Clients ik head)
      → other ≢ ip_port_num ep
      → store_new dispatch_key ep client clients ≡ some clients'
      → find other clients' ≡ find other clients
  store_new-other ep other none clients clients' h e = absurd (none-ne-some e)
  store_new-other ep other (some none) clients clients' h e = sym (ap (find other) (of_some e))
  store_new-other ep other (some (some k)) clients clients' h e =
      sym (ap (find other) (of_some e)) ∙ find-assign_other (ip_port_num ep) other k clients h

  admit-other :
      (r : Result (Option Bool × Handshake)) (ep : Endpoint) (now other : ℕ) (buffer : List ℕ)
      (clients clients' : Clients ik head)
      → other ≢ ip_port_num ep
      → admit dispatch_key r ep now buffer clients ≡ some clients'
      → find other clients' ≡ find other clients
  admit-other (err x) ep now other buffer clients clients' h e = sym (ap (find other) (of_some e))
  admit-other (ok (none, w)) ep now other buffer clients clients' h e = absurd (none-ne-some e)
  admit-other (ok (some false, w)) ep now other buffer clients clients' h e =
      sym (ap (find other) (of_some e))
  admit-other (ok (some true, w)) ep now other buffer clients clients' h e =
      store_new-other ep other _ clients clients' h e

  parse_for-other :
      (c : Option (Kcp ik head)) (ep : Endpoint) (now other : ℕ) (buffer : List ℕ)
      (clients clients' : Clients ik head)
      → other ≢ ip_port_num ep
      → parse_for dispatch_key c ep now buffer clients ≡ some clients'
      → find other clients' ≡ find other clients
  parse_for-other none ep now other buffer clients clients' h e =
      admit-other _ ep now other buffer clients clients' h e
  parse_for-other (some k) ep now other buffer clients clients' h e =
      store-other _ other _ clients clients' h e

  -- A datagram changes no connection of the table but the one with its sender's number.
  pub parse_packet-other :
      (ep : Endpoint) (now other : ℕ) (buffer : List ℕ) (clients clients' : Clients ik head)
      → other ≢ ip_port_num ep
      → parse_packet dispatch_key ep now buffer clients ≡ some clients'
      → find other clients' ≡ find other clients
  unfolding parse_packet
  parse_packet-other ep now other buffer clients clients' h e =
      parse_for-other _ ep now other buffer clients clients' h e

  -- Two endpoints whose address and port have the same sum, modulo 2 ^ 32, are one client to the
  -- server: with a connection under that number, a datagram from either has the same effect.
  pub parse_packet-collides :
      (ep ep' : Endpoint) (now : ℕ) (buffer : List ℕ) (client : Kcp ik head)
      (clients : Clients ik head)
      → (ep.address + ep.port) % 2 ^ 32 ≡ (ep'.address + ep'.port) % 2 ^ 32
      → find (ip_port_num ep) clients ≡ some client
      → parse_packet dispatch_key ep now buffer clients
        ≡ parse_packet dispatch_key ep' now buffer clients
  unfolding parse_packet
  parse_packet-collides ep ep' now buffer client clients same held =
      let held' : find (ip_port_num ep') clients ≡ some client =
        ap (λ n. find n clients) (sym same) ∙ held in
      rw (held, held', same)

  enqueue-nonempty :
      (bytes : List ℕ) (k : Kcp ik head) (n : ℕ)
      → length bytes ≡ 1 + n
      → enqueue dispatch_key bytes k
        ≡ push_deciphered dispatch_key (xor bytes (key_of dispatch_key k)) k
  unfolding enqueue
  enqueue-nonempty [] k n h = absurd (omega arith)
  enqueue-nonempty (b ∷ bs) k n h = refl

  -- A packet that was built, with an id of 16 bits, fewer than 2 ^ 16 bytes of metadata and fewer
  -- than 2 ^ 31 bytes in all, and enciphered with the connection's key arrives as a packet with the
  -- same id, metadata and data at the front of the queue, and nothing else of the connection
  -- changes. The key is not empty, it, the metadata and the data consist of bytes, and the
  -- generated class parses what it serialized.
  pub enqueue-enciphered :
      IsCodec head
      → (bytes : List ℕ) (id sequence now : ℕ) (k : Kcp ik head) → id < 2 ^ 16
      → length (head.serialize (stamped head sequence now)) < 2 ^ 16
      → length (head.serialize (stamped head sequence now)) + length bytes + 12 < 2 ^ 31
      → All IsByte (key_of dispatch_key k)
      → key_of dispatch_key k ≢ []
      → All IsByte (head.serialize (stamped head sequence now))
      → All IsByte bytes
      → (sent : List ℕ) × (p : BasePacket head) × (xor
            (BufferView.get_data_ownership (build head bytes id sequence now).view)
            (key_of dispatch_key k)
          ≡ some sent)
        × (enqueue dispatch_key sent k
            ≡ some (record k { packet_queue = push_front p k.packet_queue }))
        × Shows p id (stamped head sequence now) bytes
  enqueue-enciphered codec bytes id sequence now k hi hm hb kb hk mb db =
      let meta = head.serialize (stamped head sequence now) in
      let packet = frame id meta bytes in
      let small : length bytes < 2 ^ 32 = omega (arith, hb) in
      let built = build-frame head bytes id sequence now hi hm small in
      let fits : length packet < 2 ^ 31 =
        omega (arith, hb, length-layout 0x4567 id meta bytes 0x89ab) in
      let (sent, e1, e2, len, outs) =
        xor-xor packet (key_of dispatch_key k) hk fits kb (frame-IsByte id meta bytes mb db) in
      let (p, parsed, shows) =
        from_bytes-build head codec bytes id sequence now [] hi hm small (omega arith) in
      let whole : from_bytes head packet ≡ ok p =
        sym (ap (from_bytes head) (ap (λ x. x ++ []) built ∙ append-nil packet)) ∙ parsed in
      (
        sent,
        p,
        ap (λ x. xor x (key_of dispatch_key k)) built ∙ e1,
        enqueue-nonempty sent k (length meta + length bytes + 11)
              (omega (arith, len, length-layout 0x4567 id meta bytes 0x89ab))
            ∙ ap (λ o. push_deciphered dispatch_key o k) e2
            ∙ ap (λ r. some (push_packet dispatch_key r k)) whole,
        shows,
      )
