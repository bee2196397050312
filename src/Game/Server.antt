-- ===== src/Game/Server.antt =====
-- game/GameServer.h and game/GameServer.cpp: the table of clients and what a datagram does. `none` is
-- undefined behaviour, as in `Kcp`; an exception ends the handling of a datagram, and is only logged.
pub mod Admission
pub mod Delivery
pub mod Growth
pub mod Life
use ey_ps.Prelude.{
  ℕ, ◌+◌, ◌%◌, ◌^◌, Bool, true, false, List, [], ◌∷◌, Option, none, some, if◌then◌else◌,
}
use ey_ps.Prelude.Int.{ℤ}
use ey_ps.Prelude.Exec.{Result, ok, err}
use ey_ps.Prelude.Assoc.{find, assign}
use ey_ps.Wire.BufferView
use ey_ps.Packet.Head.{PacketHead}
use ey_ps.Packet.{BasePacket, from_bytes}
use ey_ps.Crypto.Cipher.{xor}
use ey_ps.Game.Ikcp.{Ikcp}
use ey_ps.Game.Handshake
use ey_ps.Game.Handshake.{Handshake, decode}
use ey_ps.Game.Kcp.{
  Endpoint, Kcp, make, set_callback, set_context, accept_nonblock, input, recv, should_use_mt,
}
use ey_ps.Game.Queue.{push_front}
use mathlib.Core.Option

-- ip_port_num: the address and the port, added as unsigned ints.
abbrev pub ip_port_num : Endpoint → ℕ
ip_port_num ep = (ep.address + ep.port) % 2 ^ 32

-- g_Clients
abbrev pub Clients : Ikcp → PacketHead → Type 0
Clients ik head = List (ℕ × Kcp ik head)

module _ {ik : Ikcp} {head : PacketHead} (dispatch_key : List ℕ) where
  -- What was received and deciphered becomes a packet of the queue, if BasePacket does not throw.
  abbrev pub push_packet : Result (BasePacket head) → Kcp ik head → Kcp ik head
  push_packet (ok packet) client = record client {
    packet_queue = push_front packet client.packet_queue;
  }
  push_packet (err e) client = client

  abbrev pub push_deciphered : Option (List ℕ) → Kcp ik head → Option (Kcp ik head)
  push_deciphered none client = none
  push_deciphered (some bytes) client = some (push_packet (from_bytes head bytes) client)

  abbrev pub key_of : Kcp ik head → List ℕ
  key_of client = if should_use_mt client then client.mt_key else dispatch_key

  unfoldable pub enqueue : List ℕ → Kcp ik head → Option (Kcp ik head)
  enqueue [] client = some client
  enqueue (b ∷ bs) client = push_deciphered (xor (b ∷ bs) (key_of client)) client

  -- What follows Input: an exception is caught, and only logged.
  abbrev pub after_input : Result ℤ → Kcp ik head → Option (Kcp ik head)
  after_input (ok ret) client = Option.bind (recv client) λ (bytes, k2). enqueue bytes k2
  after_input (err e) client = some client

  -- ParsePacket for a client that the table holds.
  unfoldable pub receive : ℕ → List ℕ → Kcp ik head → Option (Kcp ik head)
  unfolding enqueue
  receive now buffer client =
      Option.bind (input now buffer client) λ (result, k1). after_input result k1

  abbrev pub store : ℕ → Option (Kcp ik head) → Clients ik head → Option (Clients ik head)
  store key none clients = none
  store key (some client) clients = some (assign key client clients)

  -- Where Input throws, the connection is dropped before it is stored.
  abbrev pub accepted : Endpoint → Result ℤ × Kcp ik head → Option (Kcp ik head)
  accepted ep (ok ret, client) = some (record client { ip_port_num = ip_port_num ep })
  accepted ep (err e, client) = none

  -- ParsePacket for an endpoint without a connection: the handshake that Decode has read is not used.
  unfoldable pub connect : Endpoint → ℕ → List ℕ → Option (Option (Kcp ik head))
  connect ep now buffer =
      Option.map (accepted ep)
        (input now buffer (accept_nonblock (set_context ep (set_callback (make ep now)))))

  abbrev pub store_new :
      Endpoint → Option (Option (Kcp ik head)) → Clients ik head → Option (Clients ik head)
  store_new ep none clients = none
  store_new ep (some none) clients = some clients
  store_new ep (some (some client)) clients = some (assign (ip_port_num ep) client clients)

  abbrev pub admit :
      Result (Option Bool × Handshake)
      → Endpoint
      → ℕ
      → List ℕ
      → Clients ik head
      → Option (Clients ik head)
  admit (err e) ep now buffer clients = some clients
  admit (ok (none, h)) ep now buffer clients = none
  admit (ok (some false, h)) ep now buffer clients = some clients
  admit (ok (some true, h)) ep now buffer clients = store_new ep (connect ep now buffer) clients

  abbrev pub parse_for :
      Option (Kcp ik head) → Endpoint → ℕ → List ℕ → Clients ik head → Option (Clients ik head)
  parse_for none ep now buffer clients =
      admit (decode (BufferView.make buffer) true Handshake.default) ep now buffer clients
  parse_for (some client) ep now buffer clients =
      store (ip_port_num ep) (receive now buffer client) clients

  -- ParsePacket, for a datagram from `ep` at time `now`
  unfoldable pub parse_packet : Endpoint → ℕ → List ℕ → Clients ik head → Option (Clients ik head)
  unfolding receive connect
  parse_packet ep now buffer clients =
      parse_for (find (ip_port_num ep) clients) ep now buffer clients

  -- AsyncRec: what async_receive_from brings, one after the other: a datagram with its sender and the
  -- time it comes at, or an exception (`none`), which ends the loop for good. The result says whether
  -- the loop still waits.
  unfoldable pub async_rec :
      List (Option (Endpoint × ℕ × List ℕ)) → Clients ik head → Option (Bool × Clients ik head)
  unfolding parse_packet
  async_rec [] clients = some (true, clients)
  async_rec (none ∷ rest) clients = some (false, clients)
  async_rec (some (ep, now, buffer) ∷ rest) clients =
      Option.bind (parse_packet ep now buffer clients) (async_rec rest)
