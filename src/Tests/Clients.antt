-- ===== src/Tests/Clients.antt =====
-- Runs of the server's table of clients.
use ey_ps.Prelude.{ℕ, ◌≡◌, refl, List, [], ◌∷◌, some, arith}
use ey_ps.Prelude.Assoc.{find}
use ey_ps.Wire.BufferView
use ey_ps.Packet.{BasePacket, build, stamped}
use ey_ps.Packet.RoundTrip.{Shows}
use ey_ps.Crypto.Cipher.{xor}
use ey_ps.Game.Kcp.{Endpoint, Kcp}
use ey_ps.Game.Queue.{push_front}
use ey_ps.Game.Server.{Clients, ip_port_num, parse_packet, enqueue, key_of}
use ey_ps.Game.Server.Delivery.{parse_packet-other, parse_packet-collides, enqueue-enciphered}
use ey_ps.Tests.Fixtures.{whole_ik, pair_head, pair_head-IsCodec, key3, home, client}

abbrev nobody : Clients whole_ik pair_head
nobody = []

abbrev noise : List ℕ
noise = 1 ∷ 2 ∷ []

-- The words of a connection request, most significant byte first.
abbrev request : List ℕ
request =
    0 ∷ 0 ∷ 0 ∷ 255 ∷ 0 ∷ 0 ∷ 0 ∷ 1 ∷ 0 ∷ 0 ∷ 0 ∷ 2 ∷ 0 ∷ 0 ∷ 0 ∷ 3 ∷ 255 ∷ 255 ∷ 255 ∷ 255 ∷ []

-- A connected client under the number of `home`, and another endpoint with the same number.
abbrev held : Kcp whole_ik pair_head
held = record client { kcp = some ([], []) }

abbrev one : Clients whole_ik pair_head
one = (ip_port_num home, held) ∷ []

abbrev neighbour : Endpoint
neighbour = record { address = 0x7F000002; port = 4999 }

parse_packet-collides_example :
    parse_packet key3 home 6 noise one ≡ parse_packet key3 neighbour 6 noise one
unfolding find
parse_packet-collides_example = parse_packet-collides key3 home neighbour 6 noise held one refl refl

abbrev stranger : Endpoint
stranger = record { address = 0x01020304; port = 80 }

ignored : parse_packet key3 stranger 6 noise one ≡ some one
unfolding parse_packet find ey_ps.Game.Handshake.decode
ignored = refl

parse_packet-other_example : find (ip_port_num home) one ≡ find (ip_port_num home) one
parse_packet-other_example =
    parse_packet-other key3 stranger 6 (ip_port_num home) noise one one (omega arith) ignored

enqueue-enciphered_example :
    (sent : List ℕ) × (p : BasePacket pair_head) × (xor
        (BufferView.get_data_ownership (build pair_head noise 7 3 9).view)
        (key_of key3 held)
      ≡ some sent)
    × (enqueue key3 sent held
        ≡ some (record held { packet_queue = push_front p held.packet_queue }))
    × Shows p 7 (stamped pair_head 3 9) noise
unfolding client
enqueue-enciphered_example =
    enqueue-enciphered key3 pair_head-IsCodec noise 7 3 9 held (omega arith) (omega arith)
      (omega arith) (omega arith) (λ e. cc) (omega arith) (omega arith)
