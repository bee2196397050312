-- ===== src/Game/Server/Admission.antt =====
-- Datagrams from endpoints without a connection in game/GameServer.cpp.
use ey_ps.Prelude.{
  ℕ, ◌/◌, ◌%◌, ◌^◌, bit_xor, ◌≡◌, ◌⊎◌, Bool, true, false, List, [], ◌∷◌, Option, some,
}
use ey_ps.Prelude.Assoc.{assign}
use ey_ps.Wire.DynamicBuffer.Contents
use ey_ps.Wire.BufferView
use ey_ps.Wire.BufferView.{BufferView}
use ey_ps.Packet.Head.{PacketHead}
use ey_ps.Game.Ikcp.{Ikcp}
use ey_ps.Game.Handshake
use ey_ps.Game.Handshake.{Handshake, send_back1, send_back2}
use ey_ps.Game.Handshake.Laws.{wire}
use ey_ps.Game.Kcp.{Endpoint, Kcp, ConnectionState, SessionState}
use ey_ps.Game.Server.{Clients, ip_port_num, parse_packet}
use mathlib.Core.Option

-- A connection that has just answered a request from `ep`.
pub record Answered {ik : Ikcp} {head : PacketHead} (ep : Endpoint) (now : ℕ) (k : Kcp ik head)
    : Type 0 where
  pub answer_sent :
      k.sent
      ≡ (
        ep,
        wire send_back1
            (now % 2 ^ 32)
            (bit_xor 0xFFCCEEBB (now / 2 ^ 32 % 2 ^ 32))
            1234567890
            send_back2,
      )
        ∷ []
  pub established : k.connection ≡ some ConnectionState.connected
  pub awaits_token : k.session ≡ SessionState.waiting_for_token
  pub nothing_queued : k.packet_queue ≡ []
  pub numbered : k.ip_port_num ≡ ip_port_num ep

module _ {ik : Ikcp} {head : PacketHead} (dispatch_key : List ℕ) (ep : Endpoint) (now : ℕ)
    (buffer : List ℕ) (clients : Clients ik head) where
  -- The socket takes the answer to a request.
  abbrev pub Takes : Bool → Type 0
  Takes b =
      ik.sends ep.address ep.port (
        wire send_back1 (now % 2 ^ 32) (bit_xor 0xFFCCEEBB (now / 2 ^ 32 % 2 ^ 32)) 1234567890
          send_back2)
      ≡ b

  abbrev Opened : Type 0
  Opened =
      (Takes true
        × ((k : Kcp ik head) × (parse_packet dispatch_key ep now buffer clients
              ≡ some (assign (ip_port_num ep) k clients))
            × Answered ep now k))
      ⊎ (Takes false × (parse_packet dispatch_key ep now buffer clients ≡ some clients))

  abbrev Ignored : Type 0
  Ignored = parse_packet dispatch_key ep now buffer clients ≡ some clients
