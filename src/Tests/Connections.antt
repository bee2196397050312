-- ===== src/Tests/Connections.antt =====
-- Runs of one connection: its handshake, its messages, its handlers and its queue.
use ey_ps.Prelude.{
  ℕ, suc, ◌≤◌, ◌<◌, ◌≡◌, ◌≢◌, ◌⊎◌, ◌↔◌, refl, true, false, List, [], ◌∷◌, Option, none, some,
  reverse, arith,
}
use ey_ps.Prelude.Exec.{ok}
use ey_ps.Wire.BufferView
use ey_ps.Packet.{BasePacket, build}
use ey_ps.Game.Handshake
use ey_ps.Game.Handshake.{Handshake, decode, send_back1, send_back2, connect1, connect2}
use ey_ps.Game.Handshake.Accepts.{IsRequest, decode_exact}
use ey_ps.Game.Kcp.{
  Endpoint, Kcp, ConnectionState, SessionState, input, recv, recv_buf_size, new_conv, new_token,
}
use ey_ps.Game.Kcp.Receiving.{recv_exact}
use ey_ps.Game.Kcp.Sending.{SameBut}
use ey_ps.Game.Handlers.{Handler, dispatch}
use ey_ps.Game.Handlers.Sessions.{effect, dispatch-effect}
use ey_ps.Game.Queue.{passes, drain_queue}
use ey_ps.Game.Queue.Gate.{passes_exact}
use ey_ps.Game.Queue.Draining.{serve, drain_queue-serve}
use ey_ps.Tests.Fixtures.{
  whole_ik, whole_ik-RecvContract, pair_head, some_ids, some_ids-IsDistinct, some_environment,
  client,
}

abbrev token_id : ℕ
token_id = 172

abbrev asking : List ℕ
asking =
    0 ∷ 0 ∷ 0 ∷ 255 ∷ 0 ∷ 0 ∷ 0 ∷ 1 ∷ 0 ∷ 0 ∷ 0 ∷ 2 ∷ 0 ∷ 0 ∷ 0 ∷ 3 ∷ 255 ∷ 255 ∷ 255 ∷ 255 ∷ []

decode_exact_example :
    ((h' : Handshake) × (decode (BufferView.make asking) true Handshake.default
        ≡ ok (some true, h')))
    ↔ IsRequest asking
decode_exact_example = decode_exact asking Handshake.default (omega arith) (omega arith)

abbrev waiting : Kcp whole_ik pair_head
waiting = record client { kcp = some (((8 ∷ 9 ∷ []) ∷ []), []) }

recv_exact_example :
    ((recv_buf_size < 2) × (recv waiting ≡ none))
    ⊎ ((2 ≤ recv_buf_size)
        × (recv waiting ≡ some (8 ∷ 9 ∷ [], record client { kcp = some ([], []) })))
recv_exact_example = recv_exact whole_ik-RecvContract waiting ((8 ∷ 9 ∷ []) ∷ [], []) 1 refl refl

passes_exact_example : (passes some_ids SessionState.waiting_for_token token_id ≡ true) ↔ (
    (token_id ≡ 7)
    ⊎ ((token_id ≡ token_id) × (SessionState.waiting_for_token ≡ SessionState.waiting_for_token))
    ⊎ ((token_id ≡ 112) × (SessionState.waiting_for_token ≡ SessionState.waiting_for_login))
    ⊎ ((token_id ≡ 105) × (SessionState.waiting_for_token ≡ SessionState.picking_character))
    ⊎ ((token_id ≢ 7)
        × (token_id ≢ token_id)
        × (token_id ≢ 112)
        × (token_id ≢ 105)
        × (SessionState.waiting_for_token ≡ SessionState.active)))
passes_exact_example =
    passes_exact some_ids SessionState.waiting_for_token token_id some_ids-IsDistinct

abbrev token_packet : BasePacket pair_head
token_packet = record (build pair_head [] 0 0 0) { packet_id = token_id; data_bytes = 5 ∷ [] }

abbrev connected : Kcp whole_ik pair_head
connected = record client { kcp = some ([], []) }

token_handled :
    (k : Kcp whole_ik pair_head) × (dispatch some_environment
        (some Handler.player_token)
        token_packet
        connected
      ≡ some k)
unfolding dispatch ey_ps.Game.Kcp.send_packet ey_ps.Crypto.Cipher.xor build ey_ps.Packet.write_frame
    ey_ps.Prelude.Exec.◌>>=◌ BufferView.write BufferView.write_array ey_ps.Wire.Endian.written
    ey_ps.Prelude.Bytes.to_bytes client
token_handled = (_, refl)

dispatch-effect_example : SameBut (effect Handler.player_token connected) token_handled.0
dispatch-effect_example =
    dispatch-effect some_environment Handler.player_token token_packet connected token_handled.0
      token_handled.1

abbrev queued : Kcp whole_ik pair_head
queued = record connected {
  session = SessionState.waiting_for_token;
  packet_queue = record token_packet { packet_id = 1 } ∷ token_packet ∷ [];
}

drain_queue-serve_example :
    drain_queue some_environment queued
    ≡ serve some_environment (reverse queued.packet_queue) queued
drain_queue-serve_example = drain_queue-serve some_environment queued
