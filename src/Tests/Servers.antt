-- ===== src/Tests/Servers.antt =====
-- Runs of the game server with its connections' threads, and of a client's conversation.
use ey_ps.Prelude.{ℕ, ◌≡◌, refl, true, false, List, [], ◌∷◌, reverse, some, arith}
use ey_ps.Prelude.Int.{pos}
use ey_ps.Prelude.Exec.{ok}
use ey_ps.Prelude.Assoc.{find, assign}
use mathlib.Core.Option
use ey_ps.Packet.{BasePacket, build}
use ey_ps.Game.Kcp.{Kcp, ConnectionState, SessionState, input}
use ey_ps.Game.Queue.{Drained, drain_queue}
use ey_ps.Game.Queue.Reach
use ey_ps.Game.Queue.Reach.{Keyed, keying, accepted}
use ey_ps.Game.Queue.Progress.{Leads, Arrived, drain_queue-Leads}
use ey_ps.Game.Server.{Clients, ip_port_num}
use ey_ps.Game.Server.Life.{GameServer, deliver, started}
use ey_ps.Game.Server.Life.Reach.{Step, Reachable, Reachable-AllKeyed}
use ey_ps.Tests.Fixtures.{
  whole_ik, pair_head, some_ids-IsDistinct, some_environment, some_environment-AreSmall, home,
}

abbrev asking : List ℕ
asking =
    0 ∷ 0 ∷ 0 ∷ 255 ∷ 0 ∷ 0 ∷ 0 ∷ 1 ∷ 0 ∷ 0 ∷ 0 ∷ 2 ∷ 0 ∷ 0 ∷ 0 ∷ 3 ∷ 255 ∷ 255 ∷ 255 ∷ 255 ∷ []

-- A client that has sent its token request and its login before the first of them was handled.
greeted :
    (k : Kcp whole_ik pair_head) × (input 6 asking
        (accepted whole_ik pair_head some_environment home 5)
      ≡ some (ok (pos 0), k))
unfolding input ey_ps.Game.Kcp.accept_nonblock ey_ps.Game.Kcp.make ey_ps.Game.Kcp.initialize
greeted = (_, refl)

abbrev numbered : ℕ → BasePacket pair_head
numbered id = record (build pair_head [] 0 0 0) { packet_id = id; data_bytes = 5 ∷ [] }

abbrev queued : Kcp whole_ik pair_head
queued = record greeted.0 { packet_queue = numbered 7 ∷ numbered 112 ∷ numbered 172 ∷ [] }

queued-Reachable : Reach.Reachable whole_ik pair_head some_environment queued
unfolding greeted
queued-Reachable =
    Reach.Reachable.step
      (Reach.Reachable.step
        (Reach.Reachable.step
          (Reach.Reachable.step (Reach.Reachable.start home 5)
            (Reach.Step.on_input 6 asking _ (ok (pos 0)) greeted.0 greeted.1))
          (Reach.Step.on_push (numbered 172) _))
        (Reach.Step.on_push (numbered 112) _))
      (Reach.Step.on_push (numbered 7) _)

drain_queue-Leads_example :
    (k' : Kcp whole_ik pair_head) × (drain_queue some_environment queued ≡ Drained.emptied k')
    × Arrived SessionState.picking_character k'
unfolding greeted
drain_queue-Leads_example =
    drain_queue-Leads some_environment (λ address port datagram. refl) (λ e. cc)
      some_environment-AreSmall queued ([], []) SessionState.picking_character some_ids-IsDistinct
      queued-Reachable refl
      (Leads.token (numbered 172) _ _ refl (
        Leads.login (numbered 112) _ _ refl
          (Leads.ping (numbered 7) _ _ _ refl (λ e. cc) (Leads.done _))))

-- A server that one client has reached.
opened :
    (s : GameServer whole_ik pair_head) × (deliver some_environment home 6 asking
        (started some_environment)
      ≡ some s)
unfolding deliver ey_ps.Game.Server.parse_packet ey_ps.Game.Server.Life.is_freed find assign
    ey_ps.Game.Handshake.decode ey_ps.Game.Kcp.input ey_ps.Game.Kcp.accept_nonblock
    ey_ps.Game.Kcp.make ey_ps.Game.Kcp.initialize ey_ps.Game.Handshake.read_words
    ey_ps.Prelude.Exec.◌>>=◌ ey_ps.Wire.BufferView.read ey_ps.Wire.BufferView.read_impl
    ey_ps.Wire.Endian.decoded ey_ps.Prelude.Bytes.from_bytes ey_ps.Prelude.Bytes.to_bytes
opened = (_, refl)

opened-Reachable : Reachable whole_ik pair_head some_environment opened.0
opened-Reachable =
    Reachable.step Reachable.start
      (Step.on_datagram home 6 asking (started some_environment) _ opened.1)

known : (k : Kcp whole_ik pair_head) × (find (ip_port_num home) opened.0.clients ≡ some k)
unfolding opened find assign
known = (_, refl)

Reachable-AllKeyed_example : Keyed (keying known.0)
Reachable-AllKeyed_example =
    Reachable-AllKeyed some_environment opened.0 (ip_port_num home) known.0 opened-Reachable known.1
