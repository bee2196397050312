-- ===== src/Game/Server/Life.antt =====
-- game/GameServer.cpp together with the two threads of each connection of game/Kcp.cpp, which run
-- beside it. `Background` deletes its connection, whose pointer stays in g_Clients. `none` is
-- undefined behaviour; what touches a connection that has been freed is.
pub mod Reach
pub mod Heard
pub mod Freed
pub mod Silence
use ey_ps.Prelude.{
  ℕ, ◌==◌, Bool, true, false, ◌||◌, List, [], ◌∷◌, Option, none, some, if◌then◌else◌,
}
use ey_ps.Prelude.Assoc.{find, assign}
use ey_ps.Packet.Head.{PacketHead}
use ey_ps.Packet.{BasePacket}
use ey_ps.Game.Ikcp.{Ikcp}
use ey_ps.Game.Kcp.{Endpoint, Kcp, is_connected, background_round}
use ey_ps.Game.Handlers.{Environment}
use ey_ps.Game.Queue.{pop_back, handle_popped}
use ey_ps.Game.Server.{Clients, ip_port_num, parse_packet}
use mathlib.Core.Option

-- The table, and the numbers in it whose connection has deleted itself.
pub record GameServer (ik : Ikcp) (head : PacketHead) : Type 0 where
  pub clients : Clients ik head
  pub freed : List ℕ

unfoldable pub is_freed : ℕ → List ℕ → Bool
is_freed number [] = false
is_freed number (n ∷ freed) = n == number || is_freed number freed

module _ {ik : Ikcp} {head : PacketHead} (env : Environment) where
  -- GameServer(io_context, ep)
  abbrev pub started : GameServer ik head
  started = record { clients = []; freed = [] }

  -- What becomes of the connection with this number.
  abbrev pub keep : ℕ → GameServer ik head → Option (Kcp ik head) → Option (GameServer ik head)
  keep number s none = none
  keep number s (some k) = some (record s { clients = assign number k s.clients })

  -- ParsePacket, for a datagram from `ep` at time `now`
  unfoldable pub deliver : Endpoint → ℕ → List ℕ → GameServer ik head → Option (GameServer ik head)
  deliver ep now buffer s =
      if is_freed (ip_port_num ep) s.freed
      then none
      else Option.map (λ clients. record s { clients = clients })
          (parse_packet env.dispatch_key ep now buffer s.clients)

  -- A packet of the queue, or the test of the outer loop where there is none.
  abbrev pub turn_of :
      Option (BasePacket head × List (BasePacket head)) → Kcp ik head → Option (Kcp ik head)
  turn_of none k =
      if is_connected k.connection then some k else some (record k { packet_handler = false })
  turn_of (some (packet, rest)) k =
      Option.map (λ r. r.1) (handle_popped env packet (record k { packet_queue = rest }))

  abbrev pub queue_turn_for :
      ℕ → Option (Kcp ik head) → GameServer ik head → Option (GameServer ik head)
  queue_turn_for number none s = some s
  queue_turn_for number (some k) s =
      if k.packet_handler
      then (if is_freed number s.freed
          then none
          else keep number s (turn_of (pop_back k.packet_queue) k))
      else some s

  -- PacketQueueHandler of the connection with this number, as far as its next packet
  unfoldable pub queue_turn : ℕ → GameServer ik head → Option (GameServer ik head)
  queue_turn number s = queue_turn_for number (find number s.clients) s

  -- `delete this`, or the next round.
  abbrev pub after_round :
      ℕ → Option (Option (Kcp ik head)) → GameServer ik head → Option (GameServer ik head)
  after_round number none s = none
  after_round number (some none) s = some (record s { freed = number ∷ s.freed })
  after_round number (some (some k)) s = keep number s (some k)

  abbrev pub clock_turn_for :
      ℕ → ℕ → ℕ → Option (Kcp ik head) → GameServer ik head → Option (GameServer ik head)
  clock_turn_for now current number none s = some s
  clock_turn_for now current number (some k) s =
      if is_freed number s.freed
      then some s
      else if k.background
      then after_round number (background_round now current k) s
      else some s

  -- A round of Background of the connection with this number, at time `now` and clock `current`
  unfoldable pub clock_turn : ℕ → ℕ → ℕ → GameServer ik head → Option (GameServer ik head)
  clock_turn now current number s = clock_turn_for now current number (find number s.clients) s
