-- ===== src/Game/Queue.antt =====
-- `Kcp::PacketQueueHandler` of game/Kcp.cpp: the thread that takes packets off the queue.
pub mod Draining
pub mod Gate
pub mod Progress
pub mod Reach
use ey_ps.Prelude.{
  ℕ, zero, suc, Bool, true, false, List, [], ◌∷◌, Option, none, some, length, ◌==◌, if◌then◌else◌,
}
use mathlib.Core.Option
use ey_ps.Packet.Head.{PacketHead}
use ey_ps.Packet.{BasePacket}
use ey_ps.Game.Ikcp.{Ikcp}
use ey_ps.Game.Kcp.{Kcp, SessionState, is_connected}
use ey_ps.Game.Messages.{PacketIds}
use ey_ps.Game.Handlers.{Environment, handler_of, dispatch}

-- `==` on session states
abbrev pub same_session : SessionState → SessionState → Bool
same_session SessionState.inactive SessionState.inactive = true
same_session SessionState.waiting_for_token SessionState.waiting_for_token = true
same_session SessionState.waiting_for_login SessionState.waiting_for_login = true
same_session SessionState.picking_character SessionState.picking_character = true
same_session SessionState.active SessionState.active = true
same_session _ _ = false

-- Whether the chain of tests lets a packet with this id through to its handler.
unfoldable pub passes : PacketIds → SessionState → ℕ → Bool
passes ids session id =
    if id == ids.ping_req
    then true
    else if id == ids.get_player_token_req
    then same_session session SessionState.waiting_for_token
    else if id == ids.player_login_req
    then same_session session SessionState.waiting_for_login
    else if id == ids.set_player_born_data_req
    then same_session session SessionState.picking_character
    else same_session session SessionState.active

module _ {ℓ} {A : Type ℓ} where
  -- back() and pop_back() of a deque whose front comes first
  unfoldable pub pop_back : List A → Option (A × List A)
  pop_back [] = none
  pop_back (x ∷ []) = some (x, [])
  pop_back (x ∷ y ∷ ys) = elim (pop_back (y ∷ ys)) [
    | none ↦ none
    | some (last, rest) ↦ some (last, x ∷ rest)
  ]

  abbrev pub push_front : A → List A → List A
  push_front a q = a ∷ q

-- How a run of the inner loop ends: with an empty queue, by the thread's return, in undefined
-- behaviour, or without the fuel for another round.
pub data Drained (ik : Ikcp) (head : PacketHead) : Type 0 where
  emptied : Kcp ik head → Drained ik head
  returned : Kcp ik head → Drained ik head
  undefined : Drained ik head
  out_of_fuel : Drained ik head

module _ {ik : Ikcp} {head : PacketHead} (env : Environment) where
  -- The tests on a packet that has been popped, and its handler; `false` is the thread's return.
  unfoldable pub handle_popped : BasePacket head → Kcp ik head → Option (Bool × Kcp ik head)
  handle_popped packet k =
      if passes env.ids k.session packet.packet_id
      then Option.map (λ k'. (true, k'))
          (dispatch env (handler_of env.ids packet.packet_id) packet k)
      else some (false, record k { packet_handler = false })

  -- The loop goes on with `next`, or the thread returns.
  abbrev pub resume :
      (Kcp ik head → Drained ik head) → Option (Bool × Kcp ik head) → Drained ik head
  resume next none = undefined
  resume next (some (true, k')) = next k'
  resume next (some (false, k')) = returned k'

  abbrev pub popped :
      (Kcp ik head → Drained ik head)
      → Kcp ik head
      → Option (BasePacket head × List (BasePacket head))
      → Drained ik head
  popped next k none = emptied k
  popped next k (some (packet, rest)) =
      resume next (handle_popped packet (record k { packet_queue = rest }))

  -- while (!packet_queue.empty()) { … }, from when the loop is entered, where the receiving thread
  -- pushes no packet meanwhile. One pass of the loop, between which packets may come, is a turn of
  -- Game/Server/Life.
  unfoldable pub drain : ℕ → Kcp ik head → Drained ik head
  drain zero k = out_of_fuel
  drain (suc fuel) k = popped (drain fuel) k (pop_back k.packet_queue)

  abbrev pub drain_queue : Kcp ik head → Drained ik head
  drain_queue k = drain (suc (length k.packet_queue)) k

  -- One round of the outer loop.
  unfoldable pub queue_round : Kcp ik head → Drained ik head
  queue_round k =
      if is_connected k.connection
      then drain_queue k
      else returned (record k { packet_handler = false })
