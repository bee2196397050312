-- ===== src/Game/Kcp.antt =====
-- `Kcp` of game/Kcp.h and game/Kcp.cpp: one client's connection. `none` as the result of a method
-- is undefined behaviour: a null pointer that is followed, a division by zero, a buffer overrun.
pub mod Connecting
pub mod Receiving
pub mod Sending
use ey_ps.Prelude.{
  ℕ, ◌+◌, ◌-◌, ◌/◌, ◌%◌, ◌^◌, Bool, true, false, not, ◌||◌, ◌&&◌, List, [], ◌∷◌, ◌++◌, map, Option,
  none, some, length, take, ltb, if◌then◌else◌, bit_xor,
}
use ey_ps.Prelude.Int.{ℤ, pos, is_positive, is_size, magnitude}
use ey_ps.Prelude.Exec.{Result, ok, err, send_failed}
use ey_ps.Wire.BufferView
use ey_ps.Crypto.Cipher.{xor}
use ey_ps.Crypto.Keys.{generate_key}
use ey_ps.Packet.Head.{PacketHead}
use ey_ps.Packet.{BasePacket}
use ey_ps.Game.Handshake
use ey_ps.Game.Handshake.{encode, send_back1, send_back2}
use ey_ps.Game.Ikcp.{Ikcp}
use mathlib.Core.Option

-- A UDP endpoint: an IPv4 address and a port.
pub record Endpoint : Type 0 where
  pub address : ℕ
  pub port : ℕ

-- connectionState
pub data ConnectionState : Type 0 where
  closed disconnected handshake_connect handshake_wait connected : ConnectionState

-- SessionState
pub data SessionState : Type 0 where
  inactive waiting_for_token waiting_for_login picking_character active : SessionState

-- The conversation number and the token that are chosen at time `now`.
abbrev pub new_conv : ℕ → ℕ
new_conv now = now % 2 ^ 32

abbrev pub new_token : ℕ → ℕ
new_token now = bit_xor 0xFFCCEEBB (now / 2 ^ 32 % 2 ^ 32)

abbrev pub answer : ℕ → Handshake.Handshake
answer now = record Handshake.default {
  magic1 = send_back1;
  magic2 = send_back2;
  conv = new_conv now;
  token = new_token now;
}

-- The size of `_recvBuf`.
abbrev pub recv_buf_size : ℕ
recv_buf_size = 65534

-- _State == CONNECTED
abbrev pub is_connected : Option ConnectionState → Bool
is_connected (some ConnectionState.connected) = true
is_connected _ = false

-- Whether send_to returns for each of the datagrams.
unfoldable pub all_sent : Ikcp → Endpoint → List (List ℕ) → Bool
all_sent ik ep [] = true
all_sent ik ep (d ∷ datagrams) = ik.sends ep.address ep.port d && all_sent ik ep datagrams

module _ (ik : Ikcp) (head : PacketHead) where
  pub record Kcp : Type 0 where
    pub endpoint : Endpoint
    -- `_ctx`, as far as the connection uses it; the socket is the server's one.
    pub ctx : Option Endpoint
    pub conv : ℕ
    pub token : ℕ
    pub last_packet_time : ℕ
    pub start_time : ℕ
    -- `_State` is not initialised by the constructor: `none`.
    pub connection : Option ConnectionState
    pub session : SessionState
    pub kcp : Option ik.Cb
    pub callback : Bool
    pub use_mt : Bool
    pub mt_key : List ℕ
    -- The front of the deque comes first.
    pub packet_queue : List (BasePacket head)
    pub ip_port_num : ℕ
    -- The two detached threads run.
    pub background : Bool
    pub packet_handler : Bool
    -- The datagrams that have gone out through the socket, the oldest first.
    pub sent : List (Endpoint × List ℕ)

module _ {ik : Ikcp} {head : PacketHead} where
  -- Kcp(ep), at time `now`
  unfoldable pub make : Endpoint → ℕ → Kcp ik head
  make ep now = record {
    endpoint = ep;
    ctx = none;
    conv = 0;
    token = 0;
    last_packet_time = 0;
    start_time = now;
    connection = none;
    session = SessionState.waiting_for_token;
    kcp = none;
    callback = false;
    use_mt = false;
    mt_key = [];
    packet_queue = [];
    ip_port_num = 0;
    background = false;
    packet_handler = false;
    sent = [];
  }

  abbrev pub set_callback : Kcp ik head → Kcp ik head
  set_callback k = record k { callback = true }

  abbrev pub set_context : Endpoint → Kcp ik head → Kcp ik head
  set_context ep k = record k { ctx = some ep }

  unfoldable pub accept_nonblock : Kcp ik head → Kcp ik head
  accept_nonblock k = record k {
    connection = some ConnectionState.handshake_wait;
    session = SessionState.waiting_for_token;
  }

  -- udp_output of game/GameServer.cpp, for each datagram that the library hands over. Its callers
  -- catch no exception, so that one of send_to ends the program: `none`.
  unfoldable pub output_to : Option Endpoint → List (List ℕ) → Kcp ik head → Option (Kcp ik head)
  output_to none datagrams k = some k
  output_to (some ep) datagrams k =
      if all_sent ik ep datagrams
      then some (record k { sent = k.sent ++ map (λ d. (ep, d)) datagrams })
      else none

  unfoldable pub udp_output : List (List ℕ) → Kcp ik head → Option (Kcp ik head)
  unfolding output_to
  udp_output datagrams k = output_to k.ctx datagrams k

  -- Initialize; the two threads are started here.
  unfoldable pub initialize : Kcp ik head → Kcp ik head
  initialize k = record k {
    kcp =
        some (ik.setoutput (ik.wndsize 4096 4096 (ik.nodelay 1 10 2 1 (ik.create k.conv k.token))));
    connection = some ConnectionState.connected;
    background = true;
    packet_handler = true;
  }

  -- The case HANDSHAKE_WAIT of Input: `_ctx` is followed without a test, and where send_to throws,
  -- what comes after it is not done.
  abbrev pub answer_to : Option Endpoint → ℕ → Kcp ik head → Option (Result ℤ × Kcp ik head)
  answer_to none now k = none
  answer_to (some ep) now k =
      let bytes = (encode (answer now)).0 in
      if ik.sends ep.address ep.port bytes
      then some (ok (pos 0), initialize (record k { sent = k.sent ++ ((ep, bytes) ∷ []) }))
      else some (err send_failed, k)

  unfoldable pub answer_handshake : ℕ → Kcp ik head → Option (Result ℤ × Kcp ik head)
  answer_handshake now k =
      answer_to k.ctx now (record k { conv = new_conv now; token = new_token now })

  -- The case CONNECTED of Input.
  unfoldable pub input_connected :
      Option ik.Cb → List ℕ → Kcp ik head → Option (Result ℤ × Kcp ik head)
  input_connected none buffer k = none
  input_connected (some cb) buffer k =
      some (ok (ik.input buffer cb).0, record k { kcp = some (ik.input buffer cb).1 })

  unfoldable pub input_in :
      Option ConnectionState → ℕ → List ℕ → Kcp ik head → Option (Result ℤ × Kcp ik head)
  unfolding answer_handshake input_connected
  input_in none now buffer k = none
  input_in (some ConnectionState.closed) now buffer k = some (ok (pos 0), k)
  input_in (some ConnectionState.disconnected) now buffer k = some (ok (pos 0), k)
  input_in (some ConnectionState.handshake_connect) now buffer k = some (ok (pos 0), k)
  input_in (some ConnectionState.handshake_wait) now buffer k = answer_handshake now k
  input_in (some ConnectionState.connected) now buffer k = input_connected k.kcp buffer k

  -- Input, at time `now`; the status, or the exception beside what was changed before it.
  unfoldable pub input : ℕ → List ℕ → Kcp ik head → Option (Result ℤ × Kcp ik head)
  unfolding input_in
  input now buffer k = input_in k.connection now buffer (record k { last_packet_time = now })

  -- ikcp_recv into `_recvBuf`, and what Recv makes of the result: more bytes than the buffer holds
  -- are stored past its end.
  unfoldable pub recv_into : ℤ → ik.Cb → Kcp ik head → Option (List ℕ × Kcp ik head)
  recv_into sz cb k =
      let (result, bytes, cb') = ik.recv sz cb in
      let k' = record k { kcp = some cb' } in
      if ltb recv_buf_size (length bytes)
      then none
      else if is_positive result
      then some (take (magnitude result) bytes, k')
      else some ([], k')

  unfoldable pub recv_from : Option ik.Cb → Kcp ik head → Option (List ℕ × Kcp ik head)
  recv_from none k = none
  recv_from (some cb) k =
      if is_size (ik.peeksize cb) then recv_into (ik.peeksize cb) cb k else some ([], k)

  -- Recv
  unfoldable pub recv : Kcp ik head → Option (List ℕ × Kcp ik head)
  unfolding recv_from
  recv k = recv_from k.kcp k

  -- Send of a span and of a vector: ikcp_send, then ikcp_flush.
  unfoldable pub send_over : Option ik.Cb → List ℕ → Kcp ik head → Option (ℤ × Kcp ik head)
  unfolding udp_output
  send_over none buffer k = none
  send_over (some cb) buffer k =
      let (ret, cb1) = ik.send buffer cb in
      let (datagrams, cb2) = ik.flush cb1 in
      Option.map (λ k'. (ret, k')) (udp_output datagrams (record k { kcp = some cb2 }))

  unfoldable pub send_bytes : List ℕ → Kcp ik head → Option (ℤ × Kcp ik head)
  unfolding send_over
  send_bytes buffer k = send_over k.kcp buffer k

  abbrev pub send_encrypted : Option (List ℕ) → Kcp ik head → Option (ℤ × Kcp ik head)
  send_encrypted none k = none
  send_encrypted (some encrypted) k = send_bytes encrypted k

  -- Send of a packet: enciphered with the dispatch key or with the connection's own.
  unfoldable pub send_packet :
      List ℕ → BasePacket head → Bool → Kcp ik head → Option (ℤ × Kcp ik head)
  unfolding send_bytes
  send_packet dispatch_key packet use_dispatch_key k =
      let key = if use_dispatch_key then dispatch_key else k.mt_key in
      send_encrypted (xor (BufferView.get_data_ownership packet.view) key) k

  abbrev pub should_use_mt : Kcp ik head → Bool
  should_use_mt k = k.use_mt

  abbrev pub set_use_mt : Bool → Kcp ik head → Kcp ik head
  set_use_mt state k = record k { use_mt = state }

  abbrev pub generate_mt_key : ℕ → Kcp ik head → Kcp ik head
  generate_mt_key seed k = record k { mt_key = generate_key seed }

  unfoldable pub update_round : Option ik.Cb → ℕ → Kcp ik head → Option (Kcp ik head)
  unfolding udp_output
  update_round none current k = none
  update_round (some cb) current k =
      let (datagrams, cb') = ik.update current cb in
      udp_output datagrams (record k { kcp = some cb' })

  -- One round of Background, at time `now` and clock `current`: `some none` means that the object
  -- has deleted itself.
  unfoldable pub background_round : ℕ → ℕ → Kcp ik head → Option (Option (Kcp ik head))
  unfolding update_round
  background_round now current k =
      if not (is_connected k.connection) || ltb 20 (now - k.last_packet_time)
      then some none
      else Option.map some (update_round k.kcp current k)
