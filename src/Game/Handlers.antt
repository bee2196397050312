-- ===== src/Game/Handlers.antt =====
-- game/packet: PacketManager.h and the three handlers. `none` is undefined behaviour, as in `Kcp`.
pub mod Sending
pub mod Sessions
use ey_ps.Prelude.{
  ℕ, zero, suc, ◌+◌, Bool, true, false, List, [], ◌∷◌, Option, none, some, ◌==◌, if◌then◌else◌,
}
use ey_ps.Prelude.Int.{ℤ, pos, negsuc}
use ey_ps.Prelude.Bytes.{codes}
use mathlib.Core.Option
use ey_ps.Packet.Head.{PacketHead}
use ey_ps.Packet.{BasePacket, build}
use ey_ps.Game.Ikcp.{Ikcp}
use ey_ps.Game.Kcp.{Kcp, SessionState, set_use_mt, generate_mt_key, send_packet}
use ey_ps.Game.Messages.{
  PacketIds, Messages, TokenReq, TokenRsp, StoreType, StoreWeightLimit, PlayerStore, Item,
  EnterType, PlayerEnterScene, LoginRsp,
}

-- The three handlers that `packetManager::init` puts into `m_Packets`.
pub data Handler : Type 0 where
  ping player_token player_login : Handler

-- What the handlers take from outside: the ids, the generated classes, the configured keys, and
-- `time(0)`, which does not change while one packet is handled.
pub record Environment : Type 0 where
  pub ids : PacketIds
  pub messages : Messages
  pub dispatch_key : List ℕ
  -- The text that starts at getSecretKeyBuffer_().data(), up to its first zero byte.
  pub secret_key_text : List ℕ
  pub now : ℕ

-- m_Packets, after `init`; `none` is the null pointer that operator[] makes for a missing id.
unfoldable pub handler_of : PacketIds → ℕ → Option Handler
handler_of ids id =
    if id == ids.ping_req
    then some ping
    else if id == ids.get_player_token_req
    then some player_token
    else if id == ids.player_login_req
    then some player_login
    else none

-- The seed that every client is given.
abbrev pub secret_key_seed : ℕ
secret_key_seed = 0x123456789ABCDEF0

-- for (i = 1; i < 2602; i++) (*states.mutable_open_state_map())[i] = 1, from `i` on.
unfoldable pub open_states_from : ℕ → ℕ → List (ℕ × ℕ)
open_states_from zero i = []
open_states_from (suc left) i = (i, 1) ∷ open_states_from left (i + 1)

abbrev pub storage : StoreWeightLimit
storage = record {
  material_count_limit = 2000;
  weight_limit = 30000;
  store_type = StoreType.store_type_pack;
  weapon_count_limit = 2000;
  reliquary_count_limit = 2000;
  furniture_count_limit = 2000;
}

abbrev pub player_store : PlayerStore
player_store = record {
  item_list = record { item_id = 11101; guid = 42992622632962; weapon_level = 1 } ∷ [];
  store_type = StoreType.store_type_pack;
  weight_limit = 30000;
}

abbrev pub enter_scene : ℕ → PlayerEnterScene
enter_scene now = record {
  enter_type = EnterType.enter_type_self;
  target_uid = 10001;
  enter_scene_token = 123;
  is_first_login_enter_scene = true;
  scene_begin_time = now;
  scene_id = 3;
  position = record { x = pos 2747; y = pos 194; z = negsuc 1718 };
  world_type = 1;
  enter_reason = 1;
}

abbrev pub login_response : LoginRsp
login_response = record {
  is_use_ability_hash = true;
  ability_hash_code = 123456;
  game_biz = codes "";
  is_sc_open = false;
  country_code = codes "****";
}

-- The steps of a handler, up to the first that is undefined.
infixl 10 ◌>=>◌
abbrev pub ◌>=>◌ {ℓ} : {A : Type ℓ} → (A → Option A) → (A → Option A) → A → Option A
◌>=>◌ f g a = Option.bind (f a) g

module _ {ik : Ikcp} {head : PacketHead} (env : Environment) where
  -- `client->Send`, whose result the handlers drop.
  abbrev pub send : List ℕ → ℕ → ℕ → Bool → Kcp ik head → Option (Kcp ik head)
  send bytes id sequence use_dispatch_key k =
      Option.map (λ r. r.1)
        (send_packet env.dispatch_key (build head bytes id sequence env.now) use_dispatch_key k)

  -- HandlePingReq::handler
  unfoldable pub handle_ping : BasePacket head → Kcp ik head → Option (Kcp ik head)
  handle_ping packet client =
      let client_time = env.messages.parse_ping_req packet.data_bytes in
      send (env.messages.ping_rsp client_time) env.ids.ping_rsp
        (head.client_sequence_id packet.metadata) false client

  unfoldable pub token_response : TokenReq → Kcp ik head → TokenRsp
  token_response req client = record {
    uid = req.uid;
    account_uid = req.account_uid;
    token = req.account_token;
    account_type = req.account_type;
    secret_key_seed = secret_key_seed;
    is_proficient_player = true;
    security_cmd_buffer = env.secret_key_text;
    platform_type = 3;
    channel_id = 1;
    country_code = codes "***";
    reg_platform = 3;
    client_ip_str = env.messages.address_text client.endpoint.address;
  }

  -- HandlePlayerTokenReq::handler
  unfoldable pub handle_player_token : BasePacket head → Kcp ik head → Option (Kcp ik head)
  unfolding token_response
  handle_player_token packet client =
      let response = token_response (env.messages.parse_token_req packet.data_bytes) client in
      let k1 = generate_mt_key secret_key_seed (set_use_mt true client) in
      let k2 = record k1 { session = SessionState.waiting_for_login } in
      send (env.messages.token_rsp response) env.ids.get_player_token_rsp 0 true k2

  -- HandlePlayLoginReq::handler. The last packet, the answer, has the id of the answer to a token
  -- request and is enciphered with the dispatch key.
  unfoldable pub handle_player_login : BasePacket head → Kcp ik head → Option (Kcp ik head)
  handle_player_login packet =
      let m = env.messages in
      send (m.open_state_update_notify (open_states_from 2601 1)) env.ids.open_state_update_notify 0
        false
      >=> send (m.store_weight_limit_notify storage) env.ids.store_weight_limit_notify 0 false
      >=> send (m.player_store_notify player_store) env.ids.player_store_notify 0 false
      >=> send (m.avatar_data_notify (m.base64_decode (codes "") 1677)) env.ids.avatar_data_notify 0
          false
      >=> send (m.player_enter_scene_notify (enter_scene env.now)) env.ids.player_enter_scene_notify
          0 false
      >=> (λ k. some (record k { session = SessionState.picking_character }))
      >=> send (m.login_rsp login_response) env.ids.get_player_token_rsp 0 true

  -- m_Packets[id]->handler(client, packet)
  unfoldable pub dispatch : Option Handler → BasePacket head → Kcp ik head → Option (Kcp ik head)
  unfolding handle_ping handle_player_token handle_player_login
  dispatch none packet k = none
  dispatch (some ping) packet k = handle_ping packet k
  dispatch (some player_token) packet k = handle_player_token packet k
  dispatch (some player_login) packet k = handle_player_login packet k
