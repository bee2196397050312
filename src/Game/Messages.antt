-- ===== src/Game/Messages.antt =====
-- The packet ids and the protobuf classes that the handlers of game/packet use. The enumeration
-- (util/PacketIds.h) and the classes (resources/proto) are not in the repository, so they are
-- parameters: of a class its setters' values are a record, and parsing and SerializeAsString are
-- functions.
use ey_ps.Prelude.{ℕ, Bool, List, ◌≢◌}
use ey_ps.Prelude.Int.{ℤ}

pub record PacketIds : Type 0 where
  pub ping_req : ℕ
  pub ping_rsp : ℕ
  pub get_player_token_req : ℕ
  pub get_player_token_rsp : ℕ
  pub player_login_req : ℕ
  pub set_player_born_data_req : ℕ
  pub open_state_update_notify : ℕ
  pub store_weight_limit_notify : ℕ
  pub player_store_notify : ℕ
  pub avatar_data_notify : ℕ
  pub player_enter_scene_notify : ℕ

-- The four ids of requests that the session's gate tells apart are different enumerators.
pub record IsDistinct (ids : PacketIds) : Type 0 where
  pub ping_token : ids.ping_req ≢ ids.get_player_token_req
  pub ping_login : ids.ping_req ≢ ids.player_login_req
  pub ping_born : ids.ping_req ≢ ids.set_player_born_data_req
  pub token_login : ids.get_player_token_req ≢ ids.player_login_req
  pub token_born : ids.get_player_token_req ≢ ids.set_player_born_data_req
  pub login_born : ids.player_login_req ≢ ids.set_player_born_data_req

-- GetPlayerTokenReq, as far as it is read
pub record TokenReq : Type 0 where
  pub uid : ℕ
  pub account_uid : List ℕ
  pub account_token : List ℕ
  pub account_type : ℕ

-- GetPlayerTokenRsp
pub record TokenRsp : Type 0 where
  pub uid : ℕ
  pub account_uid : List ℕ
  pub token : List ℕ
  pub account_type : ℕ
  pub secret_key_seed : ℕ
  pub is_proficient_player : Bool
  pub security_cmd_buffer : List ℕ
  pub platform_type : ℕ
  pub channel_id : ℕ
  pub country_code : List ℕ
  pub reg_platform : ℕ
  pub client_ip_str : List ℕ

pub data StoreType : Type 0 where
  store_type_pack : StoreType

pub record StoreWeightLimit : Type 0 where
  pub material_count_limit : ℕ
  pub weight_limit : ℕ
  pub store_type : StoreType
  pub weapon_count_limit : ℕ
  pub reliquary_count_limit : ℕ
  pub furniture_count_limit : ℕ

pub record Item : Type 0 where
  pub item_id : ℕ
  pub guid : ℕ
  pub weapon_level : ℕ

pub record PlayerStore : Type 0 where
  pub item_list : List Item
  pub store_type : StoreType
  pub weight_limit : ℕ

pub data EnterType : Type 0 where
  enter_type_self : EnterType

pub record Position : Type 0 where
  pub x : ℤ
  pub y : ℤ
  pub z : ℤ

pub record PlayerEnterScene : Type 0 where
  pub enter_type : EnterType
  pub target_uid : ℕ
  pub enter_scene_token : ℕ
  pub is_first_login_enter_scene : Bool
  pub scene_begin_time : ℕ
  pub scene_id : ℕ
  pub position : Position
  pub world_type : ℕ
  pub enter_reason : ℕ

pub record LoginRsp : Type 0 where
  pub is_use_ability_hash : Bool
  pub ability_hash_code : ℕ
  pub game_biz : List ℕ
  pub is_sc_open : Bool
  pub country_code : List ℕ

pub record Messages : Type 0 where
  -- ParseFromArray of the requests; of a PingReq only the client's time is read.
  pub parse_ping_req : List ℕ → ℕ
  pub parse_token_req : List ℕ → TokenReq
  -- SerializeAsString
  pub ping_rsp : ℕ → List ℕ
  pub token_rsp : TokenRsp → List ℕ
  pub open_state_update_notify : List (ℕ × ℕ) → List ℕ
  pub store_weight_limit_notify : StoreWeightLimit → List ℕ
  pub player_store_notify : PlayerStore → List ℕ
  -- AvatarDataNotify, parsed from bytes and serialized again
  pub avatar_data_notify : List ℕ → List ℕ
  pub player_enter_scene_notify : PlayerEnterScene → List ℕ
  pub login_rsp : LoginRsp → List ℕ
  -- boost::beast's base64 decoding of a text of at most so many characters
  pub base64_decode : List ℕ → ℕ → List ℕ
  -- boost::asio's text of an address
  pub address_text : ℕ → List ℕ
