-- ===== src/Http/Regions.antt =====
-- The two region answers of http/HttpHandleReq.h. The generated protobuf classes and Boost's base64
-- are parameters. `none` is undefined behaviour.
pub mod Reading
use ey_ps.Prelude.{ℕ, Bool, true, List, [], ◌∷◌, ◌++◌, Option, none, some}
use ey_ps.Prelude.Bytes.{codes}
use ey_ps.Prelude.Decimal.{to_string}
use ey_ps.Crypto.Cipher.{xor}
use ey_ps.Crypto.Base64.{Base64, base64_encode}
use ey_ps.Config.{Config}
use mathlib.Core.Option

-- The fields of the messages that the answers set.
pub record RegionSimpleInfo : Type 0 where
  pub type' : List ℕ
  pub name : List ℕ
  pub title : List ℕ
  pub dispatch_url : List ℕ

pub record QueryRegionListHttpRsp : Type 0 where
  pub region_list : List RegionSimpleInfo
  pub retcode : ℕ
  pub enable_login_pc : Bool
  pub client_secret_key : List ℕ
  pub client_custom_config_encrypted : List ℕ

pub record RegionInfo : Type 0 where
  pub gateserver_port : ℕ
  pub gateserver_ip : List ℕ
  pub secret_key : List ℕ

pub record QueryCurrRegionHttpRsp : Type 0 where
  pub retcode : ℕ
  pub region_info : RegionInfo

pub record RegionMessages : Type 0 where
  -- SerializeAsString
  pub serialize_list : QueryRegionListHttpRsp → List ℕ
  pub serialize_curr : QueryCurrRegionHttpRsp → List ℕ
  -- A std::span of these bytes, read as the std::string that it is not: the cast of the reference is
  -- undefined behaviour, and what the compiled program reads there, if it goes on, is a parameter.
  pub as_string : List ℕ → Option (List ℕ)

-- What the answers take from `Config`, after initCig and loadKeys.
pub record Keys : Type 0 where
  pub dispatch_key : List ℕ
  pub dispatch_seed : List ℕ

abbrev pub client_custom_config : List ℕ
client_custom_config =
    codes
      "{\"sdkenv\":\"2\",\"checkdevice\":\"false\",\"loadPatch\":\"false\",\"showexception\":\"false\",\"regionConfig\":\"pm|fk|add\",\"downloadMode\":\"0\"}"

-- "https://" + dispatchAddr + ":" + to_string(dispatchPort) + "/query_cur_region/" + regionName
unfoldable pub dispatch_url : Config → List ℕ
dispatch_url config =
    codes "https://"
    ++ (config.dispatch_addr
        ++ (codes ":"
            ++ (to_string config.dispatch_port
                ++ (codes "/query_cur_region/" ++ config.region_name))))

abbrev pub region : Config → RegionSimpleInfo
region config = record {
  type' = codes "DEV_PUBLIC";
  name = config.region_name;
  title = config.region_title;
  dispatch_url = dispatch_url config;
}

infixl 10 ◌>>=◌
abbrev pub ◌>>=◌ : {A B : Type 0} → Option A → (A → Option B) → Option B
o >>= f = Option.bind o f

module _ (messages : RegionMessages) (base64 : Base64) (config : Config) (keys : Keys) where
  unfoldable pub region_list_rsp : Option QueryRegionListHttpRsp
  region_list_rsp = do
    patch_key ← xor client_custom_config keys.dispatch_key
    secret_key ← messages.as_string keys.dispatch_seed
    encrypted ← messages.as_string patch_key
    some (record {
      region_list = region config ∷ [];
      retcode = 0;
      enable_login_pc = true;
      client_secret_key = secret_key;
      client_custom_config_encrypted = encrypted;
    })

  -- do_query_region_list
  unfoldable pub do_query_region_list : Option (List ℕ)
  unfolding region_list_rsp
  do_query_region_list = do
    rsp ← region_list_rsp
    base64_encode base64 (messages.serialize_list rsp) []

  unfoldable pub cur_region_rsp : Option QueryCurrRegionHttpRsp
  cur_region_rsp = do
    secret_key ← messages.as_string keys.dispatch_seed
    some (record {
      retcode = 0;
      region_info = record {
        gateserver_port = config.game_port;
        gateserver_ip = config.game_addr;
        secret_key = secret_key;
      };
    })

  -- do_query_cur_region
  unfoldable pub do_query_cur_region : Option (List ℕ)
  unfolding cur_region_rsp
  do_query_cur_region = do
    rsp ← cur_region_rsp
    base64_encode base64 (messages.serialize_curr rsp) []
