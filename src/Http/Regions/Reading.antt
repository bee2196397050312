-- ===== src/Http/Regions/Reading.antt =====
-- What a client reads in the region answers of http/HttpHandleReq.h.
use ey_ps.Prelude.{ℕ, ◌≡◌, List, [], Option}
use ey_ps.Crypto.Base64.{Base64, IsBase64, base64_decode}
use ey_ps.Config.{Config}
use ey_ps.Http.Regions.{RegionMessages, QueryRegionListHttpRsp, QueryCurrRegionHttpRsp, Keys}
use mathlib.Core.Option

-- The client's classes parse what the server's have serialized.
pub record IsReadable (messages : RegionMessages) : Type 0 where
  pub parse_list : List ℕ → QueryRegionListHttpRsp
  pub parse_curr : List ℕ → QueryCurrRegionHttpRsp
  pub parse-serialize_list :
      (rsp : QueryRegionListHttpRsp) → parse_list (messages.serialize_list rsp) ≡ rsp
  pub parse-serialize_curr :
      (rsp : QueryCurrRegionHttpRsp) → parse_curr (messages.serialize_curr rsp) ≡ rsp

module _ {messages : RegionMessages} (readable : IsReadable messages) (base64 : Base64)
    (lawful : IsBase64 base64) (config : Config) (keys : Keys) where
  -- What a client does with the body of an answer.
  abbrev pub read_list : List ℕ → Option QueryRegionListHttpRsp
  read_list body = Option.map readable.parse_list (base64_decode base64 body [])

  abbrev pub read_curr : List ℕ → Option QueryCurrRegionHttpRsp
  read_curr body = Option.map readable.parse_curr (base64_decode base64 body [])
