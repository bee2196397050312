-- ===== src/Tests/Sites.antt =====
-- Instances of what the HTTP server takes from outside: messages that are serialized as their fields,
-- each text after its length, and a base64 that writes the bytes as they are.
use ey_ps.Prelude.{
  ℕ, zero, suc, ◌≡◌, refl, ap, Bool, true, false, List, [], ◌∷◌, ◌++◌, some, length, take, drop,
  take-length-append, drop-length-append, ◌==◌, arith,
}
use ey_ps.Prelude.Bytes.{codes}
use ey_ps.Crypto.Base64.{Base64, IsBase64}
use ey_ps.Config.{Config, blank}
use ey_ps.Http.Regions.{
  RegionMessages, RegionSimpleInfo, QueryRegionListHttpRsp, QueryCurrRegionHttpRsp, Keys,
}
use ey_ps.Http.Regions.Reading.{IsReadable}

abbrev pub plain : Base64
plain = record {
  encoded_size = λ n. n;
  encode = λ bytes. bytes;
  decoded_size = λ n. n;
  decode = λ bytes. bytes;
}

pub plain-IsBase64 : IsBase64 plain
plain-IsBase64 = record {
  encode_fits = λ input. omega arith;
  decode_fits = λ input. omega arith;
  decode-encode = λ input. refl;
}

put : List ℕ → List ℕ → List ℕ
put text rest = length text ∷ (text ++ rest)

get : List ℕ → List ℕ × List ℕ
get [] = ([], [])
get (n ∷ rest) = (take n rest, drop n rest)

get-put : (text rest : List ℕ) → get (put text rest) ≡ (text, rest)
unfolding get put
get-put text rest = cc (
  take-length-append (length text) text rest refl,
  drop-length-append (length text) text rest refl,
)

put_region : RegionSimpleInfo → List ℕ → List ℕ
put_region r rest = put r.type' (put r.name (put r.title (put r.dispatch_url rest)))

get_region : List ℕ → RegionSimpleInfo × List ℕ
get_region s =
    let (t, s1) = get s in
    let (n, s2) = get s1 in
    let (i, s3) = get s2 in
    let (u, s4) = get s3 in (record { type' = t; name = n; title = i; dispatch_url = u }, s4)

get_region-put_region :
    (r : RegionSimpleInfo) (rest : List ℕ) → get_region (put_region r rest) ≡ (r, rest)
unfolding get_region put_region
get_region-put_region r rest = simp (
  get-put r.type' (put r.name (put r.title (put r.dispatch_url rest))),
  get-put r.name (put r.title (put r.dispatch_url rest)),
  get-put r.title (put r.dispatch_url rest),
  get-put r.dispatch_url rest,
)

put_regions : List RegionSimpleInfo → List ℕ
put_regions [] = []
put_regions (r ∷ rs) = put_region r (put_regions rs)

get_regions : ℕ → List ℕ → List RegionSimpleInfo
get_regions zero s = []
get_regions (suc n) s = (get_region s).0 ∷ get_regions n (get_region s).1

get_regions-put_regions :
    (rs : List RegionSimpleInfo) → get_regions (length rs) (put_regions rs) ≡ rs
unfolding get_regions put_regions
get_regions-put_regions [] = refl
get_regions-put_regions (r ∷ rs) =
    let e = get_region-put_region r (put_regions rs) in
    cc (
      ap {A = RegionSimpleInfo × List ℕ} (λ p. p.0) e,
      ap {A = RegionSimpleInfo × List ℕ} (λ p. get_regions (length rs) p.1) e,
      get_regions-put_regions rs,
    )

abbrev of_bool : Bool → ℕ
of_bool true = 1
of_bool false = 0

abbrev to_bool : ℕ → Bool
to_bool n = n == 1

pub serialize_list : QueryRegionListHttpRsp → List ℕ
serialize_list r =
    r.retcode
    ∷ of_bool r.enable_login_pc
    ∷ length r.region_list
    ∷ put r.client_secret_key (put r.client_custom_config_encrypted (put_regions r.region_list))

pub parse_list : List ℕ → QueryRegionListHttpRsp
parse_list (c ∷ e ∷ n ∷ s) =
    let (key, s1) = get s in
    let (encrypted, s2) = get s1 in
    record {
      region_list = get_regions n s2;
      retcode = c;
      enable_login_pc = to_bool e;
      client_secret_key = key;
      client_custom_config_encrypted = encrypted;
    }
parse_list _ = record {
  region_list = [];
  retcode = 0;
  enable_login_pc = false;
  client_secret_key = [];
  client_custom_config_encrypted = [];
}

to_bool-of_bool : (b : Bool) → to_bool (of_bool b) ≡ b
to_bool-of_bool true = refl
to_bool-of_bool false = refl

pub parse_list-serialize_list : (r : QueryRegionListHttpRsp) → parse_list (serialize_list r) ≡ r
unfolding parse_list serialize_list
parse_list-serialize_list r = simp (
  get-put r.client_secret_key (put r.client_custom_config_encrypted (put_regions r.region_list)),
  get-put r.client_custom_config_encrypted (put_regions r.region_list),
  get_regions-put_regions r.region_list,
  to_bool-of_bool r.enable_login_pc,
)

pub serialize_curr : QueryCurrRegionHttpRsp → List ℕ
serialize_curr r =
    r.retcode
    ∷ r.region_info.gateserver_port
    ∷ put r.region_info.gateserver_ip (put r.region_info.secret_key [])

pub parse_curr : List ℕ → QueryCurrRegionHttpRsp
parse_curr (c ∷ port ∷ s) =
    let (ip, s1) = get s in
    let (key, s2) = get s1 in
    record {
      retcode = c;
      region_info = record { gateserver_port = port; gateserver_ip = ip; secret_key = key };
    }
parse_curr _ = record {
  retcode = 0;
  region_info = record { gateserver_port = 0; gateserver_ip = []; secret_key = [] };
}

pub parse_curr-serialize_curr : (r : QueryCurrRegionHttpRsp) → parse_curr (serialize_curr r) ≡ r
unfolding parse_curr serialize_curr
parse_curr-serialize_curr r = simp (
  get-put r.region_info.gateserver_ip (put r.region_info.secret_key []),
  get-put r.region_info.secret_key [],
)

abbrev pub field_messages : RegionMessages
field_messages = record {
  serialize_list = serialize_list;
  serialize_curr = serialize_curr;
  as_string = some;
}

unfoldable pub field_messages-IsReadable : IsReadable field_messages
field_messages-IsReadable = record {
  parse_list = parse_list;
  parse_curr = parse_curr;
  parse-serialize_list = parse_list-serialize_list;
  parse-serialize_curr = parse_curr-serialize_curr;
}

abbrev pub some_config : Config
some_config = record blank {
  dispatch_addr = codes "127.0.0.1";
  dispatch_port = 8888;
  game_addr = codes "127.0.0.1";
  game_port = 22102;
  region_name = codes "os_usa";
  region_title = codes "EyPS";
}

abbrev pub some_keys : Keys
some_keys = record { dispatch_key = 1 ∷ 2 ∷ 3 ∷ []; dispatch_seed = 7 ∷ 8 ∷ [] }
