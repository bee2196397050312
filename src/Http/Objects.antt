-- ===== src/Http/Objects.antt =====
-- The answers of http/objects/LoginRet.h and http/objects/ComboTokenRes.h.
pub mod Shows
use ey_ps.Prelude.{ℕ, true, false, List, [], ◌∷◌}
use ey_ps.Prelude.Bytes.{codes, c_string}
use ey_ps.Prelude.Int.{ℤ, pos}
use ey_ps.Http.Json.{Event, start_object, end_object, key, text, number, boolean}

-- loginRet
pub record LoginRet : Type 0 where
  pub message : List ℕ
  pub uid : List ℕ
  pub name : List ℕ
  pub email : List ℕ
  pub token : List ℕ
  pub retcode : ℤ

abbrev pub login_ret : LoginRet
login_ret = record { message = []; uid = []; name = []; email = []; token = []; retcode = pos 0 }

unfoldable pub account_json : LoginRet → List Event
account_json r =
    start_object
    ∷ key (codes "retcode")
    ∷ number r.retcode
    ∷ key (codes "message")
    ∷ text (c_string r.message)
    ∷ key (codes "data")
    ∷ start_object
    ∷ key (codes "account")
    ∷ start_object
    ∷ key (codes "uid")
    ∷ text (c_string r.uid)
    ∷ key (codes "name")
    ∷ text (c_string r.name)
    ∷ key (codes "email")
    ∷ text (codes "EyPSEmail")
    ∷ key (codes "mobile")
    ∷ text (codes " ")
    ∷ key (codes "is_email_verify")
    ∷ text (codes "0")
    ∷ key (codes "realname")
    ∷ text (codes " ")
    ∷ key (codes "identity_card")
    ∷ text (codes " ")
    ∷ key (codes "token")
    ∷ text (c_string r.token)
    ∷ key (codes "safe_mobile")
    ∷ text (codes "")
    ∷ key (codes "facebook_name")
    ∷ text (codes "")
    ∷ key (codes "google_name")
    ∷ text (codes "")
    ∷ key (codes "twitter_name")
    ∷ text (codes "")
    ∷ key (codes "game_center_name")
    ∷ text (codes "")
    ∷ key (codes "apple_name")
    ∷ text (codes "")
    ∷ key (codes "sony_name")
    ∷ text (codes "")
    ∷ key (codes "tap_name")
    ∷ text (codes "")
    ∷ key (codes "country")
    ∷ text (codes "US")
    ∷ key (codes "reactivate_ticket")
    ∷ text (codes "")
    ∷ key (codes "area_code")
    ∷ text (codes "**")
    ∷ end_object
    ∷ end_object
    ∷ key (codes "device_grant_required")
    ∷ boolean false
    ∷ key (codes "safe_mobile_required")
    ∷ boolean false
    ∷ key (codes "realperson_required")
    ∷ boolean false
    ∷ key (codes "reactivate_required")
    ∷ boolean false
    ∷ key (codes "realname_operation")
    ∷ text (codes "None")
    ∷ end_object
    ∷ []

pub record ComboTokenRes : Type 0 where
  pub message : List ℕ
  pub combo_id : List ℕ
  pub combo_token : List ℕ
  pub open_id : List ℕ
  pub retcode : ℤ

abbrev pub combo_token_res : ComboTokenRes
combo_token_res = record {
  message = [];
  combo_id = [];
  combo_token = [];
  open_id = [];
  retcode = pos 0;
}

unfoldable pub combo_token_json : ComboTokenRes → List Event
combo_token_json r =
    start_object
    ∷ key (codes "retcode")
    ∷ number r.retcode
    ∷ key (codes "message")
    ∷ text (c_string r.message)
    ∷ key (codes "data")
    ∷ start_object
    ∷ key (codes "combo_id")
    ∷ text (c_string r.combo_id)
    ∷ key (codes "open_id")
    ∷ text (c_string r.open_id)
    ∷ key (codes "combo_token")
    ∷ text (c_string r.combo_token)
    ∷ key (codes "data")
    ∷ start_object
    ∷ key (codes "guest")
    ∷ boolean false
    ∷ end_object
    ∷ key (codes "heartbeat")
    ∷ boolean false
    ∷ key (codes "account_type")
    ∷ number (pos 1)
    ∷ end_object
    ∷ end_object
    ∷ []
