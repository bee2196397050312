-- ===== src/Http/Bodies.antt =====
-- `GenericHandler` of http/GenericHandler.h: the fixed answers, as what their writers are told.
use ey_ps.Prelude.{true, false, List, [], ◌∷◌}
use ey_ps.Prelude.Bytes.{codes}
use ey_ps.Prelude.Int.{pos}
use ey_ps.Http.Json.{
  Event, start_object, end_object, start_array, end_array, null, key, text, number, boolean,
}

abbrev pub proc_ver : List Event
proc_ver =
    start_object
    ∷ key (codes "retcode")
    ∷ number (pos 0)
    ∷ key (codes "message")
    ∷ text (codes "OK")
    ∷ key (codes "data")
    ∷ start_object
    ∷ key (codes "modified")
    ∷ boolean true
    ∷ key (codes "protocol")
    ∷ start_object
    ∷ key (codes "id")
    ∷ number (pos 0)
    ∷ key (codes "app_id")
    ∷ number (pos 4)
    ∷ key (codes "language")
    ∷ text (codes "en")
    ∷ key (codes "user_proto")
    ∷ text (codes " ")
    ∷ key (codes "priv_proto")
    ∷ text (codes " ")
    ∷ key (codes "major")
    ∷ number (pos 7)
    ∷ key (codes "minimum")
    ∷ number (pos 0)
    ∷ key (codes "create_time")
    ∷ text (codes "0")
    ∷ key (codes "teenager_proto")
    ∷ text (codes " ")
    ∷ key (codes "third_proto")
    ∷ text (codes " ")
    ∷ end_object
    ∷ end_object
    ∷ end_object
    ∷ []

abbrev pub get_agreement_infos : List Event
get_agreement_infos =
    start_object
    ∷ key (codes "retcode")
    ∷ number (pos 0)
    ∷ key (codes "message")
    ∷ text (codes "OK")
    ∷ key (codes "data")
    ∷ start_object
    ∷ key (codes "marketing_agreements")
    ∷ start_array
    ∷ end_array
    ∷ end_object
    ∷ end_object
    ∷ []

abbrev pub account : List Event
account =
    start_object
    ∷ key (codes "retcode")
    ∷ number (pos 0)
    ∷ key (codes "message")
    ∷ text (codes "OK")
    ∷ key (codes "data")
    ∷ start_object
    ∷ key (codes "id")
    ∷ text (codes "none")
    ∷ key (codes "action")
    ∷ text (codes "ACTION_NONE")
    ∷ key (codes "geetest")
    ∷ null
    ∷ end_object
    ∷ end_object
    ∷ []

abbrev pub combo : List Event
combo =
    start_object
    ∷ key (codes "data")
    ∷ start_object
    ∷ key (codes "vals")
    ∷ start_object
    ∷ key (codes "disable_email_bind_skip")
    ∷ text (codes "false")
    ∷ key (codes "email_bind_remind")
    ∷ text (codes "true")
    ∷ key (codes "email_bind_remind_interval")
    ∷ text (codes "7")
    ∷ end_object
    ∷ end_object
    ∷ key (codes "message")
    ∷ text (codes "OK")
    ∷ key (codes "retcode")
    ∷ number (pos 0)
    ∷ end_object
    ∷ []

abbrev pub get_config : List Event
get_config =
    start_object
    ∷ key (codes "retcode")
    ∷ number (pos 0)
    ∷ key (codes "message")
    ∷ text (codes "OK")
    ∷ start_object
    ∷ key (codes "announce_url")
    ∷ text (codes "www.baidu.com")
    ∷ key (codes "disable_ysdk_guard")
    ∷ boolean false
    ∷ key (codes "enable_announce_pic_popup")
    ∷ boolean true
    ∷ key (codes "log_level")
    ∷ text (codes "INFO")
    ∷ key (codes "protocol")
    ∷ boolean true
    ∷ key (codes "push_alias_type")
    ∷ number (pos 2)
    ∷ key (codes "qr_enabled")
    ∷ boolean false
    ∷ end_object
    ∷ end_object
    ∷ []

abbrev pub load_config : List Event
load_config =
    start_object
    ∷ key (codes "client")
    ∷ text (codes "PC")
    ∷ key (codes "disable_mmt")
    ∷ boolean false
    ∷ key (codes "enable_email_captcha")
    ∷ boolean false
    ∷ key (codes "enable_ps_bind_account")
    ∷ boolean false
    ∷ key (codes "disable_regist")
    ∷ boolean false
    ∷ key (codes "game_key")
    ∷ text (codes "game_key")
    ∷ key (codes "guest")
    ∷ boolean false
    ∷ key (codes "id")
    ∷ number (pos 6)
    ∷ key (codes "identity")
    ∷ text (codes "I_IDENTITY")
    ∷ key (codes "ignore_versions")
    ∷ text (codes "")
    ∷ key (codes "name")
    ∷ text (codes "ps")
    ∷ key (codes "scene")
    ∷ text (codes "S_NORMAL")
    ∷ key (codes "server_guest")
    ∷ boolean false
    ∷ key (codes "thirdparty")
    ∷ start_array
    ∷ text (codes "fb")
    ∷ text (codes "tw")
    ∷ end_array
    ∷ key (codes "thirdparty_ignore")
    ∷ start_object
    ∷ key (codes "tw")
    ∷ text (codes "")
    ∷ key (codes "fb")
    ∷ text (codes "")
    ∷ end_object
    ∷ key (codes "thirdparty_login_configs")
    ∷ start_object
    ∷ key (codes "tw")
    ∷ start_object
    ∷ key (codes "token_type")
    ∷ text (codes "TK_GAME_TOKEN")
    ∷ key (codes "game_token_expires_in")
    ∷ number (pos 604800)
    ∷ end_object
    ∷ key (codes "fb")
    ∷ start_object
    ∷ key (codes "token_type")
    ∷ text (codes "TK_GAME_TOKEN")
    ∷ key (codes "game_token_expires_in")
    ∷ number (pos 604800)
    ∷ end_object
    ∷ end_object
    ∷ end_object
    ∷ []

abbrev pub data_upload : List Event
data_upload = start_object ∷ key (codes "code") ∷ number (pos 0) ∷ end_object ∷ []
