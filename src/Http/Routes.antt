-- ===== src/Http/Routes.antt =====
-- Which answers a request gets: `on_read` of http/HttpSession.h gives it to `handle_request`,
-- `GenericHandler` and `LoginHandler`, one after the other, and each of them may send one.
pub mod Tables
pub mod Answers
pub mod Quiet
use ey_ps.Prelude.{
  ℕ, Bool, true, false, ◌&&◌, List, [], ◌∷◌, ◌++◌, Option, none, some, if◌then◌else◌, ◌==◌,
}
use ey_ps.Prelude.Bytes.{codes}
use ey_ps.Http.Json.{Event}
use ey_ps.Http.Bodies
use mathlib.Core.Option

-- What is sent: the names of the lambdas.
pub data Route : Type 0 where
  region_list cur_region hello : Route
  proc_ver get_agreement_infos account combo get_config load_config data_upload : Route
  client_login token_login session_key_login : Route

-- req.target().starts_with(prefix)
unfoldable pub starts_with : List ℕ → List ℕ → Bool
starts_with [] target = true
starts_with (p ∷ ps) [] = false
starts_with (p ∷ ps) (t ∷ ts) = p == t && starts_with ps ts

-- A chain of tests, each of which sends and returns.
unfoldable pub first_match : List (List ℕ × Route) → List ℕ → List Route
first_match [] target = []
first_match ((prefix, route) ∷ table) target =
    let rest = first_match table target in if starts_with prefix target then route ∷ [] else rest

abbrev pub region_table : List (List ℕ × Route)
region_table = (codes "/region_list", region_list) ∷ (codes "/cur_region", cur_region) ∷ []

abbrev pub generic_table : List (List ℕ × Route)
generic_table =
    (codes "/compareProtocolVersion", proc_ver)
    ∷ (codes "/getAgreementInfos", get_agreement_infos)
    ∷ (codes "/account/check", account)
    ∷ (codes "/config/sdk/combo", combo)
    ∷ (codes "/getConfig", get_config)
    ∷ (codes "/loadConfig", load_config)
    ∷ (codes "/dataUpload", data_upload)
    ∷ []

abbrev pub login_table : List (List ℕ × Route)
login_table =
    (codes "login", client_login)
    ∷ (codes "verify", token_login)
    ∷ (codes "v2/login", session_key_login)
    ∷ []

-- The last test of handle_request, `req.target()[1] == '?'`, which a shorter target has no room for.
abbrev pub greeting : List ℕ → Option (List Route)
greeting (a ∷ b ∷ target) = some (if b == 63 then hello ∷ [] else [])
greeting _ = none

abbrev pub or_greeting : List Route → List ℕ → Option (List Route)
or_greeting [] target = greeting target
or_greeting (route ∷ routes) target = some (route ∷ routes)

unfoldable pub handle_request : List ℕ → Option (List Route)
handle_request target = or_greeting (first_match region_table target) target

unfoldable pub generic_handler : List ℕ → List Route
generic_handler target = first_match generic_table target

unfoldable pub login_handler : List ℕ → List Route
login_handler target = first_match login_table target

-- The handlers, as on_read calls them.
unfoldable pub answers : List ℕ → Option (List Route)
unfolding handle_request generic_handler login_handler
answers target =
    Option.map (λ sent. sent ++ (generic_handler target ++ login_handler target))
      (handle_request target)
