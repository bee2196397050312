-- ===== src/Tests/Services.antt =====
-- Runs of the configuration, the pool and the HTTP answers.
use ey_ps.Prelude.{
  ℕ, ◌+◌, ◌%◌, ◌≤◌, ◌≡◌, ◌⊎◌, refl, List, [], ◌∷◌, Option, none, some, length, arith, same,
  if◌then◌else◌,
}
use ey_ps.Prelude.Bytes.{codes}
use ey_ps.Config.{Lua, Config, blank, get_val_from_table, init_cig}
use ey_ps.Config.Tables.{walk, get_val_from_table_exact}
use ey_ps.Config.Stack.{init_cig-stack}
use ey_ps.Config.Loading.{Describes, init_cig_complete}
use ey_ps.Pool
use ey_ps.Pool.{IoServicePool, get_io_services}
use ey_ps.Pool.Turns.{turns, get_io_services-turns}
use ey_ps.Http.Objects.{ComboTokenRes, combo_token_res}
use ey_ps.Http.Routes.{Route, login_handler, answers}
use mathlib.Core.Option

-- A value of a Lua state whose tables have the fields that they are asked for.
pub data Value : Type 0 where
  table : Value
  word : List ℕ → Value
  whole : ℕ → Value

abbrev pub field_of : List ℕ → Value → Option Value
field_of key table = some (
    if same key (codes "bindPort")
    then whole 22102
    else (if same key (codes "dispatch")
        then table
        else (if same key (codes "game") then table else word key)))
field_of key _ = none

abbrev pub word_of : Value → Option (List ℕ)
word_of (word w) = some w
word_of _ = none

abbrev pub whole_of : Value → Option ℕ
whole_of (whole n) = some n
whole_of _ = none

abbrev pub lua : Lua
lua = record {
  Value = Value;
  global = λ name. table;
  field = field_of;
  string_of = word_of;
  stringified = λ v. v;
  integer_of = whole_of;
  boolean_of = λ v. none;
}

abbrev pub described : Config
described = record {
  dispatch_addr = codes "bindAddress";
  dispatch_port = 22102;
  game_addr = codes "bindAddress";
  game_port = 22102;
  connection_uri = codes "connectionUri";
  collection = codes "collection";
  region_name = codes "name";
  region_title = codes "title";
  region_ip = codes "ip";
}

pub lua-Describes : Describes lua described
unfolding Option.bind
lua-Describes = record {
  dispatch_addr = (_, refl, refl);
  dispatch_port = (_, refl, refl);
  game_addr = (_, refl, refl);
  game_port = (_, refl, refl);
  connection_uri = (_, refl, refl);
  collection = (_, refl, refl);
  region_name = (_, refl, refl);
  region_title = (_, refl, refl);
  region_ip = (_, refl, refl);
}

init_cig_complete_example :
    (s' : List Value) × (init_cig lua blank [] ≡ some (described, s')) × (length s' ≡ 0 + 9)
init_cig_complete_example = init_cig_complete lua blank described [] lua-Describes

left_over : List Value
left_over = init_cig_complete_example.0

init_cig-stack_example : (0 + 9 ≤ length left_over) × (length left_over ≤ 0 + 22)
unfolding left_over
init_cig-stack_example =
    init_cig-stack lua blank described [] init_cig_complete_example.0 init_cig_complete_example.1

abbrev game_port : List (List ℕ)
game_port = codes "game" ∷ codes "bindPort" ∷ []

get_val_from_table_exact_example :
    ((walk lua game_port table ≡ none)
      × (get_val_from_table lua whole_of (λ v. v) (codes "server") game_port 0 [] ≡ none))
    ⊎ ((top : Value) × (stack' : List Value) × (walk lua game_port table ≡ some top)
        × (whole_of top ≡ none)
        × (get_val_from_table lua whole_of (λ v. v) (codes "server") game_port 0 []
            ≡ some (0, stack'))
        × (length stack' ≡ 0 + 1 + 2))
    ⊎ ((top : Value) × (a : ℕ) × (stack' : List Value) × (walk lua game_port table ≡ some top)
        × (whole_of top ≡ some a)
        × (get_val_from_table lua whole_of (λ v. v) (codes "server") game_port 0 []
            ≡ some (a, stack'))
        × (length stack' ≡ 0 + 1))
get_val_from_table_exact_example =
    get_val_from_table_exact lua whole_of (λ v. v) (codes "server") game_port 0 []

get_io_services-turns_example :
    get_io_services 5 (Pool.make 3)
    ≡ some (turns 3 5 0, record (Pool.make 3) { next_io_service = 5 % 3 })
get_io_services-turns_example = get_io_services-turns 3 5 (omega arith)

asked : answers (codes "/getConfig?x=1") ≡ some (Route.get_config ∷ [])
unfolding answers ey_ps.Http.Routes.first_match ey_ps.Http.Routes.starts_with
asked = refl

abbrev combined : ComboTokenRes
combined = record combo_token_res { message = codes "OK"; open_id = codes "100" }
