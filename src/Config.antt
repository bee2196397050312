-- ===== src/Config.antt =====
-- `Config` of util/psConfig.h and util/psConfig.cpp: the values that psconfig.lua gives. The Lua
-- library is a parameter; its stack is written out, the top first. `none` is a Lua error outside of
-- any protected call, which ends the program.
pub mod Tables
pub mod Stack
pub mod Loading
use ey_ps.Prelude.{ℕ, ◌%◌, ◌^◌, Bool, List, [], ◌∷◌, Option, none, some, length, drop}
use ey_ps.Prelude.Bytes.{codes}
use mathlib.Core.Option

-- A Lua state after the file has run. An integer is the pattern of its 64 bits.
pub record Lua : Type 1 where
  pub Value : Type 0
  -- lua_getglobal, and lua_getfield: an error for a value that cannot be indexed.
  pub global : List ℕ → Value
  pub field : List ℕ → Value → Option Value
  -- The value's text, if lua_isstring; lua_tostring turns a number on the stack into its text.
  pub string_of : Value → Option (List ℕ)
  pub stringified : Value → Value
  -- The value, if lua_isinteger or lua_isboolean.
  pub integer_of : Value → Option ℕ
  pub boolean_of : Value → Option Bool

abbrev pub Load : Type 0 → Type 0 → Type 0
Load V A = List V → Option (A × List V)

infixl 10 ◌>>=◌
unfoldable pub ◌>>=◌ : {V A B : Type 0} → Load V A → (A → Load V B) → Load V B
◌>>=◌ m f stack = Option.bind (m stack) λ (a, stack'). f a stack'

-- The end of getValFromTable: a value of another type is left on the stack with the tables.
abbrev pub took : {V A : Type 0} → (V → V) → ℕ → A → V → List V → Option A → Option (A × List V)
took left count val top stack none = some (val, top ∷ stack)
took left count val top stack (some a) = some (a, drop count (left top ∷ stack))

unfoldable pub take_top : {V A : Type 0} → (V → Option A) → (V → V) → ℕ → A → Load V A
take_top of left count val [] = none
take_top of left count val (top ∷ stack) = took left count val top stack (of top)

module _ (lua : Lua) where
  -- for (auto &key : keys) lua_getfield(L, -1, key)
  unfoldable pub get_fields : List (List ℕ) → List lua.Value → Option (List lua.Value)
  get_fields [] stack = some stack
  get_fields (key ∷ keys) [] = none
  get_fields (key ∷ keys) (top ∷ stack) =
      Option.bind (lua.field key top) λ v. get_fields keys (v ∷ top ∷ stack)

  -- getValFromTable, whose overloads differ in the test, in the conversion and in what the conversion
  -- leaves on the stack.
  unfoldable pub get_val_from_table :
      {A : Type 0}
      → (lua.Value → Option A)
      → (lua.Value → lua.Value)
      → List ℕ
      → List (List ℕ)
      → A
      → Load lua.Value A
  unfolding get_fields take_top
  get_val_from_table of left table keys val stack =
      Option.bind (get_fields keys (lua.global table ∷ stack)) (take_top of left (length keys) val)

  abbrev pub get_string_from_table : List ℕ → List (List ℕ) → List ℕ → Load lua.Value (List ℕ)
  get_string_from_table = get_val_from_table lua.string_of lua.stringified

  abbrev pub int_of : lua.Value → Option ℕ
  int_of v = Option.map (λ n. n % 2 ^ 32) (lua.integer_of v)

  abbrev pub get_int_from_table : List ℕ → List (List ℕ) → ℕ → Load lua.Value ℕ
  get_int_from_table = get_val_from_table int_of (λ v. v)

  abbrev pub get_bool_from_table : List ℕ → List (List ℕ) → Bool → Load lua.Value Bool
  get_bool_from_table = get_val_from_table lua.boolean_of (λ v. v)

  abbrev pub get_size_from_table : List ℕ → List (List ℕ) → ℕ → Load lua.Value ℕ
  get_size_from_table = get_val_from_table lua.integer_of (λ v. v)

  abbrev pub short_of : lua.Value → Option ℕ
  short_of v = Option.map (λ n. n % 2 ^ 16) (lua.integer_of v)

  abbrev pub get_short_from_table : List ℕ → List (List ℕ) → ℕ → Load lua.Value ℕ
  get_short_from_table = get_val_from_table short_of (λ v. v)

  -- getStringVal, getIntVal and getBooleanVal leave the value on the stack.
  abbrev pub get_string_val : List ℕ → List ℕ → Load lua.Value (List ℕ)
  get_string_val key val stack =
      take_top lua.string_of lua.stringified 0 val (lua.global key ∷ stack)

  abbrev pub get_int_val : List ℕ → ℕ → Load lua.Value ℕ
  get_int_val key val stack = take_top int_of (λ v. v) 0 val (lua.global key ∷ stack)

  abbrev pub get_boolean_val : List ℕ → Bool → Load lua.Value Bool
  get_boolean_val key val stack = take_top lua.boolean_of (λ v. v) 0 val (lua.global key ∷ stack)

-- The fields that initCig fills.
pub record Config : Type 0 where
  pub dispatch_addr : List ℕ
  pub dispatch_port : ℕ
  pub game_addr : List ℕ
  pub game_port : ℕ
  pub connection_uri : List ℕ
  pub collection : List ℕ
  pub region_name : List ℕ
  pub region_title : List ℕ
  pub region_ip : List ℕ

-- Config()
abbrev pub blank : Config
blank = record {
  dispatch_addr = [];
  dispatch_port = 0;
  game_addr = [];
  game_port = 0;
  connection_uri = [];
  collection = [];
  region_name = [];
  region_title = [];
  region_ip = [];
}

module _ (lua : Lua) where
  -- initCig, after the file has been run
  unfoldable pub init_cig : Config → Load lua.Value Config
  init_cig c = do
    dispatch_addr ←
        get_string_from_table lua (codes "server") (codes "dispatch" ∷ codes "bindAddress" ∷ [])
          c.dispatch_addr
    dispatch_port ←
        get_short_from_table lua (codes "server") (codes "dispatch" ∷ codes "bindPort" ∷ [])
          c.dispatch_port
    game_addr ←
        get_string_from_table lua (codes "server") (codes "game" ∷ codes "bindAddress" ∷ [])
          c.game_addr
    game_port ←
        get_short_from_table lua (codes "server") (codes "game" ∷ codes "bindPort" ∷ []) c.game_port
    connection_uri ←
        get_string_from_table lua (codes "databaseInfo") (codes "connectionUri" ∷ [])
          c.connection_uri
    collection ←
        get_string_from_table lua (codes "databaseInfo") (codes "collection" ∷ []) c.collection
    region_name ← get_string_from_table lua (codes "RegionInfo") (codes "name" ∷ []) c.region_name
    region_title ←
        get_string_from_table lua (codes "RegionInfo") (codes "title" ∷ []) c.region_title
    region_ip ← get_string_from_table lua (codes "RegionInfo") (codes "ip" ∷ []) c.region_ip
    loaded (record {
      dispatch_addr = dispatch_addr;
      dispatch_port = dispatch_port;
      game_addr = game_addr;
      game_port = game_port;
      connection_uri = connection_uri;
      collection = collection;
      region_name = region_name;
      region_title = region_title;
      region_ip = region_ip;
    })
    where
      loaded : Config → Load lua.Value Config
      loaded c' stack = some (c', stack)
