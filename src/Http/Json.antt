-- ===== src/Http/Json.antt =====
-- The calls of rapidjson's Writer that src/http makes, in their order. The library turns them into
-- text; here they stay a list, and the rules of a JSON document say which lists are one.
use ey_ps.Prelude.{ℕ, Bool, List, [], ◌∷◌, Option, none, some, ◌≡◌}
use ey_ps.Prelude.Int.{ℤ}
use mathlib.Core.Option

-- Writer's members
pub data Event : Type 0 where
  start_object end_object start_array end_array null : Event
  key text : List ℕ → Event
  number : ℤ → Event
  boolean : Bool → Event

-- Where a document stands: before its value, in an object before a key, after a key, in an array,
-- or complete.
pub data Place : Type 0 where
  before in_object after_key in_array complete : Place

-- The place after a value.
abbrev pub after_value : List Place → Option (List Place)
after_value (before ∷ places) = some (complete ∷ places)
after_value (after_key ∷ places) = some (in_object ∷ places)
after_value (in_array ∷ places) = some (in_array ∷ places)
after_value _ = none

abbrev pub enter : Place → Option (List Place) → Option (List Place)
enter place none = none
enter place (some places) = some (place ∷ places)

-- One call, as the rules of JSON allow it.
abbrev pub allowed : Event → List Place → Option (List Place)
allowed start_object places = enter in_object (after_value places)
allowed start_array places = enter in_array (after_value places)
allowed end_object (in_object ∷ places) = some places
allowed end_array (in_array ∷ places) = some places
allowed (key k) (in_object ∷ places) = some (after_key ∷ places)
allowed null places = after_value places
allowed (text t) places = after_value places
allowed (number n) places = after_value places
allowed (boolean b) places = after_value places
allowed _ _ = none

abbrev pub all_allowed : List Event → List Place → Option (List Place)
all_allowed [] places = some places
all_allowed (e ∷ es) places = Option.bind (allowed e places) (all_allowed es)

-- The calls write one JSON document.
abbrev pub IsDocument : List Event → Type 0
IsDocument es = all_allowed es (before ∷ []) ≡ some (complete ∷ [])
