-- ===== src/Http/Objects/Shows.antt =====
-- What a reader finds in the answers of http/objects.
use ey_ps.Prelude.{
  ℕ, ◌≡◌, refl, List, [], ◌∷◌, Bool, true, false, ◌&&◌, Option, none, some, same, if◌then◌else◌,
}
use ey_ps.Prelude.Bytes.{codes, c_string}
use ey_ps.Http.Json.{
  Event, start_object, end_object, start_array, end_array, null, key, text, number, boolean,
  IsDocument,
}
use ey_ps.Http.Objects.{LoginRet, account_json, ComboTokenRes, combo_token_json}
use mathlib.Core.Option

abbrev outer : List (List ℕ) → List (List ℕ)
outer [] = []
outer (k ∷ ks) = ks

-- The members of an object, each under the keys that lead to it, the innermost first: `under` is
-- where the reader is, and a key is followed by what it names. Arrays are not looked into.
unfoldable pub members : List Event → List (List ℕ) → List (List (List ℕ) × Event)
members [] under = []
members (key k ∷ es) under = members es (k ∷ under)
members (start_object ∷ es) under = members es under
members (end_object ∷ es) under = members es (outer under)
members (start_array ∷ es) under = members es under
members (end_array ∷ es) under = members es (outer under)
members (null ∷ es) under = (under, null) ∷ members es (outer under)
members (text t ∷ es) under = (under, text t) ∷ members es (outer under)
members (number n ∷ es) under = (under, number n) ∷ members es (outer under)
members (boolean b ∷ es) under = (under, boolean b) ∷ members es (outer under)

abbrev same_path : List (List ℕ) → List (List ℕ) → Bool
same_path [] [] = true
same_path (p ∷ ps) (q ∷ qs) = same p q && same_path ps qs
same_path _ _ = false

abbrev first_at : List (List ℕ) → List (List (List ℕ) × Event) → Option Event
first_at path [] = none
first_at path ((at, e) ∷ rest) =
    let later = first_at path rest in if same_path path at then some e else later

-- The value under these keys, the innermost first.
unfoldable pub value_at : List (List ℕ) → List Event → Option Event
unfolding members
value_at path es = first_at path (members es [])

-- The answer to a login is one JSON document for every result, and a reader finds in it the result's
-- code, message, id, name and token, each text up to its first zero character.
pub account_json-shows :
    (r : LoginRet)
    → IsDocument (account_json r)
      × (value_at (codes "retcode" ∷ []) (account_json r) ≡ some (number r.retcode))
      × (value_at (codes "message" ∷ []) (account_json r) ≡ some (text (c_string r.message)))
      × (value_at (codes "uid" ∷ codes "account" ∷ codes "data" ∷ []) (account_json r)
          ≡ some (text (c_string r.uid)))
      × (value_at (codes "name" ∷ codes "account" ∷ codes "data" ∷ []) (account_json r)
          ≡ some (text (c_string r.name)))
      × (value_at (codes "token" ∷ codes "account" ∷ codes "data" ∷ []) (account_json r)
          ≡ some (text (c_string r.token)))
unfolding account_json value_at members Option.bind
account_json-shows r = (refl, refl, refl, refl, refl, refl)

-- The answer to a combined login is one JSON document for every result, and a reader finds in it the
-- result's code, message, ids and token.
pub combo_token_json-shows :
    (r : ComboTokenRes)
    → IsDocument (combo_token_json r)
      × (value_at (codes "retcode" ∷ []) (combo_token_json r) ≡ some (number r.retcode))
      × (value_at (codes "message" ∷ []) (combo_token_json r) ≡ some (text (c_string r.message)))
      × (value_at (codes "combo_id" ∷ codes "data" ∷ []) (combo_token_json r)
          ≡ some (text (c_string r.combo_id)))
      × (value_at (codes "open_id" ∷ codes "data" ∷ []) (combo_token_json r)
          ≡ some (text (c_string r.open_id)))
      × (value_at (codes "combo_token" ∷ codes "data" ∷ []) (combo_token_json r)
          ≡ some (text (c_string r.combo_token)))
unfolding combo_token_json value_at members Option.bind
combo_token_json-shows r = (refl, refl, refl, refl, refl, refl)
