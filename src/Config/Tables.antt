-- ===== src/Config/Tables.antt =====
-- What a lookup of util/psConfig.cpp finds.
use ey_ps.Prelude.{
  ℕ, ◌+◌, ◌≡◌, ◌⊎◌, inl, inr, refl, ap, ◌∙◌, List, [], ◌∷◌, Option, none, some, Option-cases,
  length, drop, length-drop, arith,
}
use ey_ps.Config.{Lua, take_top, took, get_fields, get_val_from_table}
use mathlib.Core.Option

-- The value that a path of keys leads to.
abbrev pub walk : (lua : Lua) → List (List ℕ) → lua.Value → Option lua.Value
walk lua [] v = some v
walk lua (key ∷ keys) v = Option.bind (lua.field key v) (walk lua keys)

module _ (lua : Lua) where
  -- The fields of a path pile up on the stack.
  get_fields-walk :
      (keys : List (List ℕ)) (v : lua.Value) (stack : List lua.Value)
      → ((walk lua keys v ≡ none) × (get_fields lua keys (v ∷ stack) ≡ none))
        ⊎ ((top : lua.Value) × (below : List lua.Value) × (walk lua keys v ≡ some top)
            × (get_fields lua keys (v ∷ stack) ≡ some (top ∷ below))
            × (length below ≡ length stack + length keys))
  unfolding get_fields Option.bind
  get_fields-walk [] v stack = inr (v, stack, refl, refl, omega arith)
  get_fields-walk (key ∷ keys) v stack = elim (Option-cases (lua.field key v)) [
    | inl e ↦ inl (rw e, rw e)
    | inr (w, e) ↦ elim (get_fields-walk keys w (v ∷ stack)) [
      | inl (n, g) ↦ inl (rw e n, rw e g)
      | inr (top, below, n, g, len) ↦ inr (top, below, rw e n, rw e g, omega (arith, len))
    ]
  ]

module _ (lua : Lua) {A : Type 0} (of : lua.Value → Option A) (left : lua.Value → lua.Value)
    (table : List ℕ) (keys : List (List ℕ)) (val : A) (stack : List lua.Value) where
  found :
      (top : lua.Value) (below : List lua.Value)
      → get_fields lua keys (lua.global table ∷ stack) ≡ some (top ∷ below)
      → get_val_from_table lua of left table keys val stack
        ≡ took left (length keys) val top below (of top)
  unfolding get_val_from_table take_top Option.bind
  found top below g = ap (λ o. Option.bind o (take_top of left (length keys) val)) g

  -- A lookup in a table follows the path of its keys. On a path that does not exist it is a Lua error.
  -- Where the value has the type that is asked for, the result is that value, and one slot of the
  -- stack stays taken; where it has not, the result is the old value, and all the slots stay taken:
  -- one for the table and one for each key.
  pub get_val_from_table_exact :
      ((walk lua keys (lua.global table) ≡ none)
        × (get_val_from_table lua of left table keys val stack ≡ none))
      ⊎ ((top : lua.Value) × (stack' : List lua.Value) × (walk lua keys (lua.global table)
            ≡ some top)
          × (of top ≡ none)
          × (get_val_from_table lua of left table keys val stack ≡ some (val, stack'))
          × (length stack' ≡ length stack + 1 + length keys))
      ⊎ ((top : lua.Value) × (a : A) × (stack' : List lua.Value) × (walk lua keys (lua.global table)
            ≡ some top)
          × (of top ≡ some a)
          × (get_val_from_table lua of left table keys val stack ≡ some (a, stack'))
          × (length stack' ≡ length stack + 1))
  unfolding get_val_from_table take_top Option.bind
  get_val_from_table_exact = elim (get_fields-walk lua keys (lua.global table) stack) [
    | inl (n, g) ↦ inl (n, rw g)
    | inr (top, below, n, g, len) ↦ elim (Option-cases (of top)) [
      | inl e ↦ inr (
          inl (
            top,
            top ∷ below,
            n,
            e,
            found top below g ∙ ap (took left (length keys) val top below) e,
            omega (arith, len),
          ))
      | inr (a, e) ↦ inr (
          inr (
            top,
            a,
            drop (length keys) (left top ∷ below),
            n,
            e,
            found top below g ∙ ap (took left (length keys) val top below) e,
            omega (arith, len, length-drop (length keys) (left top ∷ below)),
          ))
    ]
  ]
