-- ===== src/Config/Stack.antt =====
-- What `initCig` of util/psConfig.cpp leaves on the Lua stack.
use ey_ps.Prelude.{ℕ, ◌+◌, ◌≤◌, ◌≡◌, inl, inr, sym, ap, ◌∙◌, List, Option, some, length, arith}
use ey_ps.Prelude.Options.{of_some, none-ne-some, bind-eq-some}
use ey_ps.Config.{Lua, Load, ◌>>=◌, get_val_from_table, Config, init_cig}
use ey_ps.Config.Tables.{get_val_from_table_exact}

-- With `m` the stack grows by at least `lo` and at most `hi`.
abbrev Grows : {V A : Type 0} → ℕ → ℕ → Load V A → Type 0
Grows {V} {A} lo hi m =
    (s : List V) (a : A) (s' : List V)
    → m s ≡ some (a, s')
    → (length s + lo ≤ length s') × (length s' ≤ length s + hi)

Grows->>= :
    {V A B : Type 0} (lo hi lo' hi' : ℕ) (m : Load V A) (f : A → Load V B)
    → Grows lo hi m
    → ((a : A) → Grows lo' hi' (f a))
    → Grows (lo + lo') (hi + hi') (m >>= f)
unfolding ◌>>=◌
Grows->>= lo hi lo' hi' m f hm hf s b s' e =
    let ((a, s1), e1, e2) = bind-eq-some (m s) _ e in
    let first = hm s a s1 e1 in
    let second = hf a s1 b s' e2 in
    (omega (arith, first.0, second.0), omega (arith, first.1, second.1))

lookup-Grows :
    (lua : Lua) {A : Type 0} (of : lua.Value → Option A) (left : lua.Value → lua.Value)
    (table : List ℕ) (keys : List (List ℕ)) (val : A)
    → Grows 1 (1 + length keys) (get_val_from_table lua of left table keys val)
lookup-Grows lua {A} of left table keys val s a s' e =
    elim (get_val_from_table_exact lua of left table keys val s) [
      | inl (n, g) ↦ absurd (none-ne-some (sym g ∙ e))
      | inr (inl (top, stack', n, o, g, len)) ↦
          let same = ap {A = A × List lua.Value} (λ r. length r.1) (of_some (sym g ∙ e)) in
          (omega (arith, len, same), omega (arith, len, same))
      | inr (inr (top, b, stack', n, o, g, len)) ↦
          let same = ap {A = A × List lua.Value} (λ r. length r.1) (of_some (sym g ∙ e)) in
          (omega (arith, len, same), omega (arith, len, same))
    ]

loaded-Grows : {V A : Type 0} (a : A) → Grows {V = V} 0 0 (λ stack. some (a, stack))
loaded-Grows {V} {A} a s b s' e =
    let same = ap {A = A × List V} (λ r. length r.1) (of_some e) in
    (omega (arith, same), omega (arith, same))

init_cig-Grows : (lua : Lua) (c : Config) → Grows 9 22 (init_cig lua c)
unfolding init_cig
init_cig-Grows lua c = Grows->>= 1 3 8 19 _ _ (lookup-Grows lua _ _ _ _ _) λ v1.
    Grows->>= 1 3 7 16 _ _ (lookup-Grows lua _ _ _ _ _) λ v2.
      Grows->>= 1 3 6 13 _ _ (lookup-Grows lua _ _ _ _ _) λ v3.
        Grows->>= 1 3 5 10 _ _ (lookup-Grows lua _ _ _ _ _) λ v4.
          Grows->>= 1 2 4 8 _ _ (lookup-Grows lua _ _ _ _ _) λ v5.
            Grows->>= 1 2 3 6 _ _ (lookup-Grows lua _ _ _ _ _) λ v6.
              Grows->>= 1 2 2 4 _ _ (lookup-Grows lua _ _ _ _ _) λ v7.
                Grows->>= 1 2 1 2 _ _ (lookup-Grows lua _ _ _ _ _)
                  λ v8. Grows->>= 1 2 0 0 _ _ (lookup-Grows lua _ _ _ _ _) λ v9. loaded-Grows _

-- Whatever psconfig.lua holds, an `initCig` that ends without a Lua error takes at least nine
-- slots of the Lua stack that it never gives back, one for each value, and at most twenty-two.
pub init_cig-stack :
    (lua : Lua) (c c' : Config) (s s' : List lua.Value)
    → init_cig lua c s ≡ some (c', s')
    → (length s + 9 ≤ length s') × (length s' ≤ length s + 22)
init_cig-stack lua c c' s s' e = init_cig-Grows lua c s c' s' e
