-- ===== src/Config/Loading.antt =====
-- What `initCig` of util/psConfig.cpp loads from a file that has every value.
use ey_ps.Prelude.{
  ℕ, ◌+◌, ◌≡◌, inl, inr, refl, sym, ap, ◌∙◌, List, [], ◌∷◌, Option, some, length, arith,
}
use ey_ps.Prelude.Bytes.{codes}
use ey_ps.Prelude.Options.{of_some, none-ne-some}
use ey_ps.Config.{Lua, Load, ◌>>=◌, get_val_from_table, short_of, Config, init_cig}
use ey_ps.Config.Tables.{walk, get_val_from_table_exact}
use mathlib.Core.Option

-- With `m` the result is `a`, and the stack grows by `n`.
abbrev Loads : {V A : Type 0} → A → ℕ → Load V A → Type 0
Loads {V} a n m = (s : List V) → (s' : List V) × (m s ≡ some (a, s')) × (length s' ≡ length s + n)

Loads->>= :
    {V A B : Type 0} (a : A) (b : B) (n n' : ℕ) (m : Load V A) (f : A → Load V B)
    → Loads a n m
    → Loads b n' (f a)
    → Loads b (n + n') (m >>= f)
unfolding ◌>>=◌ Option.bind
Loads->>= a b n n' m f hm hf s =
    let (s1, e1, len1) = hm s in
    let (s2, e2, len2) = hf s1 in (s2, rw e1 e2, omega (arith, len1, len2))

-- The value of a path, if it has the type that is asked for.
abbrev pub Finds :
    (lua : Lua) {A : Type 0} → (lua.Value → Option A) → List ℕ → List (List ℕ) → A → Type 0
Finds lua of table keys a =
    (v : lua.Value) × (walk lua keys (lua.global table) ≡ some v) × (of v ≡ some a)

lookup-Loads :
    (lua : Lua) {A : Type 0} (of : lua.Value → Option A) (left : lua.Value → lua.Value)
    (table : List ℕ) (keys : List (List ℕ)) (val a : A)
    → Finds lua of table keys a
    → Loads a 1 (get_val_from_table lua of left table keys val)
lookup-Loads lua {A} of left table keys val a (v, w, f) s =
    elim (get_val_from_table_exact lua of left table keys val s) [
      | inl (n, g) ↦ absurd (none-ne-some (sym n ∙ w))
      | inr (inl (top, stack', n, o, g, len)) ↦
          absurd (none-ne-some (sym o ∙ ap of (of_some (sym n ∙ w)) ∙ f))
      | inr (inr (top, b, stack', n, o, g, len)) ↦
          let same : b ≡ a = of_some (sym o ∙ ap of (of_some (sym n ∙ w)) ∙ f) in
          (stack', g ∙ ap (λ x. some (x, stack')) same, len)
    ]

-- psconfig.lua holds the nine values of `c`, each where `initCig` looks for it.
pub record Describes (lua : Lua) (c : Config) : Type 0 where
  pub dispatch_addr :
      Finds lua lua.string_of
        (codes "server")
        (codes "dispatch" ∷ codes "bindAddress" ∷ [])
        c.dispatch_addr
  pub dispatch_port :
      Finds lua
        (short_of lua)
        (codes "server")
        (codes "dispatch" ∷ codes "bindPort" ∷ [])
        c.dispatch_port
  pub game_addr :
      Finds lua lua.string_of (codes "server") (codes "game" ∷ codes "bindAddress" ∷ []) c.game_addr
  pub game_port :
      Finds lua (short_of lua) (codes "server") (codes "game" ∷ codes "bindPort" ∷ []) c.game_port
  pub connection_uri :
      Finds lua lua.string_of (codes "databaseInfo") (codes "connectionUri" ∷ []) c.connection_uri
  pub collection :
      Finds lua lua.string_of (codes "databaseInfo") (codes "collection" ∷ []) c.collection
  pub region_name : Finds lua lua.string_of (codes "RegionInfo") (codes "name" ∷ []) c.region_name
  pub region_title :
      Finds lua lua.string_of (codes "RegionInfo") (codes "title" ∷ []) c.region_title
  pub region_ip : Finds lua lua.string_of (codes "RegionInfo") (codes "ip" ∷ []) c.region_ip

loaded-Loads : {V A : Type 0} (a : A) → Loads {V = V} a 0 (λ stack. some (a, stack))
loaded-Loads a s = (s, refl, omega arith)

-- If psconfig.lua holds the nine values where `initCig` looks for them, with their types, the
-- configuration is exactly those values, whatever it was before, and the stack has grown by nine.
pub init_cig_complete :
    (lua : Lua) (c0 c : Config) (s : List lua.Value)
    → Describes lua c
    → (s' : List lua.Value) × (init_cig lua c0 s ≡ some (c, s')) × (length s' ≡ length s + 9)
unfolding init_cig
init_cig_complete lua c0 c s d = whole s
  where
    whole : Loads c 9 (init_cig lua c0)
    whole = Loads->>= c.dispatch_addr c 1 8 _ _ (lookup-Loads lua _ _ _ _ _ _ d.dispatch_addr) (
        Loads->>= c.dispatch_port c 1 7 _ _ (lookup-Loads lua _ _ _ _ _ _ d.dispatch_port) (
          Loads->>= c.game_addr c 1 6 _ _ (lookup-Loads lua _ _ _ _ _ _ d.game_addr) (
            Loads->>= c.game_port c 1 5 _ _ (lookup-Loads lua _ _ _ _ _ _ d.game_port) (
              Loads->>= c.connection_uri c 1 4 _ _ (lookup-Loads lua _ _ _ _ _ _ d.connection_uri) (
                Loads->>= c.collection c 1 3 _ _ (lookup-Loads lua _ _ _ _ _ _ d.collection) (
                  Loads->>= c.region_name c 1 2 _ _ (lookup-Loads lua _ _ _ _ _ _ d.region_name) (
                    Loads->>= c.region_title c 1 1 _ _ (lookup-Loads lua _ _ _ _ _ _ d.region_title)
                      (Loads->>= c.region_ip c 1 0 _ _ (lookup-Loads lua _ _ _ _ _ _ d.region_ip)
                        (loaded-Loads c)))))))))
