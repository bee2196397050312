-- ===== src/Pool/Turns.antt =====
-- The services of pool/IOServicePool.cpp take turns.
use ey_ps.Prelude.{
  ℕ, zero, suc, ◌+◌, ◌%◌, ◌<◌, ◌≡◌, sym, ap, ◌∙◌, List, [], ◌∷◌, some, ◌==◌, if◌then◌else◌, lt→ltb,
  Bool-cases, inl, inr, arith,
}
use ey_ps.Pool
use ey_ps.Pool.{IoServicePool, get_io_service, get_io_services}
use mathlib.Core.Option
use native.Mathlib.Nat.{suc-mod, mod-lt, mod-eq_of_lt, mod_self}

-- The places from `first` on, counted round a pool of `size` services.
abbrev pub turns : ℕ → ℕ → ℕ → List ℕ
turns size zero first = []
turns size (suc calls) first = first % size ∷ turns size calls (suc first)

wrap : (r size : ℕ) → r < size → (if r + 1 == size then 0 else r + 1) ≡ suc r % size
wrap r size h = elim (Bool-cases (r + 1 == size)) [
  | inl t ↦
      let e : suc r ≡ size = ground arith in
      let whole : suc r % size ≡ 0 = ap (λ x. x % size) e ∙ mod_self size in rw t (sym whole)
  | inr f ↦
      let small : suc r < size = ground arith in
      let least : suc r % size ≡ suc r = mod-eq_of_lt small in
      let e : r + 1 ≡ suc r = omega arith in rw f (e ∙ sym least)
]

next-turn :
    (size first : ℕ)
    → 0 < size
    → (if first % size + 1 == size then 0 else first % size + 1) ≡ suc first % size
next-turn size first h = wrap (first % size) size (mod-lt first h) ∙ sym (suc-mod first size)

module _ (pool : IoServicePool) (h : 0 < pool.size) where
  pub service-turn :
      (first : ℕ)
      → get_io_service (record pool { next_io_service = first % pool.size })
        ≡ some (first % pool.size, record pool { next_io_service = suc first % pool.size })
  unfolding get_io_service
  service-turn first =
      rw (lt→ltb (first % pool.size) pool.size (mod-lt first h), next-turn pool.size first h)

  services-turns :
      (calls first : ℕ)
      → get_io_services calls (record pool { next_io_service = first % pool.size })
        ≡ some (
          turns pool.size calls first,
          record pool { next_io_service = (first + calls) % pool.size },
        )
  unfolding get_io_services Option.bind
  services-turns zero first =
      let e : first ≡ first + 0 = omega arith in
      ap (λ n. some ([], record pool { next_io_service = n % pool.size })) e
  services-turns (suc calls) first =
      let e : suc first + calls ≡ first + suc calls = omega arith in
      rw (service-turn first, services-turns calls (suc first), e)

-- A pool of at least one service, freshly made, gives its services out in turn: the call number i,
-- from 0, gets the service at place i modulo the size, and after any number of calls no index has
-- been out of range.
pub get_io_services-turns :
    (size calls : ℕ)
    → 0 < size
    → get_io_services calls (Pool.make size)
      ≡ some (turns size calls 0, record (Pool.make size) { next_io_service = calls % size })
unfolding Pool.make
get_io_services-turns size calls h =
    let e : 0 ≡ 0 % size = sym (mod-eq_of_lt h) in
    let sum : 0 + calls ≡ calls = omega arith in
    ap (λ n. get_io_services calls (record (Pool.make size) { next_io_service = n })) e
    ∙ services-turns (Pool.make size) h calls 0
    ∙ ap (λ n. some (turns size calls 0, record (Pool.make size) { next_io_service = n % size }))
        sum
