-- ===== src/Pool.antt =====
-- `IOServicePool` of pool/IOServicePool.h and pool/IOServicePool.cpp. A service is the number of its
-- place in `ioService_`; `none` is an index out of range.
pub mod Turns
use ey_ps.Prelude.{
  ℕ, zero, suc, ◌+◌, Bool, ◌&&◌, true, false, List, [], ◌∷◌, map, replicate, Option, none, some,
  ltb, ◌==◌, if◌then◌else◌,
}
use mathlib.Core.Option

pub record IoServicePool : Type 0 where
  -- ioService_.size()
  pub size : ℕ
  -- Which guards of `works_` hold their service, and which threads of `threads_` are to be joined.
  pub works : List Bool
  pub threads : List Bool
  pub next_io_service : ℕ

-- IOServicePool(size)
unfoldable pub make : ℕ → IoServicePool
make size = record {
  size = size;
  works = replicate size true;
  threads = replicate size true;
  next_io_service = 0;
}

unfoldable pub get_io_service : IoServicePool → Option (ℕ × IoServicePool)
get_io_service pool =
    let sev = pool.next_io_service in
    let next = if sev + 1 == pool.size then 0 else sev + 1 in
    if ltb sev pool.size then some (sev, record pool { next_io_service = next }) else none

-- So many calls of getIOService, one after the other.
unfoldable pub get_io_services : ℕ → IoServicePool → Option (List ℕ × IoServicePool)
unfolding get_io_service
get_io_services zero pool = some ([], pool)
get_io_services (suc calls) pool =
    Option.bind (get_io_service pool)
      λ (sev, pool'). Option.map (λ (sevs, last). (sev ∷ sevs, last)) (get_io_services calls pool')

-- Whether each of the first services has no operation left.
unfoldable pub are_idle : (ℕ → ℕ) → ℕ → Bool
are_idle pending zero = true
are_idle pending (suc size) = pending size == 0 && are_idle pending size

-- stop, where `pending` counts the operations of a service that have not completed. `run` returns,
-- once the guard is reset, when its service has none left; `none` is a join that waits for that.
unfoldable pub stop : (ℕ → ℕ) → IoServicePool → Option IoServicePool
unfolding are_idle
stop pending pool =
    if are_idle pending pool.size
    then some (record pool {
      works = map (λ w. false) pool.works;
      threads = map (λ t. false) pool.threads;
    })
    else none
