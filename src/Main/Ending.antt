-- ===== src/Main/Ending.antt =====
-- What the signal handler of main.cpp ends.
use ey_ps.Prelude.{
  map, ◌⊎◌, [], ℕ, zero, suc, ◌+◌, ◌<◌, ◌≤◌, ◌≡◌, inl, inr, refl, sym, ap, subst, ◌∙◌, Bool, true,
  false, ◌&&◌, List, [], none, some, ◌==◌, ==_refl, ltb, Bool-cases, if◌then◌else◌, arith,
}
use ey_ps.Prelude.Bytes.{codes}
use ey_ps.Prelude.Options.{of_some, none-ne-some, bind-eq-some}
use ey_ps.Packet.Head.{PacketHead}
use ey_ps.Logger
use ey_ps.Logger.{Logger, no_logger, console_sink}
use ey_ps.Config.{Config, blank, init_cig}
use ey_ps.Pool
use ey_ps.Pool.{IoServicePool, get_io_service, are_idle}
use ey_ps.Http.Listener.{HttpServer}
use ey_ps.Game.Ikcp.{Ikcp}
use ey_ps.Game.Server.Life.{GameServer}
use native.Mathlib.Decide.{dec_lt}
use ey_ps.Main.{World, Process, Keys, load_keys, open_servers, main, pending, on_signal, get_inst}

and-false : (b : Bool) → (b && false) ≡ false
and-false true = refl
and-false false = refl

-- A service with an operation keeps its pool from ending.
busy :
    (pending : ℕ → ℕ) (service size : ℕ)
    → service < size
    → 1 ≤ pending service
    → are_idle pending size ≡ false
unfolding are_idle
busy pending service zero h n = absurd (omega (arith, h))
busy pending service (suc size) h n = elim (Bool-cases (ltb service size)) [
  | inl e ↦
      let below : service < size = ground arith in
      let rest = busy pending service size below n in
      ap (λ b. (pending size == 0) && b) rest ∙ and-false (pending size == 0)
  | inr e ↦
      let last : service ≡ size = ground arith in
      let some' : 1 ≤ pending size = subst (λ x. 1 ≤ pending x) last n in
      let working : (pending size == 0) ≡ false = ground arith in
      ap (λ b. b && are_idle pending size) working
]

-- A pool whose services have none is idle.
idle :
    (pending : ℕ → ℕ) (size : ℕ)
    → ((service : ℕ) → pending service ≡ 0)
    → are_idle pending size ≡ true
unfolding are_idle
idle pending zero h = refl
idle pending (suc size) h =
    let none' : (pending size == 0) ≡ true = ap (λ n. n == 0) (h size) ∙ ==_refl 0 in
    ap (λ b. b && are_idle pending size) none' ∙ idle pending size h

-- A service that was given out is one of its pool.
given :
    (pool : IoServicePool) (service : ℕ) (pool' : IoServicePool)
    → get_io_service pool ≡ some (service, pool')
    → (service < pool.size) × (pool'.size ≡ pool.size)
unfolding get_io_service
given pool service pool' e = elim (Bool-cases (ltb pool.next_io_service pool.size)) [
  | inl h ↦
      let is_below : pool.next_io_service < pool.size = ground arith in
      let next : ℕ =
        if pool.next_io_service + 1 == pool.size then 0 else pool.next_io_service + 1 in
      let found : some (pool.next_io_service, record pool { next_io_service = next })
          ≡ some (service, pool') =
        sym (rw h) ∙ e in
      subst (λ (x : ℕ × IoServicePool). (x.0 < pool.size) × (x.1.size ≡ pool.size)) (of_some found)
        (is_below, refl)
  | inr h ↦ absurd (none-ne-some (sym (rw h) ∙ e))
]

certified :
    (b : Bool) (pool : IoServicePool) (service : ℕ) (pool' : IoServicePool)
    → (if b then get_io_service pool else none) ≡ some (service, pool')
    → get_io_service pool ≡ some (service, pool')
certified true pool service pool' e = e
certified false pool service pool' e = absurd (none-ne-some e)

module _ {ik : Ikcp} {head : PacketHead} where
  -- Both servers are on services of the pool.
  abbrev Placed : Process ik head → Type 0
  Placed p = (p.http_service < p.pool.size) × (p.game_service < p.pool.size)

  bound :
      (b : Bool) (x p : Process ik head)
      → (if b then some x else none) ≡ some p
      → Placed x
      → Placed p
  bound true x p e h = subst Placed (of_some e) h
  bound false x p e h = absurd (none-ne-some e)

  opened-Placed :
      (w : World) (logger : Logger) (keys : Keys) (config : Config) (p : Process ik head)
      → open_servers w logger keys config ≡ some p
      → Placed p
  unfolding open_servers get_inst
  opened-Placed w logger keys config p e =
      let pool = Pool.make w.hardware_concurrency in
      let (address, e1, f1) = bind-eq-some (w.make_address config.dispatch_addr) _ e in
      let (address', e2, f2) = bind-eq-some (w.make_address config.game_addr) _ f1 in
      let ((service, pool'), e3, f3) = bind-eq-some {A = ℕ × IoServicePool} _ _ f2 in
      let ((service', pool''), e4, f4) =
        bind-eq-some {A = ℕ × IoServicePool} (get_io_service pool') _ f3 in
      let (first, size') =
        given pool service pool' (certified w.has_certificate pool service pool' e3) in
      let (second, size'') = given pool' service' pool'' e4 in
      bound (w.binds (record { address = address'; port = config.game_port })) _ p f4
        (omega (arith, first, size', size''), omega (arith, second, size''))

  main-Placed : (w : World) (p : Process ik head) → main w ≡ some p → Placed p
  unfolding main get_inst
  main-Placed w p e =
      let (logger, e1, f1) = bind-eq-some (Logger.init (codes "test.log") 0 0 1 1 no_logger) _ e in
      let (keys, e2, f2) = bind-eq-some (load_keys w.read_file) _ f1 in
      let ((config, stack), e3, f3) =
        bind-eq-some {A = Config × List w.lua.Value} (init_cig w.lua blank []) _ f2 in
      opened-Placed w logger keys config p f3

  -- The pool without its guards, its threads joined.
  abbrev pub ended : Process ik head → Process ik head
  ended p = record p {
    stopped = true;
    pool = record p.pool {
      works = map (λ w. false) p.pool.works;
      threads = map (λ t. false) p.pool.threads;
    };
  }

  waits :
      (p : Process ik head) (service : ℕ)
      → service < p.pool.size
      → 1 ≤ pending p service
      → on_signal p ≡ none
  unfolding on_signal Pool.stop
  waits p service h n = rw (busy (pending p) service p.pool.size h n)

  -- One operation at least on the service of the HTTP server, or of the game server.
  http_pending :
      (p : Process ik head)
      → 1 ≤ p.http.accepting + p.http_operations
      → 1 ≤ pending p p.http_service
  http_pending p h =
      let all : ◌≡◌ {A = ℕ}
          (if p.http_service == p.http_service then p.http.accepting + p.http_operations else 0)
          (p.http.accepting + p.http_operations) =
        ap {A = Bool} {B = ℕ} (λ b. if b then p.http.accepting + p.http_operations else 0)
          (==_refl p.http_service) in
      omega (arith, h, all)

  game_pending : (p : Process ik head) → p.receiving ≡ true → 1 ≤ pending p p.game_service
  game_pending p h =
      let one : ◌≡◌ {A = ℕ}
          (if p.receiving then (if p.game_service == p.game_service then 1 else 0) else 0) 1 =
        ap {A = Bool} {B = ℕ}
          (λ b. if b then (if p.game_service == p.game_service then 1 else 0) else 0) h
        ∙ ap {A = Bool} {B = ℕ} (λ b. if b then 1 else 0) (==_refl p.game_service) in
      omega (arith, one)

  none_pending :
      (p : Process ik head)
      → p.http.accepting + p.http_operations ≡ 0
      → p.receiving ≡ false
      → (service : ℕ) → pending p service ≡ 0
  none_pending p h r service =
      let zero_if : (b : Bool) → ◌≡◌ {A = ℕ} (if b then 0 else 0) 0 = zero_either in
      let http : ◌≡◌ {A = ℕ}
          (if p.http_service == service then p.http.accepting + p.http_operations else 0) 0 =
        ap {A = ℕ} {B = ℕ} (λ n. if p.http_service == service then n else 0) h
        ∙ zero_if (p.http_service == service) in
      let game : ◌≡◌ {A = ℕ}
          (if p.receiving then (if p.game_service == service then 1 else 0) else 0) 0 =
        ap {A = Bool} {B = ℕ} (λ b. if b then (if p.game_service == service then 1 else 0) else 0)
          r in
      omega (arith, http, game)
    where
      zero_either : (b : Bool) → ◌≡◌ {A = ℕ} (if b then 0 else 0) 0
      zero_either true = refl
      zero_either false = refl

  abbrev later : Process ik head → HttpServer → ℕ → GameServer ik head → Bool → Process ik head
  later p http operations game receiving = record p {
    http = http;
    http_operations = operations;
    game = game;
    receiving = receiving;
  }

  -- Once the program has started, whichever state its two servers have come to: its handler of SIGINT
  -- and SIGTERM waits as long as AsyncRec is in its loop, the HTTP server accepts, or one of its
  -- connections waits for something. Only where AsyncRec has left its loop by an exception, the HTTP
  -- server has stopped accepting and no connection is open, it ends the pool and returns.
  pub on_signal_exact :
      (w : World) (p : Process ik head) (http : HttpServer) (operations : ℕ)
      (game : GameServer ik head) (receiving : Bool)
      → main w ≡ some p
      → (((receiving ≡ true) ⊎ (1 ≤ http.accepting + operations))
          × (on_signal (record p {
            http = http;
            http_operations = operations;
            game = game;
            receiving = receiving;
          })
              ≡ none))
        ⊎ ((receiving ≡ false)
            × (http.accepting ≡ 0)
            × (operations ≡ 0)
            × (on_signal (record p {
              http = http;
              http_operations = operations;
              game = game;
              receiving = receiving;
            })
                ≡ some (
                    ended (record p {
                      http = http;
                      http_operations = operations;
                      game = game;
                      receiving = receiving;
                    }))))
  unfolding on_signal Pool.stop
  on_signal_exact w p http operations game true e =
      let q = later p http operations game true in
      inl (inl refl, waits q p.game_service (main-Placed w p e).1 (game_pending q refl))
  on_signal_exact w p http operations game false e =
      let q = later p http operations game false in
      elim (dec_lt 0 (http.accepting + operations)) [
        | yes some' ↦ inl (
          inr (omega (arith, some')),
          waits q p.http_service (main-Placed w p e).0 (http_pending q (omega (arith, some'))),
        )
        | no none' ↦
            let free = idle (pending q) p.pool.size (none_pending q (omega (arith, none')) refl) in
            inr (refl, omega (arith, none'), omega (arith, none'), rw free)
      ]
