-- ===== src/Main/Starting.antt =====
-- What `main` of main.cpp starts.
use ey_ps.Prelude.{ℕ, ◌<◌, ◌%◌, ◌≡◌, refl, sym, ap, ◌∙◌, true, false, [], ◌∷◌, none, some}
use ey_ps.Packet.Head.{PacketHead}
use ey_ps.Logger
use ey_ps.Logger.{Logger, no_logger, console_sink}
use ey_ps.Config.{Config, blank}
use ey_ps.Config.Loading.{Describes, init_cig_complete}
use ey_ps.Database.Manager.{init_data_base}
use ey_ps.Pool
use ey_ps.Pool.{IoServicePool, get_io_service, are_idle}
use ey_ps.Pool.Turns.{service-turn}
use ey_ps.Http.Listener
use ey_ps.Http.Listener.{HttpServer, Errors}
use ey_ps.Game.Ikcp.{Ikcp}
use ey_ps.Main.{World, Process, Keys, load_keys, open_servers, main, get_inst}
use mathlib.Core.Option
use native.Mathlib.Nat.{mod-eq_of_lt}

-- The first service of a pool, and the second.
first-service :
    (size : ℕ)
    → 0 < size
    → get_io_service (Pool.make size)
      ≡ some (0, record (Pool.make size) { next_io_service = 1 % size })
unfolding Pool.make
first-service size h =
    let e : 0 % size ≡ 0 = mod-eq_of_lt h in
    sym (ap (λ n. get_io_service (record (Pool.make size) { next_io_service = n })) e)
    ∙ service-turn (Pool.make size) h 0
    ∙ ap (λ n. some (n, record (Pool.make size) { next_io_service = 1 % size })) e

second-service :
    (size : ℕ)
    → 0 < size
    → get_io_service (record (Pool.make size) { next_io_service = 1 % size })
      ≡ some (1 % size, record (Pool.make size) { next_io_service = 2 % size })
unfolding Pool.make
second-service size h = service-turn (Pool.make size) h 1

abbrev pub no_errors : Errors
no_errors = record {
  open_error = false;
  set_option_error = false;
  bind_error = false;
  listen_error = false;
}

module _ {ik : Ikcp} {head : PacketHead} where
  -- What runs after a start without failures: an HTTP server that listens on the dispatch address and
  -- waits for its first connection, and a game server with its socket on the game address, each on
  -- a service of the pool.
  pub record Serves (c : Config) (loaded : Keys) (address address' size : ℕ) (p : Process ik head)
      : Type 0 where
    pub config : p.config ≡ c
    pub keys : p.keys ≡ loaded
    pub database_manager :
        p.database_manager
        ≡ record { connection_uri = c.connection_uri; collection = c.collection; pool_uri = none }
    pub http_endpoint : p.http_endpoint ≡ record { address = address; port = c.dispatch_port }
    pub listening : p.http.listening ≡ true
    pub accepting : p.http.accepting ≡ 1
    pub failures : p.http.failures ≡ []
    pub http_service : p.http_service ≡ 0
    pub game_endpoint : p.game_endpoint ≡ record { address = address'; port = c.game_port }
    pub clients : p.game.clients ≡ []
    pub game_service : p.game_service ≡ 1 % size

  abbrev pub serving : Config → Keys → ℕ → ℕ → ℕ → Process ik head
  serving c loaded address address' size = record {
    logger = record { sinks = console_sink ∷ []; level = 0 };
    config = c;
    keys = loaded;
    database_manager = record {
      connection_uri = c.connection_uri;
      collection = c.collection;
      pool_uri = none;
    };
    pool = record (Pool.make size) { next_io_service = 2 % size };
    http = record {
      is_open = true;
      reuse_address = true;
      bound = true;
      listening = true;
      accepting = 1;
      sessions = [];
      failures = [];
    };
    http_endpoint = record { address = address; port = c.dispatch_port };
    http_service = 0;
    game = record { clients = []; freed = [] };
    game_endpoint = record { address = address'; port = c.game_port };
    game_service = 1 % size;
    http_operations = 0;
    receiving = true;
    stopped = false;
  }

  -- The program starts its two servers: where the three key files can be read, psconfig.lua holds the
  -- nine values, the two addresses parse, the certificate is found, the pool has a service, and the
  -- acceptor's calls and the UDP socket do not fail, `main` comes to run with the configuration of
  -- the file, the database of the file, the HTTP server listening on the dispatch address and port
  -- on the first service, and the game server on the game address and port on the next one.
  pub main-Serves :
      (w : World) (c : Config) (keys : Keys) (address address' : ℕ)
      → load_keys w.read_file ≡ some keys
      → Describes w.lua c
      → w.make_address c.dispatch_addr ≡ some address
      → w.make_address c.game_addr ≡ some address'
      → w.has_certificate ≡ true
      → 0 < w.hardware_concurrency
      → w.listen_errors (record { address = address; port = c.dispatch_port }) ≡ no_errors
      → w.binds (record { address = address'; port = c.game_port }) ≡ true
      → (p : Process ik head) × (main w ≡ some p)
        × Serves c keys address address' w.hardware_concurrency p
  unfolding main open_servers get_inst Logger.init Option.bind Listener.make Listener.run
      Listener.do_accept init_data_base
  main-Serves w c keys address address' k d a a' cert h l b =
      let (stack, loaded, grown) = init_cig_complete w.lua blank c [] d in
      let size = w.hardware_concurrency in
      (
        serving c keys address address' size,
        rw (k, loaded, a, a', cert, first-service size h, second-service size h, b, l) refl,
        record {
          config = refl;
          keys = refl;
          database_manager = refl;
          http_endpoint = refl;
          listening = refl;
          accepting = refl;
          failures = refl;
          http_service = refl;
          game_endpoint = refl;
          clients = refl;
          game_service = refl;
        },
      )
