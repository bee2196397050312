-- ===== src/Main.antt =====
-- main.cpp and util/Singleton.h: how the program is put together and ended, with the keys that
-- util/psConfig.cpp loads. `none` is an exception that nothing catches, undefined behaviour, or a
-- join that waits.
pub mod Starting
pub mod Ending
use ey_ps.Prelude.{
  ℕ, zero, suc, ◌+◌, ◌==◌, Bool, true, false, ◌&&◌, List, [], Option, none, some, if◌then◌else◌,
}
use ey_ps.Prelude.Bytes.{codes}
use ey_ps.Packet.Head.{PacketHead}
use ey_ps.Logger
use ey_ps.Logger.{Logger, no_logger}
use ey_ps.Config.{Lua, Config, blank, init_cig}
use ey_ps.Database.Manager.{DatabaseManager, no_manager, init_data_base}
use ey_ps.Pool
use ey_ps.Pool.{IoServicePool, get_io_service}
use ey_ps.Http.Listener
use ey_ps.Http.Listener.{HttpServer, Errors}
use ey_ps.Game.Ikcp.{Ikcp}
use ey_ps.Game.Kcp.{Endpoint}
use ey_ps.Game.Server.Life.{GameServer}
use mathlib.Core.Option

-- Singleton::getInst: `m_ptr` is made at the first call.
unfoldable pub get_inst : {T : Type 0} → T → Option T → T × Option T
get_inst new none = (new, some new)
get_inst new (some instance') = (instance', some instance')

pub record Keys : Type 0 where
  pub dispatch_key : List ℕ
  pub dispatch_seed : List ℕ
  pub secret_key_buffer : List ℕ

-- What the surroundings of the program decide.
pub record World : Type 1 where
  -- What a file holds; `none` if it cannot be opened, where ReadFile_ reads to a null pointer.
  pub read_file : List ℕ → Option (List ℕ)
  -- The Lua state after psconfig.lua has run.
  pub lua : Lua
  -- asio::ip::make_address, which may throw
  pub make_address : List ℕ → Option ℕ
  -- hardware_concurrency()
  pub hardware_concurrency : ℕ
  -- Whether load_certificate finds its files.
  pub has_certificate : Bool
  -- What the calls of the acceptor set their error codes to, and whether the UDP socket is opened.
  pub listen_errors : Endpoint → Errors
  pub binds : Endpoint → Bool

-- loadKeys
unfoldable pub load_keys : (List ℕ → Option (List ℕ)) → Option Keys
load_keys read_file =
    Option.bind (read_file (codes "../resources/keys/dispatchKey.bin")) λ dispatch_key.
      Option.bind (read_file (codes "../resources/keys/dispatchSeed.bin")) λ dispatch_seed.
        Option.bind (read_file (codes "../resources/keys/secretKeyBuffer.bin")) λ secret_key_buffer.
          some (record {
            dispatch_key = dispatch_key;
            dispatch_seed = dispatch_seed;
            secret_key_buffer = secret_key_buffer;
          })

-- What the objects of `main` and the singletons are while the program runs. A service is its place in
-- the pool.
pub record Process (ik : Ikcp) (head : PacketHead) : Type 0 where
  pub logger : Logger
  pub config : Config
  pub keys : Keys
  pub database_manager : DatabaseManager
  pub pool : IoServicePool
  pub http : HttpServer
  pub http_endpoint : Endpoint
  pub http_service : ℕ
  pub game : GameServer ik head
  pub game_endpoint : Endpoint
  pub game_service : ℕ
  -- The operations that the open HTTP connections wait for, on the service of their server.
  pub http_operations : ℕ
  -- Whether AsyncRec is still in its loop, where it waits in async_receive_from; see `async_rec`.
  pub receiving : Bool
  -- Whether io_context.stop() was called, after which `main` returns.
  pub stopped : Bool

module _ {ik : Ikcp} {head : PacketHead} where
  -- The end of `main`, from the addresses on.
  unfoldable pub open_servers : World → Logger → Keys → Config → Option (Process ik head)
  open_servers w logger keys config =
      let manager = init_data_base config (get_inst no_manager none).0 in
      let pool = (get_inst (Pool.make w.hardware_concurrency) none).0 in
      Option.bind (w.make_address config.dispatch_addr) λ address.
        Option.bind (w.make_address config.game_addr) λ address'.
          Option.bind (if w.has_certificate then get_io_service pool else none) λ (service, pool').
            Option.bind (get_io_service pool') λ (service', pool'').
              let ep : Endpoint = record { address = address; port = config.dispatch_port } in
              let ep' : Endpoint = record { address = address'; port = config.game_port } in
              if w.binds ep'
              then some (record {
                logger = logger;
                config = config;
                keys = keys;
                database_manager = manager;
                pool = pool'';
                http = Listener.run (Listener.make (w.listen_errors ep));
                http_endpoint = ep;
                http_service = service;
                game = record { clients = []; freed = [] };
                game_endpoint = ep';
                game_service = service';
                http_operations = 0;
                receiving = true;
                stopped = false;
              })
              else none

  -- main, up to io_context.run()
  unfoldable pub main : World → Option (Process ik head)
  main w =
      Option.bind (Logger.init (codes "test.log") 0 0 1 1 (get_inst no_logger none).0) λ logger.
        Option.bind (load_keys w.read_file) λ keys.
          Option.bind (init_cig w.lua (get_inst blank none).0 [])
            λ (config, stack). open_servers w logger keys config

  -- The operations of a service that have been started and have not completed: the accepts of the
  -- HTTP server and what its connections wait for, and async_receive_from until AsyncRec has left its
  -- loop.
  abbrev pub pending : Process ik head → ℕ → ℕ
  pending p service =
      (if p.http_service == service then p.http.accepting + p.http_operations else 0)
      + (if p.receiving then (if p.game_service == service then 1 else 0) else 0)

  -- The handler of SIGINT and SIGTERM.
  unfoldable pub on_signal : Process ik head → Option (Process ik head)
  on_signal p =
      Option.map (λ pool. record p { stopped = true; pool = pool }) (Pool.stop (pending p) p.pool)
