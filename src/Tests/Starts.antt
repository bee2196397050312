-- ===== src/Tests/Starts.antt =====
-- Runs of the start of the program and of its end.
use ey_ps.Prelude.{ℕ, ◌+◌, ◌≤◌, ◌⊎◌, ◌≡◌, refl, true, false, [], none, some, arith}
use ey_ps.Prelude.Bytes.{codes}
use ey_ps.Config
use ey_ps.Database.Manager
use ey_ps.Pool
use ey_ps.Logger
use ey_ps.Http.Listener
use ey_ps.Main.{World, Process, Keys, main, load_keys, on_signal}
use ey_ps.Main.Starting.{no_errors, serving, Serves, main-Serves}
use ey_ps.Main.Ending.{on_signal_exact, ended}
use ey_ps.Tests.Fixtures.{whole_ik, pair_head}
use ey_ps.Tests.Services.{lua, described, lua-Describes}
use mathlib.Core.Option

-- A machine with four processors on which nothing fails.
abbrev machine : World
machine = record {
  read_file = λ name. some name;
  lua = lua;
  make_address = λ text. some 1;
  hardware_concurrency = 4;
  has_certificate = true;
  listen_errors = λ ep. no_errors;
  binds = λ ep. true;
}

abbrev some_keys : Keys
some_keys = record {
  dispatch_key = codes "../resources/keys/dispatchKey.bin";
  dispatch_seed = codes "../resources/keys/dispatchSeed.bin";
  secret_key_buffer = codes "../resources/keys/secretKeyBuffer.bin";
}

main-Serves_example :
    (p : Process whole_ik pair_head) × (main machine ≡ some p) × Serves described some_keys 1 1 4 p
unfolding load_keys Option.bind
main-Serves_example =
    main-Serves machine described some_keys 1 1 refl lua-Describes refl refl refl (omega arith) refl
      refl

-- The first process, once both its servers have ended by errors and no connection is open.
abbrev quiet : Process whole_ik pair_head
quiet = record (serving {ik = whole_ik} {head = pair_head} described some_keys 1 1 4) {
  http = Listener.blank;
  http_operations = 0;
  game = record { clients = []; freed = [] };
  receiving = false;
}

on_signal_exact_example :
    (((quiet.receiving ≡ true) ⊎ (1 ≤ quiet.http.accepting + 0)) × (on_signal quiet ≡ none))
    ⊎ ((quiet.receiving ≡ false)
        × (quiet.http.accepting ≡ 0)
        × (◌≡◌ {A = ℕ} 0 0)
        × (on_signal quiet ≡ some (ended quiet)))
unfolding main ey_ps.Main.open_servers ey_ps.Main.get_inst ey_ps.Main.load_keys Option.bind
    ey_ps.Config.init_cig ey_ps.Config.get_val_from_table ey_ps.Config.take_top
    ey_ps.Config.get_fields ey_ps.Config.◌>>=◌ Logger.init Listener.make Listener.run
    Listener.do_accept Pool.make Pool.get_io_service ey_ps.Database.Manager.init_data_base
on_signal_exact_example =
    on_signal_exact machine (serving described some_keys 1 1 4) Listener.blank 0
      (record { clients = []; freed = [] }) false refl
