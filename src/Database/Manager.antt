-- ===== src/Database/Manager.antt =====
-- `databaseManager` of database/databaseManager.h and database/databaseManager.cpp. The drivers' URI
-- and pool are static in createClient: the first call that does not throw makes them for good.
use ey_ps.Prelude.{ℕ, Bool, List, [], Option, none, some, if◌then◌else◌}
use ey_ps.Config.{Config}

pub record DatabaseManager : Type 0 where
  pub connection_uri : List ℕ
  pub collection : List ℕ
  -- The URI of the pool, once it was made.
  pub pool_uri : Option (List ℕ)

-- databaseManager()
abbrev pub no_manager : DatabaseManager
no_manager = record { connection_uri = []; collection = []; pool_uri = none }

-- Where a collection is: the client's URI, the database and the name.
pub record Collection : Type 0 where
  pub uri : List ℕ
  pub database : List ℕ
  pub name : List ℕ

unfoldable pub init_data_base : Config → DatabaseManager → DatabaseManager
init_data_base config manager = record manager {
  connection_uri = config.connection_uri;
  collection = config.collection;
}

abbrev pub acquire :
    (List ℕ → Bool) → Option (List ℕ) → DatabaseManager → Option (List ℕ × DatabaseManager)
acquire is_uri none manager =
    let uri = manager.connection_uri in
    if is_uri uri then some (uri, record manager { pool_uri = some uri }) else none
acquire is_uri (some uri) manager = some (uri, manager)

-- createClient: the URI that the client is connected to. `is_uri` says for which strings the
-- constructor of mongocxx::uri does not throw; `none` is its exception.
unfoldable pub create_client : (List ℕ → Bool) → DatabaseManager → Option (List ℕ × DatabaseManager)
create_client is_uri manager = acquire is_uri manager.pool_uri manager

unfoldable pub threadfunc : List ℕ → List ℕ → DatabaseManager → Collection
threadfunc client coll_name manager = record {
  uri = client;
  database = manager.collection;
  name = coll_name;
}
