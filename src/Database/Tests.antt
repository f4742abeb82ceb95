-- ===== src/Database/Tests.antt =====
-- A database that opens, answers and is migrated.
use corncrake.Prelude.{◌≡◌, refl, []}
use corncrake.Sql.{done}
use corncrake.Sql.Backend.{postgres}
use corncrake.Sql.Postgres
use corncrake.Sql.Table.{DbServer, running, db_server}
use corncrake.Database.{DbConfig, Connector, postgres_backend, new_store}

abbrev connector : Connector DbServer
connector = record {
  db = db_server postgres;
  open_db = λ name dsn. done (running []);
  ping = λ db. done tt;
  quote = λ s. s;
}

abbrev config : DbConfig
config = record { driver = "postgres"; dsn = "postgres://localhost/ehecs" }

started : new_store connector config ≡ done (postgres_backend (running []))
unfolding new_store Postgres.new_store
started = refl
