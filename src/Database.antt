-- ===== src/Database.antt =====
-- internal/services/db.go: the choice of the backend. What it uses of `database/sql` is a parameter.
pub mod Choice
mod Tests
use corncrake.Prelude.{◌||◌, String, Bool, Option, none, some, ◌==◌, if◌then◌else◌}
use corncrake.Text.{◌<>◌}
use corncrake.Server.{env_or_default}
use corncrake.Sql.Postgres
use corncrake.Sql.SqlServer
use corncrake.Sql.{Attempt, done, failed, Database}

pub record DbConfig : Type 0 where
  pub driver : String
  pub dsn : String

abbrev pub db_config_from_env : (String → String) → DbConfig
db_config_from_env getenv = record {
  driver = env_or_default getenv "DB_DRIVER" "memory";
  dsn = getenv "DATABASE_URL";
}

abbrev pub wrapped : {A B : Type 0} → String → Attempt A → (A → Attempt B) → Attempt B
wrapped what (done a) f = f a
wrapped what (failed e) f = failed (what <> e)

-- The store that is started, with the database of a SQL store.
pub data Backend (D : Type 0) : Type 0 where
  memory_backend : Backend D
  postgres_backend sqlserver_backend : D → Backend D

-- `open_db` is `sql.Open` with the driver's name, `ping` is `db.Ping`, and `quote` is `%q`.
pub record Connector (D : Type 0) : Type 0 where
  pub db : Database D
  pub open_db : String → String → Attempt D
  pub ping : D → Attempt (Unit {0})
  pub quote : String → String

module _ {D : Type 0} (c : Connector D) where
  -- The two cases of the switch that connect to a database.
  abbrev pub connect : String → (D → Attempt D) → (D → Backend D) → String → Attempt (Backend D)
  connect name new backend dsn =
      if dsn == ""
      then failed ("DATABASE_URL is required for DB_DRIVER=" <> name)
      else wrapped (name <> ": open: ") (c.open_db name dsn) (λ db.
        wrapped (name <> ": ping: ") (c.ping db)
          (λ u. wrapped (name <> ": init: ") (new db) (λ store. done (backend store))))

  unfoldable pub new_store : DbConfig → Attempt (Backend D)
  new_store cfg =
      if cfg.driver == "memory" || cfg.driver == ""
      then done memory_backend
      else if cfg.driver == "postgres"
      then connect "postgres" (Postgres.new_store c.db) postgres_backend cfg.dsn
      else if cfg.driver == "sqlserver" || cfg.driver == "mssql"
      then connect "sqlserver" (SqlServer.new_store c.db) sqlserver_backend cfg.dsn
      else failed (
          "unsupported DB_DRIVER "
          <> c.quote cfg.driver
          <> " — must be memory, postgres, or sqlserver")
