-- ===== src/Server/Start/Tests.antt =====
-- A server that starts with SQL Server and a secret.
use corncrake.Prelude.{ℕ, ◌≡◌, refl, ◌≢◌, ◌⊎◌, String, some, none, [], ◌==◌, if◌then◌else◌}
use corncrake.SliceSort.Insertion.{sort_by_insertion, entry_order}
use corncrake.Auth.{AuthConfig}
use corncrake.Sql.{done}
use corncrake.Sql.Backend.{sqlserver}
use corncrake.Sql.SqlServer
use corncrake.Sql.Table.{DbServer, running, db_server, empty_json}
use corncrake.Database.{Connector, Backend, sqlserver_backend, db_config_from_env, new_store}
use corncrake.Database.Choice.{Chosen}
use corncrake.Server.{routed, create_endpoint}
use corncrake.Server.Keys.{rsa_public, no_pem_block, with_secret, build_auth_config}
use corncrake.Server.Start.{World, Server, server_of, start}
use corncrake.Server.Started.{started_server}
use corncrake.Samples.{registry, unmarshal_meta, url_param, jwt_at}

abbrev connector : Connector DbServer
connector = record {
  db = db_server sqlserver;
  open_db = λ name dsn. done (running []);
  ping = λ db. done tt;
  quote = λ s. s;
}

abbrev world : World ℕ DbServer
world = record {
  parse = λ pem. no_pem_block;
  connector = connector;
  sorter = sort_by_insertion;
  order = entry_order;
  json = empty_json;
  jwt = jwt_at;
  real_ip = λ req. req;
  route = λ req. routed create_endpoint url_param;
}

abbrev environment : String → String
environment key =
    if key == "DB_DRIVER"
    then "mssql"
    else if key == "DATABASE_URL"
    then "sqlserver://db:1433"
    else if key == "JWT_SECRET"
    then "a secret"
    else ""

abbrev server : Server ℕ
server =
    server_of world registry unmarshal_meta environment (with_secret "a secret")
      (sqlserver_backend (running []))

starts : start world registry unmarshal_meta environment ≡ some server
unfolding start build_auth_config new_store SqlServer.new_store
starts = refl

started_server_example :
    (cfg : AuthConfig ℕ) × (b : Backend DbServer) × (server
      ≡ server_of world registry unmarshal_meta environment cfg b)
    × Chosen connector (db_config_from_env environment) b
    × (((◌≡◌ {A = String} "" "" → ⊥)
          × ((k : ℕ) × (world.parse "" ≡ rsa_public k) × (cfg.rsa_public_key ≡ some k)))
        ⊎ ((◌≡◌ {A = String} "" "") × (cfg.rsa_public_key ≡ none) × (cfg.hmac_secret ≢ "")))
started_server_example = started_server world registry unmarshal_meta environment starts
