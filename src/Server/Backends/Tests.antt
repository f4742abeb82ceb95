-- ===== src/Server/Backends/Tests.antt =====
-- A server over the concrete database, with the survey of the samples.
use corncrake.Prelude.{ℕ, some, []}
use corncrake.GoMap
use corncrake.SliceSort.Insertion.{sort_by_insertion}
use corncrake.Store.Ledger.{Ledger}
use corncrake.Tenant
use corncrake.Tenant.{Tenant}
use corncrake.RateLimit.{new_rate_limiter}
use corncrake.Revocation.{new_revocation_store}
use corncrake.Sql.Backend.{postgres, sql_store}
use corncrake.Sql.Table.{DbServer, running, db_server, empty_json}
use corncrake.Store.{CreateParams}
use corncrake.Server.{Config, State, serve}
use corncrake.Http.{Request}
use corncrake.Sql.Postgres
use corncrake.Server.Trace.Tests.{by_method}
use corncrake.Server.Tests.{clock, signed_request}
use corncrake.Samples.{client, params, registry, unmarshal_meta, jwt_at}

abbrev server : Config DbServer ℕ
server = record {
  getenv = λ key. "";
  real_ip = λ req. req;
  route = by_method;
  jwt = jwt_at;
  hmac_secret = "";
  rsa_public_key = some 7;
  store = sql_store postgres (db_server postgres) sort_by_insertion empty_json;
  registry = registry;
  unmarshal_meta = unmarshal_meta;
}

abbrev state : State DbServer
state = record {
  limiter = new_rate_limiter 1 30;
  revoked = new_revocation_store;
  submissions = running [];
}

-- The request as it comes to `Create`, and what it leads to there.
abbrev seen_request : Request
seen_request = record signed_request { client = some (record client { software_version = "pay" }) }

abbrev seen_params : CreateParams
seen_params = record params { client = record client { software_version = "pay" } }

abbrev after_create : State DbServer
after_create = (serve server clock signed_request state).1
