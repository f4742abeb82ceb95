-- ===== src/Server/Start.antt =====
-- `main` of main.go, up to the listener: what the server is put together from.
mod Tests
use corncrake.Prelude.{◌≡◌, refl, ◌⊎◌, inl, inr, sym, ◌∙◌, String, Option, none, some, Option-cases}
use corncrake.SliceSort.{SliceSort, RangeOrder}
use corncrake.Models.{Time, RawMessage, SubmissionRecord, SubmissionSummary}
use corncrake.Store.{SubmissionStore}
use corncrake.Store.Memory.{memory_store, new_memory_store}
use corncrake.Tenant.{Registry}
use corncrake.RateLimit.{new_rate_limiter}
use corncrake.Revocation.{new_revocation_store}
use corncrake.Auth.{AuthConfig}
use corncrake.Auth.Tokens.{Jwt}
use corncrake.Http.{Request}
use corncrake.Handlers.Submissions.{SubmissionMeta}
use corncrake.Sql.{Attempt, done, failed, WarningsJson}
use corncrake.Sql.Postgres.{postgres_store}
use corncrake.Sql.SqlServer.{sqlserver_store}
use corncrake.Database.{
  DbConfig, db_config_from_env, Backend, memory_backend, postgres_backend, sqlserver_backend,
  Connector, new_store,
}
use corncrake.Database.Choice.{Chosen, new_store-Chosen}
use corncrake.Server.{Routed, Config, State}
use corncrake.Server.Keys.{KeyParse, build_auth_config}

-- What is not under the repository's control.
pub record World (PublicKey D : Type 0) : Type 0 where
  pub parse : String → KeyParse PublicKey
  pub connector : Connector D
  pub sorter : SliceSort SubmissionSummary
  pub order : RangeOrder (String × SubmissionRecord)
  pub json : WarningsJson
  pub jwt : Time → Jwt PublicKey
  pub real_ip : Request → Request
  pub route : Request → Routed

-- A server over its kind of store.
pub record Server (PublicKey : Type 0) : Type 1 where
  pub S : Type 0
  pub config : Config S PublicKey
  pub state : State S

module _ {PublicKey D : Type 0} (w : World PublicKey D) (registry : Registry)
    (unmarshal_meta : RawMessage → SubmissionMeta) (getenv : String → String) where
  -- One token a second for each address, thirty at most, and no revoked token.
  abbrev pub server_with :
      {S : Type 0} → AuthConfig PublicKey → SubmissionStore S → S → Server PublicKey
  server_with {S} cfg store s = record {
    S = S;
    config = record {
      getenv = getenv;
      real_ip = w.real_ip;
      route = w.route;
      jwt = w.jwt;
      hmac_secret = cfg.hmac_secret;
      rsa_public_key = cfg.rsa_public_key;
      store = store;
      registry = registry;
      unmarshal_meta = unmarshal_meta;
    };
    state = record {
      limiter = new_rate_limiter 1 30;
      revoked = new_revocation_store;
      submissions = s;
    };
  }

  abbrev pub server_of : AuthConfig PublicKey → Backend D → Server PublicKey
  server_of cfg memory_backend = server_with cfg (memory_store w.sorter w.order) new_memory_store
  server_of cfg (postgres_backend d) =
      server_with cfg (postgres_store w.connector.db w.sorter w.json) d
  server_of cfg (sqlserver_backend d) =
      server_with cfg (sqlserver_store w.connector.db w.sorter w.json) d

  -- `none` is `os.Exit(1)`.
  abbrev pub with_backend : AuthConfig PublicKey → Attempt (Backend D) → Option (Server PublicKey)
  with_backend cfg (failed e) = none
  with_backend cfg (done b) = some (server_of cfg b)

  abbrev pub with_keys : Option (AuthConfig PublicKey) → Option (Server PublicKey)
  with_keys none = none
  with_keys (some cfg) = with_backend cfg (new_store w.connector (db_config_from_env getenv))

  unfoldable pub start : Option (Server PublicKey)
  start = with_keys (build_auth_config w.parse getenv)
