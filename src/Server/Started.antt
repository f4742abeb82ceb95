-- ===== src/Server/Started.antt =====
-- What a server that has started is made of.
use corncrake.Prelude.{◌≡◌, refl, ◌≢◌, ◌⊎◌, sym, String, Option, none, some}
use corncrake.Models.{RawMessage}
use corncrake.Tenant.{Registry}
use corncrake.Auth.{AuthConfig}
use corncrake.Handlers.Submissions.{SubmissionMeta}
use corncrake.Sql.{Attempt, done, failed}
use corncrake.Database.{db_config_from_env, Backend, new_store}
use corncrake.Database.Choice.{Chosen, new_store-Chosen}
use corncrake.Server.Keys.{build_auth_config, rsa_public, configured_keys}
use corncrake.Server.Start.{World, Server, server_of, with_backend, with_keys, start}

some-injective : {A : Type 1} {a b : A} → some a ≡ some b → a ≡ b
some-injective e = cc

module _ {PublicKey D : Type 0} (w : World PublicKey D) (registry : Registry)
    (unmarshal_meta : RawMessage → SubmissionMeta) (getenv : String → String) where
  with_backend-eq-some :
      (cfg : AuthConfig PublicKey) (m : Attempt (Backend D)) {server : Server PublicKey}
      → with_backend w registry unmarshal_meta getenv cfg m ≡ some server
      → (b : Backend D) × (m ≡ done b) × (server ≡ server_of w registry unmarshal_meta getenv cfg b)
  with_backend-eq-some cfg (failed e) h = cc
  with_backend-eq-some cfg (done b) h = (b, refl, sym (some-injective h))

  with_keys-eq-some :
      (m : Option (AuthConfig PublicKey)) {server : Server PublicKey}
      → with_keys w registry unmarshal_meta getenv m ≡ some server
      → (cfg : AuthConfig PublicKey) × (m ≡ some cfg)
        × (with_backend w registry unmarshal_meta getenv cfg
              (new_store w.connector (db_config_from_env getenv))
            ≡ some server)
  with_keys-eq-some none h = cc
  with_keys-eq-some (some cfg) h = (cfg, refl, h)

  -- A server starts only with the backend that the environment names, connected to and migrated where
  -- it is a database, and only with keys to verify tokens by: the public key of the environment if
  -- there is one, and else a secret that is not empty. It then runs on this backend and these keys.
  pub started_server :
      {server : Server PublicKey}
      → start w registry unmarshal_meta getenv ≡ some server
      → (cfg : AuthConfig PublicKey) × (b : Backend D) × (server
          ≡ server_of w registry unmarshal_meta getenv cfg b)
        × Chosen w.connector (db_config_from_env getenv) b
        × (((getenv "JWT_PUBLIC_KEY" ≢ "")
              × ((k : PublicKey) × (w.parse (getenv "JWT_PUBLIC_KEY") ≡ rsa_public k)
                  × (cfg.rsa_public_key ≡ some k)))
            ⊎ ((getenv "JWT_PUBLIC_KEY" ≡ "")
                × (cfg.rsa_public_key ≡ none)
                × (cfg.hmac_secret ≢ "")))
  unfolding start
  started_server h =
      let (cfg, keys, h₁) = with_keys-eq-some (build_auth_config w.parse getenv) h in
      let (b, backend, same) = with_backend-eq-some cfg _ h₁ in
      (
        cfg,
        b,
        same,
        new_store-Chosen w.connector (db_config_from_env getenv) b backend,
        configured_keys w.parse getenv cfg keys,
      )
