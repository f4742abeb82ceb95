-- ===== src/Server/Keys.antt =====
-- `buildAuthConfig` of main.go. Reading a key is Go's encoding/pem and crypto/x509, a parameter here.
use mathlib.Core.Bool.{false≢true}
use mathlib.Core.Path.{subst}
use corncrake.Prelude.{
  ◌≡◌, refl, ◌≢◌, ◌⊎◌, inl, inr, sym, ap, ◌∙◌, String, Option, none, some, ◌==◌, eq_iff, Bool-cases,
  if◌then◌else◌,
}
use corncrake.Auth.{AuthConfig}
use corncrake.Server.{env_or_default}

-- What is found in a text that should be a PEM block with a public key.
pub data KeyParse (PublicKey : Type 0) : Type 0 where
  no_pem_block not_rsa : KeyParse PublicKey
  unparsable : String → KeyParse PublicKey
  rsa_public : PublicKey → KeyParse PublicKey

abbrev pub default_secret : String
default_secret = "ehecs-dev-secret-replace-in-production"

some-injective : {A : Type 0} {a b : A} → some a ≡ some b → a ≡ b
some-injective e = cc

module _ {PublicKey : Type 0} where
  -- `none` is `os.Exit(1)`. `main` sets the store of revoked tokens afterwards.
  abbrev pub with_public_key : KeyParse PublicKey → Option (AuthConfig PublicKey)
  with_public_key no_pem_block = none
  with_public_key (unparsable e) = none
  with_public_key not_rsa = none
  with_public_key (rsa_public k) =
      some (record { hmac_secret = ""; rsa_public_key = some k; revocation = none })

  abbrev pub with_secret : String → AuthConfig PublicKey
  with_secret s = record { hmac_secret = s; rsa_public_key = none; revocation = none }

  unfoldable pub build_auth_config :
      (String → KeyParse PublicKey) → (String → String) → Option (AuthConfig PublicKey)
  build_auth_config parse getenv =
      if getenv "JWT_PUBLIC_KEY" == ""
      then some (with_secret (env_or_default getenv "JWT_SECRET" default_secret))
      else with_public_key (parse (getenv "JWT_PUBLIC_KEY"))

  with_public_key-eq-some :
      (found : KeyParse PublicKey) {cfg : AuthConfig PublicKey}
      → with_public_key found ≡ some cfg
      → (k : PublicKey) × (found ≡ rsa_public k) × (cfg.rsa_public_key ≡ some k)
  with_public_key-eq-some no_pem_block h = cc
  with_public_key-eq-some (unparsable e) h = cc
  with_public_key-eq-some not_rsa h = cc
  with_public_key-eq-some (rsa_public k) {cfg} h =
      let same = some-injective h in (k, refl, ap (λ c. c.rsa_public_key) (sym same))

env_or_default-ne :
    (getenv : String → String) (key default : String)
    → default ≢ ""
    → env_or_default getenv key default ≢ ""
env_or_default-ne getenv key default ne = elim (Bool-cases (getenv key == "")) [
  | inl unset ↦ rw unset ne
  | inr given ↦ rw given (λ e. false≢true (sym given ∙ (eq_iff _ _).1 e))
]

-- With a public key in the environment the server verifies by this key or does not start; it takes the
-- secret, which is never empty, only where there is no public key.
pub configured_keys :
    {PublicKey : Type 0} (parse : String → KeyParse PublicKey) (getenv : String → String)
    (cfg : AuthConfig PublicKey)
    → build_auth_config parse getenv ≡ some cfg
    → ((getenv "JWT_PUBLIC_KEY" ≢ "")
        × ((k : PublicKey) × (parse (getenv "JWT_PUBLIC_KEY") ≡ rsa_public k)
            × (cfg.rsa_public_key ≡ some k)))
      ⊎ ((getenv "JWT_PUBLIC_KEY" ≡ "") × (cfg.rsa_public_key ≡ none) × (cfg.hmac_secret ≢ ""))
unfolding build_auth_config
configured_keys parse getenv cfg h = elim (Bool-cases (getenv "JWT_PUBLIC_KEY" == "")) [
  | inl absent ↦
      let same = some-injective (rw absent at h) in
      inr (
        (eq_iff _ _).0 absent,
        ap (λ c. c.rsa_public_key) (sym same),
        subst (λ c. c.hmac_secret ≢ "") same
            (env_or_default-ne getenv "JWT_SECRET" default_secret
              (λ e. false≢true ((eq_iff default_secret "").1 e))),
      )
  | inr present ↦ inl (
    (λ e. false≢true (sym present ∙ (eq_iff _ _).1 e)),
    with_public_key-eq-some (parse (getenv "JWT_PUBLIC_KEY")) (rw present at h),
  )
]
