-- ===== src/Auth.antt =====
-- internal/middleware/auth.go, over golang-jwt's parser. A middleware gives the request that it hands on,
-- or its answer.
pub mod Tokens
pub mod Admission
pub mod Software
mod Tests
use corncrake.Prelude.{
  ℕ, String, Bool, true, false, not, ◌&&◌, Option, none, some, List, [], ◌∷◌, ◌++◌, ◌==◌, is_empty,
  if◌then◌else◌,
}
use corncrake.GoMap
use corncrake.GoMap.{GoMap}
use corncrake.Text.{codes, contains, strip_prefix, ◌<>◌}
use corncrake.Models.{ClientIdentity}
use corncrake.Revocation.{RevocationStore, is_revoked}
use corncrake.Http.{Request, Response, Checked, deny, pass, ◌>>=◌, ◌>>◌, unless, write_err_json}
use corncrake.Auth.Tokens.{
  SigningMethod, rsa, hmac, other_method, Key, public_key, secret, ClaimValue, text_claim,
  other_claim, Claims, Parsed, accepted, rejected, Jwt,
}

-- The secret is the text whose bytes are the key. `revocation` is the store behind the pointer, in
-- the state in which the request finds it.
pub record AuthConfig (PublicKey : Type 0) : Type 0 where
  pub hmac_secret : String
  pub rsa_public_key : Option PublicKey
  pub revocation : Option RevocationStore

abbrev pub text_of : Option ClaimValue → String
text_of none = ""
text_of (some (text_claim s)) = s
text_of (some other_claim) = ""

abbrev pub string_claim : Claims → String → String
string_claim claims key = text_of (GoMap.get claims key)

abbrev pub bearer_prefix : String
bearer_prefix = "Bearer "

-- `HasPrefix` and `TrimPrefix`
abbrev pub require_bearer : Option String → Checked String
require_bearer none = deny (
    write_err_json 401 "UNAUTHORISED"
      "Missing or malformed Authorization header. Expected: Bearer <token>")
require_bearer (some token) = pass token

abbrev pub require_parsed : Parsed → Checked Claims
require_parsed (rejected e) = deny (
    if contains (codes e) (codes "expired")
    then write_err_json 401 "TOKEN_EXPIRED" "Bearer token has expired."
    else write_err_json 401 "INVALID_TOKEN" "Bearer token is invalid or could not be verified.")
require_parsed (accepted claims false) =
    deny (write_err_json 401 "INVALID_TOKEN" "Bearer token is invalid.")
require_parsed (accepted claims true) = pass claims

abbrev pub is_token_revoked : Option RevocationStore → String → Bool
is_token_revoked none jti = false
is_token_revoked (some rs) jti = not (jti == "") && is_revoked jti rs

-- A claim, or what the query has instead.
abbrev pub claim_or_query : String → String → String
claim_or_query claim query = if claim == "" then query else claim

abbrev pub identity : Claims → Request → ClientIdentity
identity claims req = record {
  holding_number = string_claim claims "holdingNumber";
  software_used = claim_or_query (string_claim claims "softwareUsed") (req.query "softwareUsed");
  software_version =
      claim_or_query (string_claim claims "softwareVersion") (req.query "softwareVersion");
  agent_id = string_claim claims "agentId";
}

module _ {PublicKey : Type 0} where
  -- The key function of `Authenticate`; `none` is `ErrSignatureInvalid`.
  abbrev pub rsa_key : PublicKey → SigningMethod → Option (Key PublicKey)
  rsa_key k (rsa name) = some (public_key k)
  rsa_key k (hmac name) = none
  rsa_key k other_method = none

  abbrev pub hmac_key : String → SigningMethod → Option (Key PublicKey)
  hmac_key s (rsa name) = none
  hmac_key s (hmac name) = some (secret s)
  hmac_key s other_method = none

  abbrev pub key_with : Option PublicKey → String → SigningMethod → Option (Key PublicKey)
  key_with none s m = hmac_key s m
  key_with (some k) s m = rsa_key k m

  abbrev pub key_for : AuthConfig PublicKey → SigningMethod → Option (Key PublicKey)
  key_for cfg m = key_with cfg.rsa_public_key cfg.hmac_secret m

  unfoldable pub authenticate : Jwt PublicKey → AuthConfig PublicKey → Request → Checked Request
  authenticate jwt cfg req = do
    token ← require_bearer (strip_prefix bearer_prefix (req.header "Authorization"))
    claims ← require_parsed (jwt.parse_with_claims token (key_for cfg))
    unless (not (is_token_revoked cfg.revocation (string_claim claims "jti")))
        (write_err_json 401 "TOKEN_REVOKED" "Bearer token has been revoked.")
    pass (record req { client = some (identity claims req) })

abbrev pub missing_param : Request → String → List String
missing_param req key = if req.query key == "" then key ∷ [] else []

-- `strings.Join(xs, ", ")`
abbrev pub join : List String → String
join [] = ""
join (x ∷ []) = x
join (x ∷ y ∷ xs) = x <> ", " <> join (y ∷ xs)

unfoldable pub require_software_params : Request → Checked Request
require_software_params req =
    let missing = missing_param req "softwareUsed" ++ missing_param req "softwareVersion" in
    unless (is_empty missing) (
      write_err_json 400 "MISSING_QUERY_PARAMS"
        ("Required query parameters missing: " <> join missing))
    >> pass req
