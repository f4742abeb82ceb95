-- ===== src/Auth/Tests.antt =====
-- A parser that takes one token, signed by RS256, and requests with and without it.
use mathlib.Core.Bool.{false≢true}
use corncrake.Prelude.{ℕ, ◌≡◌, refl, ◌≢◌, String, false, none, some, eq_iff}
use corncrake.GoMap
use corncrake.Text.{◌<>◌}
use corncrake.Revocation.{is_revoked, new_revocation_store}
use corncrake.Http.{Request, Response, pass, deny, json_error, client_from_context}
use corncrake.Auth.{AuthConfig, authenticate, bearer_prefix, identity}
use corncrake.Auth.Software.{software_identified, software_params_iff}
use corncrake.Auth.Admission.{Admits, authenticate_iff, SignedByKey, authenticate-SignedByKey}
use corncrake.Samples.{request, claims, jwt, jwt-Verifies}

abbrev cfg : AuthConfig ℕ
cfg = record { hmac_secret = ""; rsa_public_key = some 7; revocation = some new_revocation_store }

abbrev signed_request : Request
signed_request = record request {
  client = none;
  header = λ key. "Bearer good";
  query = λ key. "pay";
}

abbrev admitted : Request
admitted = record signed_request { client = some (identity claims signed_request) }

nothing_revoked : (jti : String) → is_revoked jti new_revocation_store ≡ false
unfolding is_revoked
nothing_revoked jti = rw (GoMap.get-empty jti) refl

signed_request-Admits : Admits jwt cfg signed_request admitted
signed_request-Admits = record {
  token = "good";
  header = refl;
  claims = claims;
  parsed = refl;
  unrevoked =
      λ rs e ne. let same : new_revocation_store ≡ rs = cc in rw (← same) (nothing_revoked _);
  handed_on = refl;
}

authenticate_iff_example : authenticate jwt cfg signed_request ≡ pass admitted
authenticate_iff_example =
    (authenticate_iff jwt cfg signed_request admitted).1 signed_request-Admits

abbrev missing_header : Response
missing_header =
    json_error 401 "UNAUTHORISED"
      "Missing or malformed Authorization header. Expected: Bearer <token>"

request-denied : authenticate jwt cfg request ≡ deny missing_header
unfolding authenticate
request-denied = refl

authenticate-SignedByKey_example :
    (token : String) × ("Bearer good" ≡ bearer_prefix <> token)
    × SignedByKey jwt cfg jwt-Verifies token
authenticate-SignedByKey_example =
    authenticate-SignedByKey jwt cfg jwt-Verifies signed_request admitted
      ((authenticate_iff jwt cfg signed_request admitted).1 signed_request-Admits)

pay_ne : ◌≡◌ {A = String} "pay" "" → ⊥
pay_ne e = false≢true ((eq_iff "pay" "").1 e)

software_identified_example :
    ((client_from_context admitted).software_used ≢ "")
    × ((client_from_context admitted).software_version ≢ "")
software_identified_example =
    software_identified jwt cfg signed_request admitted admitted
      ((authenticate_iff jwt cfg signed_request admitted).1 signed_request-Admits)
      ((software_params_iff admitted admitted).1 (pay_ne, pay_ne, refl))
