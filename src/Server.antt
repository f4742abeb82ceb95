-- ===== src/Server.antt =====
-- main.go: how a request passes the middlewares and reaches its handler. chi matches the routes: the
-- endpoint with its parameters is an argument of the model. `requestLogger` and
-- `securityHeaders` are around all this, in Written. `RequestID` names a request for the log, and
-- `Timeout` cancels a context that no handler reads; these are left out.
pub mod Stored
pub mod Gates
pub mod Keys
pub mod Trace
pub mod Start
pub mod Started
pub mod Kept
pub mod Backends
pub mod Shown
pub mod Answering
pub mod Unrevoked
pub mod Written
pub mod Visits
pub mod Bounded
mod Tests
use corncrake.Prelude.{
  ℕ, String, Bool, true, false, not, ◌&&◌, ◌||◌, Option, none, some, List, ◌==◌, if◌then◌else◌,
}
use corncrake.Text.{◌<>◌}
use corncrake.Models.{Time, RawMessage}
use corncrake.Store.{SubmissionStore}
use corncrake.Tenant.{Registry}
use corncrake.RateLimit.{RateLimiter}
use corncrake.RateLimit.Limit.{limit}
use corncrake.Revocation.{RevocationStore}
use corncrake.Auth.Tokens.{Jwt}
use corncrake.Auth.{AuthConfig, authenticate, require_software_params}
use corncrake.Http.{
  Request, Response, json, text, Reply, respond, crash, Checked, deny, pass, ◌>>=◌, json_error,
}
use corncrake.Handlers.Submissions.{
  SubmissionMeta, create, get_submission, get_run, list_submissions,
}
use corncrake.Handlers.Lookups.{get_lookup, get_periods, health}

pub data Endpoint : Type 0 where
  create_endpoint submission_endpoint run_endpoint list_endpoint periods_endpoint : Endpoint
  lookup_endpoint health_endpoint : Endpoint

-- What chi finds for a method and a path: an endpoint with the parameters of the path, no route, or a
-- route for other methods.
pub data Routed : Type 0 where
  routed : Endpoint → (String → String) → Routed
  no_route wrong_method : Routed

-- What the handlers read of the clock.
pub record Clock : Type 0 where
  pub now : Time
  pub received_at : Time
  pub year : ℕ
  pub month : ℕ
  pub timestamp : String

abbrev pub env_or_default : (String → String) → String → String → String
env_or_default getenv key default = if getenv key == "" then default else getenv key

-- `real_ip` is chi's middleware of that name, and `jwt` the parser of tokens at a time, which they may
-- have expired at.
pub record Config (S PublicKey : Type 0) : Type 0 where
  pub getenv : String → String
  pub real_ip : Request → Request
  pub route : Request → Routed
  pub jwt : Time → Jwt PublicKey
  pub hmac_secret : String
  pub rsa_public_key : Option PublicKey
  pub store : SubmissionStore S
  pub registry : Registry
  pub unmarshal_meta : RawMessage → SubmissionMeta

pub record State (S : Type 0) : Type 0 where
  pub limiter : RateLimiter
  pub revoked : RevocationStore
  pub submissions : S

abbrev pub is_plain_http : String → Bool
is_plain_http proto = not (proto == "") && not (proto == "https")

unfoldable pub enforce_https : (String → String) → Request → Checked Request
enforce_https getenv req =
    if getenv "APP_ENV" == "production" && is_plain_http (req.header "X-Forwarded-Proto")
    then deny (
        text 400
          "{\"status\":400,\"errors\":[{\"code\":\"HTTPS_REQUIRED\",\"message\":\"This API requires HTTPS.\"}]}")
    else pass req

module _ {S PublicKey : Type 0} (c : Config S PublicKey) where
  abbrev pub auth_config : State S → AuthConfig PublicKey
  auth_config st = record {
    hmac_secret = c.hmac_secret;
    rsa_public_key = c.rsa_public_key;
    revocation = some st.revoked;
  }

  -- `r.With(middleware.RequireSoftwareParams)`, on three of the endpoints.
  abbrev pub with_software_params : Endpoint → Request → Checked Request
  with_software_params create_endpoint req = require_software_params req
  with_software_params submission_endpoint req = require_software_params req
  with_software_params run_endpoint req = require_software_params req
  with_software_params _ req = pass req

  abbrev pub dispatch : Endpoint → Clock → Request → S → Reply × S
  dispatch create_endpoint t req s = create c.store c.registry c.unmarshal_meta t.received_at req s
  dispatch submission_endpoint t req s = (get_submission c.store req s, s)
  dispatch run_endpoint t req s = (get_run c.store req s, s)
  dispatch list_endpoint t req s = (list_submissions c.store req s, s)
  dispatch periods_endpoint t req s = (get_periods t.year t.month, s)
  dispatch lookup_endpoint t req s = (get_lookup c.registry req, s)
  dispatch health_endpoint t req s = (health t.timestamp, s)

  -- `Recoverer` answers for a handler that has panicked.
  abbrev pub recovered : Reply → Response
  recovered (respond r) = r
  recovered crash = text 500 ""

  abbrev pub run_handler : Endpoint → Clock → State S → Checked Request → Response × State S
  run_handler e t st (deny r) = (r, st)
  run_handler e t st (pass req) =
      let (reply, s) = dispatch e t req st.submissions in
      (recovered reply, record st { submissions = s })

  -- The middlewares behind the limiter.
  abbrev pub admit : Endpoint → Clock → State S → Checked Request → Checked Request
  admit e t st limited = do
    req ← limited
    req' ← authenticate (c.jwt t.now) (auth_config st) req
    with_software_params e req'

  -- The group of the authenticated routes.
  abbrev pub serve_limited :
      Endpoint → Clock → State S → Checked Request × RateLimiter → Response × State S
  serve_limited e t st (limited, rl) =
      run_handler e t (record st { limiter = rl }) (admit e t st limited)

  abbrev pub serve_routed : Routed → Clock → Request → State S → Response × State S
  serve_routed no_route t req st =
      (json_error 404 "NOT_FOUND" ("No route found for " <> req.method <> " " <> req.path), st)
  serve_routed wrong_method t req st = (text 405 "", st)
  serve_routed (routed health_endpoint params) t req st =
      run_handler health_endpoint t st (pass (record req { url_param = params }))
  serve_routed (routed e params) t req st =
      serve_limited e t st (limit t.now (record req { url_param = params }) st.limiter)

  abbrev pub serve_checked : Clock → State S → Checked Request → Response × State S
  serve_checked t st (deny r) = (r, st)
  serve_checked t st (pass req) = serve_routed (c.route req) t req st

  unfoldable pub serve : Clock → Request → State S → Response × State S
  serve t req st = serve_checked t st (enforce_https c.getenv (c.real_ip req))
