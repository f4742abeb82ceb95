-- ===== src/Server/Tests.antt =====
-- A server with the memory store, on one submission.
use corncrake.Prelude.{
  ◌⊎◌, ℕ, ◌≡◌, refl, ◌≢◌, ◌<◌, ◌≤◌, ◌*◌, ◌+◌, ◌-◌, List, [], ◌∷◌, false, none, some, ◌==◌, arith,
  if◌then◌else◌,
}
use corncrake.GoMap
use corncrake.RateLimit.Limit.{limit}
use corncrake.Auth.{authenticate}
use corncrake.Revocation.{is_revoked}
use corncrake.Handlers.Lookups.{get_periods}
use corncrake.SliceSort.Insertion.{sort_by_insertion, entry_order}
use corncrake.Store.Memory.{MemoryStore, memory_store, new_memory_store}
use corncrake.RateLimit.{new_rate_limiter, allow}
use corncrake.Text.HostPort.{client_ip}
use corncrake.Revocation.{new_revocation_store}
use corncrake.Http.{Request, status_of, pass, json_error}
use corncrake.Auth.Admission.{Admits}
use corncrake.Server.{
  routed, Endpoint, create_endpoint, list_endpoint, periods_endpoint, health_endpoint, Clock,
  Config, State, auth_config, enforce_https, serve,
}
use corncrake.Server.Stored.{Submits, store_guarded}
use corncrake.Server.Keys.{rsa_public, default_secret, with_secret, build_auth_config}
use corncrake.RateLimit.{token}
use corncrake.RateLimit.Schedule.{Timed, last_time}
use corncrake.Server.Visits.{Happening, asked, limiter_swept, served_count, visits}
use corncrake.Server.Bounded.{served_bound}
use corncrake.Server.Gates.{limited_429, answered-Admits}
use corncrake.Samples.{request, registry, unmarshal_meta, url_param, jwt_at, jwt_at-Verifies}

abbrev pub clock : Clock
clock = record {
  now = 5;
  received_at = 6;
  year = 2024;
  month = 5;
  timestamp = "2024-05-01T00:00:00Z";
}

abbrev pub config : Endpoint → Config MemoryStore ℕ
config e = record {
  getenv = λ key. "";
  real_ip = λ req. req;
  route = λ req. routed e url_param;
  jwt = jwt_at;
  hmac_secret = "";
  rsa_public_key = some 7;
  store = memory_store sort_by_insertion entry_order;
  registry = registry;
  unmarshal_meta = unmarshal_meta;
}

abbrev pub state : State MemoryStore
state = record {
  limiter = new_rate_limiter 1 30;
  revoked = new_revocation_store;
  submissions = new_memory_store;
}

abbrev pub signed_request : Request
signed_request = record request {
  client = none;
  header = λ key. if key == "Authorization" then "Bearer good" else "";
  query = λ key. "pay";
}

store_guarded_example :
    ((serve (config create_endpoint) clock signed_request state).1.submissions ≡ new_memory_store)
    ⊎ Submits sort_by_insertion entry_order
        (config create_endpoint)
        jwt_at-Verifies
        clock
        signed_request
        state
        (serve (config create_endpoint) clock signed_request state).1.submissions
store_guarded_example =
    store_guarded sort_by_insertion entry_order (config create_endpoint) jwt_at-Verifies clock
      signed_request state refl

https_fine : enforce_https (λ key. "") signed_request ≡ pass signed_request
unfolding enforce_https
https_fine = refl

list-ne-health : list_endpoint ≢ health_endpoint
list-ne-health e = cc

-- A limiter without a token for anybody.
abbrev spent : State MemoryStore
spent = record state { limiter = new_rate_limiter 1 0 }

spent-refuses : (allow (client_ip "10.0.0.1:5000") 5 spent.limiter).0 ≡ false
unfolding allow GoMap.get GoMap.empty
spent-refuses = refl

limited_429_example : serve (config list_endpoint) clock signed_request spent ≡ (
  json_error 429 "RATE_LIMITED" "Too many requests. Please slow down and try again later.",
  record spent { limiter = (allow (client_ip "10.0.0.1:5000") 5 spent.limiter).1 },
)
limited_429_example =
    limited_429 (config list_endpoint) clock signed_request spent refl list-ne-health https_fine
      spent-refuses

periods-ne-health : periods_endpoint ≢ health_endpoint
periods-ne-health e = cc

periods-served : status_of (serve (config periods_endpoint) clock signed_request state).0 ≡ 200
unfolding serve enforce_https limit allow authenticate is_revoked get_periods GoMap.get GoMap.put
    GoMap.empty
periods-served = refl

periods-low : status_of (serve (config periods_endpoint) clock signed_request state).0 < 400
periods-low = omega (arith, periods-served)

answered-Admits_example :
    (seen : Request) × Admits
      (jwt_at 5)
      (auth_config (config periods_endpoint) state)
      (record signed_request { url_param = url_param })
      seen
answered-Admits_example =
    answered-Admits (config periods_endpoint) clock signed_request state refl periods-ne-health
      periods-low

development :
    build_auth_config {PublicKey = ℕ} (λ pem. rsa_public 7) (λ key. "")
    ≡ some (with_secret default_secret)
unfolding build_auth_config
development = refl

-- Two requests of an address, and a clean-up between them.
abbrev happenings : List Happening
happenings =
    asked clock signed_request
    ∷ limiter_swept 1_000_000
    ∷ asked (record clock { now = 2_000_000_000 }) signed_request
    ∷ []

happenings-Timed : Timed 5 (visits (config periods_endpoint) happenings)
unfolding visits enforce_https
happenings-Timed = (omega arith, (omega arith, (omega arith, tt)))

served_bound_example :
    token * served_count (config periods_endpoint) "10.0.0.1" happenings state
    ≤ state.limiter.capacity
      + (last_time 5 (visits (config periods_endpoint) happenings) - 5) * state.limiter.rate
served_bound_example =
    served_bound (config periods_endpoint) "10.0.0.1" happenings 5 state (omega arith)
      happenings-Timed
