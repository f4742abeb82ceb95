-- ===== src/Server/Gates.antt =====
-- What stands before the handlers: HTTPS, the limiter and the token, for every endpoint but the health
-- check.
use corncrake.Prelude.{
  ◌≡◌, refl, ◌≢◌, ◌≤◌, ◌<◌, inl, inr, String, Bool, true, false, arith, is_empty, Bool-cases, ◌==◌,
  ◌++◌, ◌&&◌,
}
use corncrake.RateLimit.{RateLimiter, allow}
use corncrake.RateLimit.Limit.{limit, limit_after}
use corncrake.Text.HostPort.{client_ip}
use corncrake.Auth.{authenticate, require_software_params, missing_param}
use corncrake.Auth.Admission.{Admits, authenticate_iff, refused_401}
use corncrake.Http.{Request, Response, status_of, pass, unless, json_error, respond}
use corncrake.Http.Checks.{
  >>=-eq-pass, Checked-cases, Answers, Answers-pass, Answers-deny, Answers-bind, Answers-unless,
}
use corncrake.Handlers.Lookups.{health}
use corncrake.Server.{
  Endpoint, create_endpoint, submission_endpoint, run_endpoint, list_endpoint, periods_endpoint,
  lookup_endpoint, health_endpoint, routed, Clock, Config, State, enforce_https, auth_config,
  is_plain_http, with_software_params, admit, serve_limited, serve_routed, serve,
}
use corncrake.Server.Stored.{limit-eq-pass, https-eq-pass}

abbrev IsError : Response → Type 0
IsError r = 400 ≤ status_of r

below_error : (r : Response) → 400 ≤ status_of r → status_of r < 400 → ⊥
below_error r high low = omega arith

limit-IsError : (a : Bool × RateLimiter) (req : Request) → Answers IsError (limit_after a req).0
limit-IsError (true, rl) req = Answers-pass req
limit-IsError (false, rl) req = Answers-deny _ (omega arith)

software-IsError : (req : Request) → Answers IsError (require_software_params req)
unfolding require_software_params
software-IsError req =
    Answers-bind
      (unless (is_empty (missing_param req "softwareUsed" ++ missing_param req "softwareVersion"))
        _)
      (λ u. pass req) (Answers-unless _ _ (omega arith)) (λ u. Answers-pass req)

pub https-IsError :
    (getenv : String → String) (req : Request) → Answers IsError (enforce_https getenv req)
unfolding enforce_https
https-IsError getenv req =
    elim (Bool-cases
      (getenv "APP_ENV" == "production" && is_plain_http (req.header "X-Forwarded-Proto"))) [
        | inl refused ↦ rw refused (Answers-deny _ (omega arith))
        | inr fine ↦ rw fine (Answers-pass req)
      ]

module _ {S PublicKey : Type 0} (c : Config S PublicKey) where
  with_software-IsError :
      (e : Endpoint) (req : Request) → Answers IsError (with_software_params c e req)
  with_software-IsError create_endpoint req = software-IsError req
  with_software-IsError submission_endpoint req = software-IsError req
  with_software-IsError run_endpoint req = software-IsError req
  with_software-IsError list_endpoint req = Answers-pass req
  with_software-IsError periods_endpoint req = Answers-pass req
  with_software-IsError lookup_endpoint req = Answers-pass req
  with_software-IsError health_endpoint req = Answers-pass req

  authenticate-IsError :
      (t : Clock) (st : State S) (req : Request)
      → Answers IsError (authenticate (c.jwt t.now) (auth_config c st) req)
  authenticate-IsError t st req = record {
    answer =
        λ r e. let s = refused_401 (c.jwt t.now) (auth_config c st) req r e in omega (arith, s);
  }

  ruleset gate_rules = (Answers-bind, limit-IsError, authenticate-IsError, with_software-IsError)

  admit-IsError :
      (e : Endpoint) (t : Clock) (st : State S) (a : Bool × RateLimiter) (req : Request)
      → Answers IsError (admit c e t st (limit_after a req).0)
  admit-IsError e t st a req = search gate_rules depth 12

  -- Every endpoint but the health check is behind the limiter.
  serve_routed-limited :
      (e : Endpoint) (params : String → String) (t : Clock) (req : Request) (st : State S)
      → e ≢ health_endpoint
      → serve_routed c (routed e params) t req st
        ≡ serve_limited c e t st (limit t.now (record req { url_param = params }) st.limiter)
  serve_routed-limited create_endpoint params t req st ne = refl
  serve_routed-limited submission_endpoint params t req st ne = refl
  serve_routed-limited run_endpoint params t req st ne = refl
  serve_routed-limited list_endpoint params t req st ne = refl
  serve_routed-limited periods_endpoint params t req st ne = refl
  serve_routed-limited lookup_endpoint params t req st ne = refl
  serve_routed-limited health_endpoint params t req st ne = absurd (ne refl)

  serve_limited-refused :
      (e : Endpoint) (t : Clock) (st : State S) (a : Bool × RateLimiter) (req : Request)
      → a.0 ≡ false
      → serve_limited c e t st (limit_after a req) ≡ (
        json_error 429 "RATE_LIMITED" "Too many requests. Please slow down and try again later.",
        record st { limiter = a.1 },
      )
  serve_limited-refused e t st (true, rl) req h = cc
  serve_limited-refused e t st (false, rl) req h = refl

  pub serve_limited-passes :
      (e : Endpoint) (t : Clock) (st : State S) (a : Bool × RateLimiter) (req : Request)
      → status_of (serve_limited c e t st (limit_after a req)).0 < 400
      → (seen : Request) × (admit c e t st (limit_after a req).0 ≡ pass seen)
  serve_limited-passes e t st a req low =
      elim (Checked-cases (admit c e t st (limit_after a req).0)) [
        | inl (r, denied) ↦
            let high = (admit-IsError e t st a req).answer r denied in
            let low_too : status_of r < 400 = rw denied at low in
            absurd (below_error r high low_too)
        | inr passed ↦ passed
      ]

  serve_limited-Admits :
      (e : Endpoint) (t : Clock) (st : State S) (a : Bool × RateLimiter) (req : Request)
      → status_of (serve_limited c e t st (limit_after a req)).0 < 400
      → (seen : Request) × Admits (c.jwt t.now) (auth_config c st) req seen
  serve_limited-Admits e t st a req low =
      let (seen, passed) = serve_limited-passes e t st a req low in
      let (req', l, h) = >>=-eq-pass (limit_after a req).0 _ passed in
      let (req'', admitted, _) =
        >>=-eq-pass (authenticate (c.jwt t.now) (auth_config c st) req') _ h in
      (
        req'',
        (authenticate_iff (c.jwt t.now) (auth_config c st) req req'').0
            (rw (← limit-eq-pass a req l) admitted),
      )

  -- What is answered below 400 has come to the limiter.
  pub serve-passes :
      (t : Clock) (req : Request) (st : State S) {e : Endpoint} {params : String → String}
      → c.route (c.real_ip req) ≡ routed e params
      → e ≢ health_endpoint
      → status_of (serve c t req st).0 < 400
      → let req' = record (c.real_ip req) { url_param = params } in
        (serve c t req st ≡ serve_limited c e t st (limit t.now req' st.limiter))
        × (status_of (serve_limited c e t st (limit t.now req' st.limiter)).0 < 400)
  unfolding serve
  serve-passes t req st {e} {params} there ne low =
      elim (Checked-cases (enforce_https c.getenv (c.real_ip req))) [
        | inl (r, denied) ↦
            let high = (https-IsError c.getenv (c.real_ip req)).answer r denied in
            let low_too : status_of r < 400 = rw denied at low in
            absurd (below_error r high low_too)
        | inr (req', passed) ↦
            let same = https-eq-pass c.getenv (c.real_ip req) passed in
            (
              rw (passed, same, there) (serve_routed-limited e params t (c.real_ip req) st ne),
              rw (passed, same, there, serve_routed-limited e params t (c.real_ip req) st ne) at
                  low,
            )
      ]

  module _ (t : Clock) (req : Request) (st : State S) {e : Endpoint} {params : String → String}
      (there : c.route (c.real_ip req) ≡ routed e params) where
    -- When the limiter refuses the address of a request that may come as it is, by HTTPS or not, no
    -- endpoint but the health check answers otherwise than with 429, and nothing but the limiter's
    -- bucket changes.
    pub limited_429 :
        e ≢ health_endpoint
        → enforce_https c.getenv (c.real_ip req) ≡ pass (c.real_ip req)
        → (allow (client_ip (c.real_ip req).remote_addr) t.now st.limiter).0 ≡ false
        → serve c t req st ≡ (
          json_error 429 "RATE_LIMITED" "Too many requests. Please slow down and try again later.",
          record st {
            limiter = (allow (client_ip (c.real_ip req).remote_addr) t.now st.limiter).1;
          },
        )
    unfolding serve limit
    limited_429 ne https full =
        rw (https, there, serve_routed-limited e params t (c.real_ip req) st ne)
          (serve_limited-refused e t st _ _ full)

    -- For a request that may come as it is, by HTTPS or not, the health check answers 200 without a
    -- token, whatever the limiter has counted, and changes nothing.
    pub health_open :
        e ≡ health_endpoint
        → enforce_https c.getenv (c.real_ip req) ≡ pass (c.real_ip req)
        → (r : Response) × (health t.timestamp ≡ respond r)
          × (status_of r ≡ 200)
          × (serve c t req st ≡ (r, st))
    unfolding serve
    health_open here https = (_, refl, refl, rw (https, there, here) refl)

    -- An endpoint other than the health check answers with a status below 400 only to a request
    -- that carries a token which passes.
    pub answered-Admits :
        e ≢ health_endpoint
        → status_of (serve c t req st).0 < 400
        → (seen : Request) × Admits
            (c.jwt t.now)
            (auth_config c st)
            (record (c.real_ip req) { url_param = params })
            seen
    unfolding limit
    answered-Admits ne low =
        let (_, low') = serve-passes t req st there ne low in
        serve_limited-Admits e t st _ (record (c.real_ip req) { url_param = params }) low'
