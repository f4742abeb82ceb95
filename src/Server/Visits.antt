-- ===== src/Server/Visits.antt =====
-- What happens to a server, what of it the limiter sees, and what is served.
use corncrake.Prelude.{
  ℕ, ◌+◌, ◌≤◌, ◌<◌, ◌≡◌, refl, ◌⊎◌, inl, inr, String, Bool, true, false, ◌&&◌, List, [], ◌∷◌, ◌++◌,
  arith, ltb, ◌==◌, if◌then◌else◌,
}
use corncrake.Models.{Time}
use corncrake.RateLimit.{RateLimiter, allow}
use corncrake.RateLimit
use corncrake.RateLimit.Limit.{limit, limit_after}
use corncrake.RateLimit.Schedule.{Event, request, tick}
use corncrake.Revocation
use corncrake.Text.HostPort.{client_ip}
use corncrake.Http.{Request, Response, status_of, Checked, deny, pass}
use corncrake.Http.Checks.{Checked-cases}
use corncrake.Server.{
  Endpoint, create_endpoint, submission_endpoint, run_endpoint, list_endpoint, periods_endpoint,
  lookup_endpoint, health_endpoint, Routed, routed, no_route, wrong_method, Clock, Config, State,
  enforce_https, run_handler, admit, serve_limited, serve_routed, serve,
}
use corncrake.Server.Stored.{https-eq-pass}
use corncrake.Server.Gates.{https-IsError}

-- Requests and clean-ups, in the order of their steps.
pub data Happening : Type 0 where
  asked : Clock → Request → Happening
  limiter_swept revocation_swept : Time → Happening

-- The routes of the group behind the limiter.
abbrev pub is_limited : Routed → Bool
is_limited no_route = false
is_limited wrong_method = false
is_limited (routed health_endpoint params) = false
is_limited (routed _ params) = true

module _ {S PublicKey : Type 0} (c : Config S PublicKey) where
  abbrev pub happens : Happening → State S → State S
  happens (asked t req) st = (serve c t req st).1
  happens (limiter_swept now) st = record st { limiter = RateLimit.cleanup now st.limiter }
  happens (revocation_swept now) st = record st { revoked = Revocation.cleanup now st.revoked }

  abbrev pub address : Request → String
  address req = client_ip (c.real_ip req).remote_addr

  -- A request of the address that is answered below 400 by an endpoint behind the limiter.
  abbrev pub is_served : String → Request → Response → Bool
  is_served ip req r =
      is_limited (c.route (c.real_ip req)) && (address req == ip && ltb (status_of r) 400)

  unfoldable pub served_count : String → List Happening → State S → ℕ
  served_count ip [] st = 0
  served_count ip (asked t req ∷ hs) st =
      let rest = served_count ip hs (happens (asked t req) st) in
      (if is_served ip req (serve c t req st).0 then 1 else 0) + rest
  served_count ip (limiter_swept now ∷ hs) st = served_count ip hs (happens (limiter_swept now) st)
  served_count ip (revocation_swept now ∷ hs) st =
      served_count ip hs (happens (revocation_swept now) st)

  -- What the limiter gets to see.
  abbrev pub visit_of : Clock → Checked Request → List Event
  visit_of t (deny r) = []
  visit_of t (pass req) =
      if is_limited (c.route req) then request (client_ip req.remote_addr) t.now ∷ [] else []

  unfoldable pub visits : List Happening → List Event
  visits [] = []
  visits (asked t req ∷ hs) = visit_of t (enforce_https c.getenv (c.real_ip req)) ++ visits hs
  visits (limiter_swept now ∷ hs) = tick now ∷ visits hs
  visits (revocation_swept now ∷ hs) = visits hs

  handler-limiter :
      (e : Endpoint) (t : Clock) (st : State S) (m : Checked Request)
      → (run_handler c e t st m).1.limiter ≡ st.limiter
  handler-limiter e t st (deny r) = refl
  handler-limiter e t st (pass req) = refl

  -- The limiter has decided, and an answer below 400 means that it has let the request through.
  abbrev pub IsLimited : Bool × RateLimiter → Response × State S → Type 0
  IsLimited a (r, st) = (st.limiter ≡ a.1) × (status_of r < 400 → a.0 ≡ true)

  serve_limited-IsLimited :
      (e : Endpoint) (t : Clock) (st : State S) (a : Bool × RateLimiter) (req : Request)
      → IsLimited a (serve_limited c e t st (limit_after a req))
  serve_limited-IsLimited e t st (true, rl) req =
      (handler-limiter e t (record st { limiter = rl }) (admit c e t st (pass req)), λ low. refl)
  serve_limited-IsLimited e t st (false, rl) req = (refl, λ low. absurd (omega (arith, low)))

  abbrev RoutedStep : Routed → Clock → Request → State S → Response × State S → Type 0
  RoutedStep r t req st out =
      ((is_limited r ≡ false) × (out.1.limiter ≡ st.limiter))
      ⊎ ((is_limited r ≡ true) × IsLimited (allow (client_ip req.remote_addr) t.now st.limiter) out)

  endpoint_step :
      (e : Endpoint) (params : String → String) (t : Clock) (req : Request) (st : State S)
      → IsLimited
          (allow (client_ip req.remote_addr) t.now st.limiter)
          (serve_limited c e t st (limit t.now (record req { url_param = params }) st.limiter))
  unfolding limit
  endpoint_step e params t req st =
      serve_limited-IsLimited e t st (allow (client_ip req.remote_addr) t.now st.limiter)
        (record req { url_param = params })

  routed_step :
      (r : Routed) (t : Clock) (req : Request) (st : State S)
      → RoutedStep r t req st (serve_routed c r t req st)
  routed_step no_route t req st = inl (refl, refl)
  routed_step wrong_method t req st = inl (refl, refl)
  routed_step (routed health_endpoint params) t req st = inl (refl, refl)
  routed_step (routed create_endpoint params) t req st =
      inr (refl, endpoint_step create_endpoint params t req st)
  routed_step (routed submission_endpoint params) t req st =
      inr (refl, endpoint_step submission_endpoint params t req st)
  routed_step (routed run_endpoint params) t req st =
      inr (refl, endpoint_step run_endpoint params t req st)
  routed_step (routed list_endpoint params) t req st =
      inr (refl, endpoint_step list_endpoint params t req st)
  routed_step (routed periods_endpoint params) t req st =
      inr (refl, endpoint_step periods_endpoint params t req st)
  routed_step (routed lookup_endpoint params) t req st =
      inr (refl, endpoint_step lookup_endpoint params t req st)

  not_served :
      (ip : String) (req : Request) (r : Response) → 400 ≤ status_of r → is_served ip req r ≡ false
  not_served ip req r high = ground arith

  -- A request either passes by the limiter, and is not counted, or is seen by it once.
  pub serve_step :
      (ip : String) (t : Clock) (req : Request) (st : State S)
      → ((visit_of t (enforce_https c.getenv (c.real_ip req)) ≡ [])
          × ((serve c t req st).1.limiter ≡ st.limiter)
          × (is_served ip req (serve c t req st).0 ≡ false))
        ⊎ ((visit_of t (enforce_https c.getenv (c.real_ip req)) ≡ request (address req) t.now ∷ [])
            × IsLimited (allow (address req) t.now st.limiter) (serve c t req st))
  unfolding serve
  serve_step ip t req st = elim (Checked-cases (enforce_https c.getenv (c.real_ip req))) [
    | inl (r, e) ↦
        let high : 400 ≤ status_of r = (https-IsError c.getenv (c.real_ip req)).answer r e in
        inl (rw e refl, rw e refl, rw e (not_served ip req r high))
    | inr (req', e) ↦
        let same : req' ≡ c.real_ip req = https-eq-pass c.getenv (c.real_ip req) e in
        rw (e, same)
          (elim (routed_step (c.route (c.real_ip req)) t (c.real_ip req) st) [
            | inl (off, kept) ↦ inl (rw off refl, kept, rw off refl)
            | inr (on, decided) ↦ inr (rw on refl, decided)
          ])
  ]
