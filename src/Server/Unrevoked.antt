-- ===== src/Server/Unrevoked.antt =====
-- The store of revoked tokens, in the states that the server comes to. Nothing calls `Revoke`.
use corncrake.Prelude.{◌≡◌, refl, ap, ◌∙◌, String, false}
use corncrake.GoMap
use corncrake.RateLimit.{RateLimiter}
use corncrake.Revocation.{cleanup, is_revoked, new_revocation_store}
use corncrake.Models.{Time}
use corncrake.Http.{Request, Checked, deny, pass}
use corncrake.Server.{
  Endpoint, create_endpoint, submission_endpoint, run_endpoint, list_endpoint, periods_endpoint,
  lookup_endpoint, health_endpoint, Routed, routed, no_route, wrong_method, Clock, Config, State,
  enforce_https, run_handler, admit, serve_limited, serve_routed, serve_checked, serve,
}
use corncrake.Server.Trace.{Reachable, started, served, limiter_cleaned, revocation_cleaned}

cleanup-empty : (now : Time) → cleanup now new_revocation_store ≡ new_revocation_store
unfolding cleanup GoMap.delete_where GoMap.empty
cleanup-empty now = refl

module _ {S PublicKey : Type 0} (c : Config S PublicKey) where
  handler_keeps :
      (e : Endpoint) (t : Clock) (st : State S) (m : Checked Request)
      → (run_handler c e t st m).1.revoked ≡ st.revoked
  handler_keeps e t st (deny r) = refl
  handler_keeps e t st (pass req) = refl

  limited_keeps :
      (e : Endpoint) (t : Clock) (st : State S) (x : Checked Request × RateLimiter)
      → (serve_limited c e t st x).1.revoked ≡ st.revoked
  limited_keeps e t st (limited, rl) =
      handler_keeps e t (record st { limiter = rl }) (admit c e t st limited)

  routed_keeps :
      (r : Routed) (t : Clock) (req : Request) (st : State S)
      → (serve_routed c r t req st).1.revoked ≡ st.revoked
  routed_keeps no_route t req st = refl
  routed_keeps wrong_method t req st = refl
  routed_keeps (routed health_endpoint params) t req st = refl
  routed_keeps (routed create_endpoint params) t req st = limited_keeps create_endpoint t st _
  routed_keeps (routed submission_endpoint params) t req st =
      limited_keeps submission_endpoint t st _
  routed_keeps (routed run_endpoint params) t req st = limited_keeps run_endpoint t st _
  routed_keeps (routed list_endpoint params) t req st = limited_keeps list_endpoint t st _
  routed_keeps (routed periods_endpoint params) t req st = limited_keeps periods_endpoint t st _
  routed_keeps (routed lookup_endpoint params) t req st = limited_keeps lookup_endpoint t st _

  checked_keeps :
      (t : Clock) (st : State S) (m : Checked Request)
      → (serve_checked c t st m).1.revoked ≡ st.revoked
  checked_keeps t st (deny r) = refl
  checked_keeps t st (pass req) = routed_keeps (c.route req) t req st

  serve_keeps :
      (t : Clock) (req : Request) (st : State S) → (serve c t req st).1.revoked ≡ st.revoked
  unfolding serve
  serve_keeps t req st = checked_keeps t st (enforce_https c.getenv (c.real_ip req))

  stays_empty :
      {start st : State S}
      → start.revoked ≡ new_revocation_store
      → Reachable c start st
      → st.revoked ≡ new_revocation_store
  stays_empty empty started = empty
  stays_empty empty (served {st = st} t req h) = serve_keeps t req st ∙ stays_empty empty h
  stays_empty empty (limiter_cleaned now h) = stays_empty empty h
  stays_empty empty (revocation_cleaned now h) =
      ap (cleanup now) (stays_empty empty h) ∙ cleanup-empty now

  -- In every state that the server comes to from an empty store of revoked tokens, no token is
  -- revoked, whatever its id is.
  pub never_revoked :
      {start st : State S} (jti : String)
      → start.revoked ≡ new_revocation_store
      → Reachable c start st
      → is_revoked jti st.revoked ≡ false
  unfolding is_revoked GoMap.get GoMap.empty
  never_revoked jti empty reachable = rw (stays_empty empty reachable) refl
