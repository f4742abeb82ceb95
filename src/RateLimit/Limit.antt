-- ===== src/RateLimit/Limit.antt =====
-- The middleware `Limit` of internal/middleware/ratelimit.go.
use corncrake.Prelude.{◌≡◌, refl, String, Bool, false, ◌||◌}
use corncrake.Text.{◌<>◌}
use corncrake.Text.HostPort.{has, client_ip, client_ip-plain}
use corncrake.Models.{Time}
use corncrake.Http.{Request, Checked, pass, ◌>>◌, unless, write_err_json}
use corncrake.RateLimit.{RateLimiter, allow}

abbrev pub limit_after : Bool × RateLimiter → Request → Checked Request × RateLimiter
limit_after (allowed, rl) req = (
  unless allowed (
        write_err_json 429 "RATE_LIMITED"
          "Too many requests. Please slow down and try again later.")
      >> pass req,
  rl,
)

unfoldable pub limit : Time → Request → RateLimiter → Checked Request × RateLimiter
limit now req rl = limit_after (allow (client_ip req.remote_addr) now rl) req

-- No colon and no bracket.
abbrev pub IsPlain : String → Type 0
IsPlain s = has b':' s || has b'[' s || has b']' s ≡ false

-- A request counts for its host alone: the port that it comes from makes no difference to the answer
-- and to what the limiter keeps.
pub limit-allow_host :
    (host port : String) (now : Time) (req : Request) (rl : RateLimiter)
    → IsPlain host
    → IsPlain port
    → req.remote_addr ≡ host <> ":" <> port
    → limit now req rl ≡ limit_after (allow host now rl) req
unfolding limit
limit-allow_host host port now req rl h p e = rw (e, client_ip-plain host port h p) refl
