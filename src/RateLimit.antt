-- ===== src/RateLimit.antt =====
-- internal/middleware/ratelimit.go: the token bucket of each client address.
-- Times are nanoseconds. A count of tokens, a `float64` of the source, is in billionths of a token, so
-- that `elapsed * rate` is exact for a rate in whole tokens per second: the roundings of `float64` are
-- not modelled. `allow` reads Go's monotonic clock under the mutex, so `elapsed` is never negative.
pub mod Level
pub mod Schedule
pub mod Admitted
pub mod Limit
mod Tests
use Prim.Native.Nat.{min}
use corncrake.Prelude.{
  ℕ, ◌+◌, ◌-◌, ◌*◌, ◌^◌, String, Bool, true, false, Option, none, some, ltb, if◌then◌else◌,
}
use corncrake.GoMap
use corncrake.GoMap.{GoMap}
use corncrake.Models.{Time}

abbrev pub second : ℕ
second = 1_000_000_000

abbrev pub minute : ℕ
minute = 60_000_000_000

-- One token.
abbrev pub token : ℕ
token = 1_000_000_000

pub record IpBucket : Type 0 where
  pub tokens : ℕ
  pub last_seen : Time

pub record RateLimiter : Type 0 where
  pub buckets : GoMap IpBucket
  pub rate : ℕ
  pub capacity : ℕ

-- The capacity in tokens; the limiter keeps it in billionths.
abbrev pub new_rate_limiter : ℕ → ℕ → RateLimiter
new_rate_limiter rate capacity = record {
  buckets = GoMap.empty;
  rate = rate;
  capacity = capacity * token;
}

-- The bucket of an address, or a full one.
abbrev pub bucket_or_new : Option IpBucket → ℕ → Time → IpBucket
bucket_or_new none capacity now = record { tokens = capacity; last_seen = now }
bucket_or_new (some b) capacity now = b

abbrev pub refilled : IpBucket → RateLimiter → Time → ℕ
refilled b rl now = min rl.capacity (b.tokens + (now - b.last_seen) * rl.rate)

abbrev pub put_bucket : RateLimiter → String → ℕ → Time → RateLimiter
put_bucket rl ip tokens now = record rl {
  buckets = GoMap.put rl.buckets ip (record { tokens = tokens; last_seen = now });
}

-- The decision, on the tokens that the bucket has been refilled to.
abbrev pub spend : String → Time → RateLimiter → ℕ → Bool × RateLimiter
spend ip now rl tokens =
    if ltb tokens token
    then (false, put_bucket rl ip tokens now)
    else (true, put_bucket rl ip (tokens - token) now)

unfoldable pub allow : String → Time → RateLimiter → Bool × RateLimiter
allow ip now rl =
    spend ip now rl (refilled (bucket_or_new (GoMap.get rl.buckets ip) rl.capacity now) rl now)

abbrev pub idle_limit : ℕ
idle_limit = 10 * minute

-- `lastSeen.Before(now.Add(-10 * time.Minute))`
abbrev pub is_idle : Time → IpBucket → Bool
is_idle now b = ltb (b.last_seen + idle_limit) now

-- One tick of `runCleanup`.
unfoldable pub cleanup : Time → RateLimiter → RateLimiter
cleanup now rl = record rl { buckets = GoMap.delete_where rl.buckets (is_idle now) }
