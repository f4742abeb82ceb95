-- ===== src/RateLimit/Tests.antt =====
-- The limiter of the program, one request a second and thirty at once, on a short run.
use corncrake.Prelude.{◌*◌, ◌≡◌, true, List, [], ◌∷◌, arith}
use corncrake.GoMap
use corncrake.RateLimit.Admitted.{allow_after_wait}
use corncrake.RateLimit.{RateLimiter, new_rate_limiter, second, allow}
use corncrake.RateLimit.Schedule.{Event, Timed, request, tick, own, granted, granted_isolated}

abbrev limiter : RateLimiter
limiter = new_rate_limiter 1 30

abbrev events : List Event
events =
    request "10.0.0.1" 5
    ∷ request "10.0.0.2" 6
    ∷ tick 600_000_000_000
    ∷ request "10.0.0.1" 900_000_000_000
    ∷ []

events-Timed : Timed 0 events
events-Timed = (omega arith, (omega arith, (omega arith, (omega arith, tt))))

granted_isolated_example :
    granted "10.0.0.1" events limiter ≡ granted "10.0.0.1" (own "10.0.0.1" events) limiter
granted_isolated_example = granted_isolated "10.0.0.1" events 0 limiter (omega arith) events-Timed

allow_after_wait_example :
    (allow "10.0.0.1" (2 * second) (allow "10.0.0.1" second limiter).1).0 ≡ true
allow_after_wait_example =
    allow_after_wait "10.0.0.1" limiter second (2 * second) (omega arith) (omega arith)

-- A limiter that has seen one address, and has let it spend all it had.
abbrev seen : RateLimiter
seen = record limiter {
  buckets = GoMap.put GoMap.empty "10.0.0.1" (record { tokens = 0; last_seen = 5 });
}
