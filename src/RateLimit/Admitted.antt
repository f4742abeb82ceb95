-- ===== src/RateLimit/Admitted.antt =====
-- How many requests of an address the limiter lets through.
use mathlib.Core.Path.{subst}
use Prim.Native.Nat.{min}
use corncrake.Prelude.{
  ℕ, ◌+◌, ◌-◌, ◌*◌, ◌≤◌, ◌≡◌, sym, ap, inl, inr, String, Bool, true, List, [], ◌∷◌, arith, leb, ltb,
  eq_iff, eq_refl, ◌==◌, if◌then◌else◌, Bool-cases,
}
use corncrake.Models.{Time}
use corncrake.RateLimit.{token, RateLimiter, allow, idle_limit, cleanup}
use corncrake.RateLimit.Level.{
  level, allow-level, level-allow, level-cleanup, level_growth, level-le-capacity,
}
use corncrake.RateLimit.Schedule.{
  Event, request, tick, time_of, Timed, granted, count_true, last_time, rate-step, full-step,
}

-- What one answer takes, and what is left at once.
abbrev cost : Bool → ℕ
cost b = if b then token else 0

spent :
    (held cap rate now : ℕ)
    → cost (leb token held)
        + min cap ((if ltb held token then held else held - token) + (now - now) * rate)
      ≤ held
spent held cap rate now = let nothing : now - now ≡ 0 = omega arith in rw nothing (ground arith)

admitted_here :
    (ip : String) (now : Time) (rl : RateLimiter)
    → cost (allow ip now rl).0 + level (allow ip now rl).1 ip now ≤ level rl ip now
admitted_here ip now rl =
    rw (allow-level rl ip now, level-allow rl ip ip now now, eq_refl ip)
      (spent (level rl ip now) rl.capacity rl.rate now)

last_time-le : (t : Time) (es : List Event) → Timed t es → t ≤ last_time t es
last_time-le t [] timed = omega arith
last_time-le t (e ∷ es) (later, timed) = omega (arith, last_time-le (time_of e) es timed)

-- Two stretches of time refill as much as the whole.
stretches :
    (t now last rate : ℕ)
    → t ≤ now
    → now ≤ last
    → (now - t) * rate + (last - now) * rate ≡ (last - t) * rate
stretches t now last rate h k =
    let whole : last - t ≡ (now - t) + (last - now) = omega arith in rw whole (omega arith)

cost_count :
    (b : Bool) (bs : List Bool) → token * count_true (b ∷ bs) ≡ cost b + token * count_true bs
unfolding count_true
cost_count b bs = ground arith

admitted_from :
    (ip : String) (es : List Event) (t : Time) (rl : RateLimiter)
    → rl.capacity ≤ idle_limit * rl.rate
    → Timed t es
    → token * count_true (granted ip es rl) ≤ level rl ip t + (last_time t es - t) * rl.rate
unfolding granted count_true
admitted_from ip [] t rl full timed = omega arith
admitted_from ip (tick now ∷ es) t rl full (later, timed) = omega (
  arith,
  admitted_from ip es now (cleanup now rl) (full-step (tick now) rl full) timed,
  ap (λ r. (last_time now es - now) * r) (rate-step (tick now) rl),
  level-cleanup rl ip now now full (omega arith),
  level_growth rl ip t now later,
  stretches t now (last_time now es) rl.rate later (last_time-le now es timed),
)
admitted_from ip (request j now ∷ es) t rl full (later, timed) =
    let ih = admitted_from ip es now (allow j now rl).1 (full-step (request j now) rl full) timed in
    let same_rate = ap (λ r. (last_time now es - now) * r) (rate-step (request j now) rl) in
    let grown = level_growth rl ip t now later in
    let parts = stretches t now (last_time now es) rl.rate later (last_time-le now es timed) in
    elim (Bool-cases (j == ip)) [
      | inl e ↦
          let same = (eq_iff j ip).0 e in
          rw e (
            omega (
              arith,
              ih,
              same_rate,
              grown,
              parts,
              cost_count (allow j now rl).0 (granted ip es (allow j now rl).1),
              subst
                  (λ k. cost (allow k now rl).0 + level (allow k now rl).1 ip now ≤ level rl ip now)
                  (sym same) (admitted_here ip now rl),
            ))
      | inr e ↦
          rw e (omega (arith, ih, same_rate, grown, parts, rw e at (level-allow rl j ip now now)))
    ]

-- Over any stretch of time an address is let through no more often than the capacity and the refill
-- of that time allow, if ten minutes refill a bucket.
pub admitted_bound :
    (ip : String) (es : List Event) (t : Time) (rl : RateLimiter)
    → rl.capacity ≤ idle_limit * rl.rate
    → Timed t es
    → token * count_true (granted ip es rl) ≤ rl.capacity + (last_time t es - t) * rl.rate
admitted_bound ip es t rl full timed =
    omega (arith, admitted_from ip es t rl full timed, level-le-capacity rl ip t)

-- If a bucket holds a token at all, whoever has waited since his last request until the rate yields a
-- token is let through.
pub allow_after_wait :
    (ip : String) (rl : RateLimiter) (t now : Time)
    → token ≤ rl.capacity
    → token ≤ (now - t) * rl.rate
    → (allow ip now (allow ip t rl).1).0 ≡ true
allow_after_wait ip rl t now room wait =
    rw (allow-level (allow ip t rl).1 ip now, level-allow rl ip ip t now, eq_refl ip) (ground arith)
