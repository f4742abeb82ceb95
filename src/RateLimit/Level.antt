-- ===== src/RateLimit/Level.antt =====
-- What a limiter holds for an address at a time: all that its answers depend on.
use Prim.Native.Nat.{min}
use native.Mathlib.Nat.{mul-le-mul_right}
use corncrake.Prelude.{
  ℕ, ◌+◌, ◌-◌, ◌*◌, ◌≤◌, ◌≡◌, refl, sym, ◌∙◌, inl, inr, Bool-cases, ltb→lt, String, true, Option,
  none, some, arith, ltb, leb, ◌==◌, if◌then◌else◌,
}
use corncrake.GoMap
use corncrake.GoMap.{GoMap, map_laws}
use corncrake.Models.{Time}
use corncrake.RateLimit.{
  token, IpBucket, RateLimiter, bucket_or_new, refilled, put_bucket, allow, idle_limit, is_idle,
  cleanup,
}

-- A missing bucket counts as a full one.
abbrev pub level_of : Option IpBucket → RateLimiter → Time → ℕ
level_of none rl t = rl.capacity
level_of (some b) rl t = refilled b rl t

unfoldable pub level : RateLimiter → String → Time → ℕ
level rl ip t = level_of (GoMap.get rl.buckets ip) rl t

-- The level once a request at `now` has been answered, seen at a later time.
abbrev pub level_after : RateLimiter → String → Time → Time → ℕ
level_after rl ip now t =
    let held = level rl ip now in
    min rl.capacity ((if ltb held token then held else held - token) + (t - now) * rl.rate)

refilled-level :
    (rl : RateLimiter) (ip : String) (now : Time)
    → refilled (bucket_or_new (GoMap.get rl.buckets ip) rl.capacity now) rl now ≡ level rl ip now
unfolding level
refilled-level rl ip now = ground arith

level-put_bucket :
    (rl : RateLimiter) (ip other : String) (tokens : ℕ) (now t : Time)
    → level (put_bucket rl ip tokens now) other t
      ≡ (if ip == other then min rl.capacity (tokens + (t - now) * rl.rate) else level rl other t)
unfolding level
level-put_bucket rl ip other tokens now t = simp map_laws (ground arith)

-- A request passes exactly when there is a whole token.
pub allow-level :
    (rl : RateLimiter) (ip : String) (now : Time)
    → (allow ip now rl).0 ≡ leb token (level rl ip now)
unfolding allow
allow-level rl ip now = rw (refilled-level rl ip now) (ground arith)

-- It changes the level of its own address alone.
pub level-allow :
    (rl : RateLimiter) (ip other : String) (now t : Time)
    → level (allow ip now rl).1 other t
      ≡ (if ip == other then level_after rl ip now t else level rl other t)
unfolding allow
level-allow rl ip other now t =
    rw (refilled-level rl ip now) (elim (Bool-cases (ltb (level rl ip now) token)) [
      | inl e ↦ rw (e, level-put_bucket rl ip other (level rl ip now) now t) refl
      | inr e ↦ rw (e, level-put_bucket rl ip other (level rl ip now - token) now t) refl
    ])

refilled_of_idle :
    (rl : RateLimiter) (b : IpBucket) (now t : Time)
    → rl.capacity ≤ idle_limit * rl.rate
    → now ≤ t
    → is_idle now b ≡ true
    → refilled b rl t ≡ rl.capacity
refilled_of_idle rl b now t full later idle =
    let long : idle_limit ≤ t - b.last_seen =
      omega (arith, ltb→lt (b.last_seen + idle_limit) now idle) in
    grind arith

level_of-drop_if :
    (rl : RateLimiter) (o : Option IpBucket) (now t : Time)
    → rl.capacity ≤ idle_limit * rl.rate
    → now ≤ t
    → level_of (GoMap.drop_if (is_idle now) o) rl t ≡ level_of o rl t
level_of-drop_if rl none now t full later = refl
level_of-drop_if rl (some b) now t full later = elim (Bool-cases (is_idle now b)) [
  | inl e ↦ rw e (sym (refilled_of_idle rl b now t full later e))
  | inr e ↦ rw e refl
]

level_of-buckets :
    (rl : RateLimiter) (m : GoMap IpBucket) (o : Option IpBucket) (t : Time)
    → level_of o (record rl { buckets = m }) t ≡ level_of o rl t
level_of-buckets rl m none t = refl
level_of-buckets rl m (some b) t = refl

-- If ten minutes refill a bucket, what the limiter holds for an address from the tick on is the
-- same as without the tick.
pub level-cleanup :
    (rl : RateLimiter) (ip : String) (now t : Time)
    → rl.capacity ≤ idle_limit * rl.rate
    → now ≤ t
    → level (cleanup now rl) ip t ≡ level rl ip t
unfolding cleanup level
level-cleanup rl ip now t full later = rw (GoMap.get-delete_where rl.buckets (is_idle now) ip) (
    level_of-buckets rl (GoMap.delete_where rl.buckets (is_idle now)) _ t
    ∙ level_of-drop_if rl (GoMap.get rl.buckets ip) now t full later)

level_of_growth :
    (rl : RateLimiter) (o : Option IpBucket) (t u : Time)
    → t ≤ u
    → level_of o rl u ≤ level_of o rl t + (u - t) * rl.rate
level_of_growth rl none t u h = omega arith
level_of_growth rl (some b) t u h =
    let apart : u - b.last_seen ≤ (t - b.last_seen) + (u - t) = omega arith in
    let grown : (u - b.last_seen) * rl.rate ≤ ((t - b.last_seen) + (u - t)) * rl.rate =
      mul-le-mul_right rl.rate apart in
    omega arith

-- While nothing is asked for, the level grows by no more than the rate.
pub level_growth :
    (rl : RateLimiter) (ip : String) (t u : Time)
    → t ≤ u
    → level rl ip u ≤ level rl ip t + (u - t) * rl.rate
unfolding level
level_growth rl ip t u h = level_of_growth rl (GoMap.get rl.buckets ip) t u h

pub level-le-capacity : (rl : RateLimiter) (ip : String) (t : Time) → level rl ip t ≤ rl.capacity
unfolding level
level-le-capacity rl ip t = ground arith
