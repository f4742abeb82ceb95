-- ===== src/RateLimit/Schedule.antt =====
-- Schedules of requests and of the cleaner's ticks, in the order of the mutex.
use corncrake.Prelude.{
  ℕ, ◌+◌, ◌*◌, ◌≤◌, ◌≡◌, refl, sym, ap, ◌∙◌, inl, inr, String, Bool, false, List, [], ◌∷◌, arith,
  leb, eq_iff, eq_refl, ◌==◌, if◌then◌else◌, Bool-cases,
}
use corncrake.Models.{Time}
use corncrake.RateLimit.{token, RateLimiter, allow, idle_limit, cleanup}
use corncrake.RateLimit.Level.{level, allow-level, level-allow, level-cleanup}

pub data Event : Type 0 where
  request : String → Time → Event
  tick : Time → Event

abbrev pub time_of : Event → Time
time_of (request ip t) = t
time_of (tick t) = t

-- The times do not go back.
abbrev pub Timed : Time → List Event → Type 0
Timed t [] = Unit
Timed t (e ∷ es) = (t ≤ time_of e) × Timed (time_of e) es

abbrev pub step : Event → RateLimiter → RateLimiter
step (request ip t) rl = (allow ip t rl).1
step (tick t) rl = cleanup t rl

-- The answers to the requests of one address.
unfoldable pub granted : String → List Event → RateLimiter → List Bool
granted ip [] rl = []
granted ip (request j t ∷ es) rl =
    let rest = granted ip es (step (request j t) rl) in
    if j == ip then (allow j t rl).0 ∷ rest else rest
granted ip (tick t ∷ es) rl = granted ip es (step (tick t) rl)

-- What the address itself has sent.
unfoldable pub own : String → List Event → List Event
own ip [] = []
own ip (request j t ∷ es) = let rest = own ip es in if j == ip then request j t ∷ rest else rest
own ip (tick t ∷ es) = own ip es

unfoldable pub count_true : List Bool → ℕ
count_true [] = 0
count_true (b ∷ bs) = (if b then 1 else 0) + count_true bs

abbrev pub last_time : Time → List Event → Time
last_time t [] = t
last_time t (e ∷ es) = last_time (time_of e) es

rate-allow : (ip : String) (t : Time) (rl : RateLimiter) → (allow ip t rl).1.rate ≡ rl.rate
unfolding allow
rate-allow ip t rl = ground arith

capacity-allow :
    (ip : String) (t : Time) (rl : RateLimiter) → (allow ip t rl).1.capacity ≡ rl.capacity
unfolding allow
capacity-allow ip t rl = ground arith

pub rate-step : (e : Event) (rl : RateLimiter) → (step e rl).rate ≡ rl.rate
unfolding cleanup
rate-step (request ip t) rl = rate-allow ip t rl
rate-step (tick t) rl = refl

capacity-step : (e : Event) (rl : RateLimiter) → (step e rl).capacity ≡ rl.capacity
unfolding cleanup
capacity-step (request ip t) rl = capacity-allow ip t rl
capacity-step (tick t) rl = refl

-- Two limiters that an address cannot tell apart from the time `t` on.
record Alike (ip : String) (t : Time) (rl rl' : RateLimiter) : Type 0 where
  rate : rl.rate ≡ rl'.rate
  capacity : rl.capacity ≡ rl'.capacity
  levels : (u : Time) → t ≤ u → level rl ip u ≡ level rl' ip u

module _ (ip : String) {t : Time} {rl rl' : RateLimiter} (a : Alike ip t rl rl') where
  Alike-allow : (now : Time) → t ≤ now → Alike ip now (allow ip now rl).1 (allow ip now rl').1
  Alike-allow now later = record {
    rate = rate-allow ip now rl ∙ a.rate ∙ sym (rate-allow ip now rl');
    capacity = capacity-allow ip now rl ∙ a.capacity ∙ sym (capacity-allow ip now rl');
    levels = λ u h. simp (level-allow, eq_refl) (rw (a.levels now later, a.rate, a.capacity) refl);
  }

  same_answer : (now : Time) → t ≤ now → (allow ip now rl).0 ≡ (allow ip now rl').0
  same_answer now later =
      allow-level rl ip now ∙ ap (leb token) (a.levels now later) ∙ sym (allow-level rl' ip now)

  Alike-other :
      (j : String) (now : Time) → (j == ip) ≡ false → t ≤ now → Alike ip now (allow j now rl).1 rl'
  Alike-other j now ne later = record {
    rate = rate-allow j now rl ∙ a.rate;
    capacity = capacity-allow j now rl ∙ a.capacity;
    levels = λ u h. rw (level-allow rl j ip now u, ne) (a.levels u (omega arith));
  }

  Alike-tick :
      (now : Time)
      → rl.capacity ≤ idle_limit * rl.rate
      → t ≤ now
      → Alike ip now (cleanup now rl) rl'
  unfolding cleanup
  Alike-tick now full later = record {
    rate = a.rate;
    capacity = a.capacity;
    levels = λ u h. level-cleanup rl ip now u full h ∙ a.levels u (omega arith);
  }

pub full-step :
    (e : Event) (rl : RateLimiter)
    → rl.capacity ≤ idle_limit * rl.rate
    → (step e rl).capacity ≤ idle_limit * (step e rl).rate
full-step e rl full = rw (rate-step e rl, capacity-step e rl) full

granted-Alike :
    (ip : String) (es : List Event) {t : Time} {rl rl' : RateLimiter}
    → rl.capacity ≤ idle_limit * rl.rate
    → Timed t es
    → Alike ip t rl rl'
    → granted ip es rl ≡ granted ip (own ip es) rl'
unfolding granted own
granted-Alike ip [] full timed a = refl
granted-Alike ip (tick now ∷ es) {rl} full (later, timed) a =
    granted-Alike ip es (full-step (tick now) rl full) timed (Alike-tick ip a now full later)
granted-Alike ip (request j now ∷ es) {rl} {rl'} full (later, timed) a =
    elim (Bool-cases (j == ip)) [
      | inl e ↦
          rw (e, e, (eq_iff j ip).0 e)
            (rw (same_answer ip a now later) (
              ap (λ rest. (allow ip now rl').0 ∷ rest)
                (granted-Alike ip es (full-step (request ip now) rl full) timed
                  (Alike-allow ip a now later))))
      | inr e ↦ rw e (
          granted-Alike ip es (full-step (request j now) rl full) timed
            (Alike-other ip a j now e later))
    ]

-- If ten minutes refill a bucket, the answers to an address depend on its own requests alone:
-- neither the traffic of others nor the cleaner's ticks change one of them.
pub granted_isolated :
    (ip : String) (es : List Event) (t : Time) (rl : RateLimiter)
    → rl.capacity ≤ idle_limit * rl.rate
    → Timed t es
    → granted ip es rl ≡ granted ip (own ip es) rl
granted_isolated ip es t rl full timed =
    granted-Alike ip es full timed (record { rate = refl; capacity = refl; levels = λ u h. refl })
