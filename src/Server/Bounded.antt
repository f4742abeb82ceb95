-- ===== src/Server/Bounded.antt =====
-- How much of an address the whole server serves.
use mathlib.Core.Bool.{false≢true}
use corncrake.Prelude.{
  ℕ, ◌+◌, ◌-◌, ◌*◌, ◌≤◌, ◌≡◌, refl, inl, inr, String, Bool, true, false, ◌&&◌, List, [], ◌∷◌, arith,
  ltb, ltb→lt, ◌==◌, Bool-cases, if◌then◌else◌,
}
use corncrake.Models.{Time}
use corncrake.RateLimit.{token, idle_limit}
use corncrake.RateLimit.Schedule.{Timed, last_time, granted, count_true}
use corncrake.RateLimit.Admitted.{admitted_bound}
use corncrake.Http.{status_of}
use corncrake.Server.{Config, State, serve}
use corncrake.Server.Visits.{
  Happening, asked, limiter_swept, revocation_swept, is_limited, happens, address, served_count,
  visits, serve_step,
}

seen_here :
    (on low ok_ : Bool) (n : ℕ) (rest : List Bool)
    → (low ≡ true → ok_ ≡ true)
    → n ≤ count_true rest
    → (if on && (true && low) then 1 else 0) + n ≤ count_true (ok_ ∷ rest)
unfolding count_true
seen_here on low true n rest granted_ h = ground arith
seen_here on true false n rest granted_ h = absurd (false≢true (granted_ refl))
seen_here true false false n rest granted_ h = omega (arith, h)
seen_here false false false n rest granted_ h = omega (arith, h)

seen_elsewhere : (on low : Bool) (n m : ℕ) → n ≤ m → (if on && (false && low) then 1 else 0) + n ≤ m
seen_elsewhere true low n m h = omega (arith, h)
seen_elsewhere false low n m h = omega (arith, h)

module _ {S PublicKey : Type 0} (c : Config S PublicKey) where
  served_within_granted :
      (ip : String) (hs : List Happening) (st : State S)
      → served_count c ip hs st ≤ count_true (granted ip (visits c hs) st.limiter)
  unfolding served_count visits granted count_true
  served_within_granted ip [] st = omega arith
  served_within_granted ip (limiter_swept now ∷ hs) st =
      served_within_granted ip hs (happens c (limiter_swept now) st)
  served_within_granted ip (revocation_swept now ∷ hs) st =
      served_within_granted ip hs (happens c (revocation_swept now) st)
  served_within_granted ip (asked t req ∷ hs) st =
      let ih = served_within_granted ip hs (happens c (asked t req) st) in
      elim (serve_step c ip t req st) [
        | inl (unseen, kept, uncounted) ↦ rw (unseen, uncounted) (omega (arith, rw kept at ih))
        | inr (seen, (limited, granted_)) ↦
            let r = (serve c t req st).0 in
            let ih' = rw limited at ih in
            rw seen (elim (Bool-cases (address c req == ip)) [
              | inl here ↦ rw here (
                  seen_here (is_limited (c.route (c.real_ip req))) (ltb (status_of r) 400) _ _ _
                    (λ low. granted_ (ltb→lt (status_of r) 400 low)) ih')
              | inr elsewhere ↦ rw elsewhere (
                  seen_elsewhere (is_limited (c.route (c.real_ip req))) (ltb (status_of r) 400) _ _
                    ih')
            ])
      ]

  -- However requests and clean-ups follow one another, the server answers an address below 400, the
  -- health check left aside, no more often than the capacity and the refill of the time allow, if ten
  -- minutes refill a bucket and the clock of the limiter does not go back.
  pub served_bound :
      (ip : String) (hs : List Happening) (t : Time) (st : State S)
      → st.limiter.capacity ≤ idle_limit * st.limiter.rate
      → Timed t (visits c hs)
      → token * served_count c ip hs st
        ≤ st.limiter.capacity + (last_time t (visits c hs) - t) * st.limiter.rate
  served_bound ip hs t st full timed = omega (
    arith,
    served_within_granted ip hs st,
    admitted_bound ip (visits c hs) t st.limiter full timed,
  )
