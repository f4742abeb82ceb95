-- ===== src/Server/Trace.antt =====
-- The states that the server comes to: from the one that it starts with, by requests and by the ticks
-- of the two clean-ups, in any order. Each of them is one step, under the mutex of its part.
pub mod Tests
use corncrake.Models.{Time}
use corncrake.RateLimit
use corncrake.Revocation
use corncrake.Http.{Request}
use corncrake.Server.{Clock, Config, State, serve}

module _ {S PublicKey : Type 0} (c : Config S PublicKey) where
  pub data Reachable (start : State S) : State S → Type 0 where
    started : Reachable start start
    served :
        {st : State S} (t : Clock) (req : Request)
        → Reachable start st
        → Reachable start (serve c t req st).1
    limiter_cleaned :
        {st : State S} (now : Time)
        → Reachable start st
        → Reachable start (record st { limiter = RateLimit.cleanup now st.limiter })
    revocation_cleaned :
        {st : State S} (now : Time)
        → Reachable start st
        → Reachable start (record st { revoked = Revocation.cleanup now st.revoked })
