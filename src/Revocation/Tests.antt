-- ===== src/Revocation/Tests.antt =====
-- Two revoked tokens, the one of which is swept.
use corncrake.Prelude.{◌≡◌, ◌↔◌, true, List, [], ◌∷◌}
use corncrake.Revocation.{new_revocation_store, is_revoked}
use corncrake.Revocation.Lasting.{Event, revocation, tick, run, Standing, is_revoked_iff}

abbrev events : List Event
events = revocation "a" 100 ∷ revocation "b" 300 ∷ tick 200 ∷ []

is_revoked_iff_example :
    (is_revoked "b" (run events new_revocation_store) ≡ true) ↔ Standing "b" events
is_revoked_iff_example = is_revoked_iff "b" events
