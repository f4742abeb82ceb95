-- ===== src/Revocation.antt =====
-- internal/middleware/revocation.go: the ids of revoked tokens, until their expiry. Each method is one
-- step, under the mutex; times are nanoseconds.
pub mod Lasting
mod Tests
use corncrake.Prelude.{String, Bool, true, false, Option, none, some, ltb}
use corncrake.GoMap
use corncrake.GoMap.{GoMap}
use corncrake.Models.{Time}

-- `items` has the expiry of each token.
pub record RevocationStore : Type 0 where
  pub items : GoMap Time

abbrev pub new_revocation_store : RevocationStore
new_revocation_store = record { items = GoMap.empty }

unfoldable pub revoke : String → Time → RevocationStore → RevocationStore
revoke jti expiry rs = record { items = GoMap.put rs.items jti expiry }

abbrev pub is_present : Option Time → Bool
is_present none = false
is_present (some expiry) = true

unfoldable pub is_revoked : String → RevocationStore → Bool
is_revoked jti rs = is_present (GoMap.get rs.items jti)

-- One tick of `runCleanup`, with its `now.After(exp)`.
unfoldable pub cleanup : Time → RevocationStore → RevocationStore
cleanup now rs = record { items = GoMap.delete_where rs.items (λ expiry. ltb expiry now) }
