-- ===== src/Auth/Tokens.antt =====
-- What auth.go uses of golang-jwt: the parser as a parameter, and the part of its documented behaviour
-- that the middleware relies on.
use corncrake.Prelude.{◌≡◌, String, Bool, true, Option, some}
use corncrake.GoMap.{GoMap}

-- `t.Method`: the types that the key function tests for, with the algorithm's name, and the others.
pub data SigningMethod : Type 0 where
  rsa hmac : String → SigningMethod
  other_method : SigningMethod

pub data Key (PublicKey : Type 0) : Type 0 where
  public_key : PublicKey → Key PublicKey
  secret : String → Key PublicKey

-- A value of `jwt.MapClaims`: a string, or of another type.
pub data ClaimValue : Type 0 where
  text_claim : String → ClaimValue
  other_claim : ClaimValue

abbrev pub Claims : Type 0
Claims = GoMap ClaimValue

-- The claims with `token.Valid`, or the text of the error.
pub data Parsed : Type 0 where
  accepted : Claims → Bool → Parsed
  rejected : String → Parsed

-- `jwt.ParseWithClaims`: the token and the key function.
pub record Jwt (PublicKey : Type 0) : Type 0 where
  pub parse_with_claims : String → (SigningMethod → Option (Key PublicKey)) → Parsed

-- The parser takes a token only if its signature verifies, under the method that its header names,
-- with the key that the key function gives for that method.
pub record Verifies {PublicKey : Type 0} (jwt : Jwt PublicKey) : Type 0 where
  pub method_of : String → Option SigningMethod
  pub is_signed : SigningMethod → Key PublicKey → String → Bool
  pub checked :
      (token : String) (key_for : SigningMethod → Option (Key PublicKey)) (claims : Claims)
      (valid : Bool)
      → jwt.parse_with_claims token key_for ≡ accepted claims valid
      → (m : SigningMethod) × (k : Key PublicKey) × (method_of token ≡ some m)
        × (key_for m ≡ some k)
        × (is_signed m k token ≡ true)
