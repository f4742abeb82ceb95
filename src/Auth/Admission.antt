-- ===== src/Auth/Admission.antt =====
-- Which requests the two middlewares let through, and as whose.
use mathlib.Core.Bool.{false≢true}
use corncrake.Prelude.{
  ℕ, ◌≡◌, refl, ◌≢◌, ◌↔◌, sym, ap, ◌∙◌, inl, inr, String, Bool, true, false, not, Option, none,
  some, ◌==◌, eq_iff, eq-false_of_ne, Bool-cases,
}
use corncrake.Text.{codes, contains, ◌<>◌}
use corncrake.Text.Prefix.{strip_prefix_iff}
use corncrake.Revocation.{RevocationStore, is_revoked}
use corncrake.Http.{Request, Response, status_of, deny, pass}
use corncrake.Http.Checks.{
  >>=-eq-pass, pass-injective, unless-eq-pass, Answers, Answers-pass, Answers-deny, Answers-bind,
  Answers-unless,
}
use corncrake.Auth.Tokens.{
  SigningMethod, rsa, hmac, other_method, Key, public_key, secret, Claims, Parsed, accepted,
  rejected, Jwt, Verifies,
}
use corncrake.Auth.{
  AuthConfig, string_claim, bearer_prefix, require_bearer, require_parsed, is_token_revoked,
  identity, rsa_key, hmac_key, key_for, authenticate,
}

bearer-eq-pass :
    (o : Option String) {token : String} → require_bearer o ≡ pass token → o ≡ some token
bearer-eq-pass none h = cc
bearer-eq-pass (some token) h = cc

parsed-eq-pass :
    (p : Parsed) {claims : Claims} → require_parsed p ≡ pass claims → p ≡ accepted claims true
parsed-eq-pass (rejected e) h = cc
parsed-eq-pass (accepted claims true) h = cc
parsed-eq-pass (accepted claims false) h = cc

-- What a store of revoked tokens, if there is one, says of a token id.
abbrev pub IsUnrevoked : Option RevocationStore → String → Type 0
IsUnrevoked revocation jti =
    (rs : RevocationStore) → revocation ≡ some rs → jti ≢ "" → is_revoked jti rs ≡ false

IsUnrevoked-sound :
    (o : Option RevocationStore) (jti : String)
    → not (is_token_revoked o jti) ≡ true
    → IsUnrevoked o jti
IsUnrevoked-sound none jti h rs e ne = cc
IsUnrevoked-sound (some q) jti h rs e ne =
    let same : q ≡ rs = cc in
    rw (← same) (elim (Bool-cases (is_revoked jti q)) [
      | inl revoked ↦ absurd (false≢true (rw (eq-false_of_ne jti "" ne, revoked) at h))
      | inr fine ↦ fine
    ])

IsUnrevoked-complete :
    (o : Option RevocationStore) (jti : String)
    → IsUnrevoked o jti
    → not (is_token_revoked o jti) ≡ true
IsUnrevoked-complete none jti h = refl
IsUnrevoked-complete (some q) jti h = elim (Bool-cases (jti == "")) [
  | inl empty ↦ rw empty refl
  | inr text ↦ rw (text, h q refl (λ e. false≢true (sym text ∙ (eq_iff jti "").1 e))) refl
]

abbrev Is401 : Response → Type 0
Is401 r = status_of r ≡ 401

bearer_401 : (o : Option String) → Answers Is401 (require_bearer o)
bearer_401 none = Answers-deny _ refl
bearer_401 (some token) = Answers-pass token

parsed_401 : (p : Parsed) → Answers Is401 (require_parsed p)
parsed_401 (rejected e) = Answers-deny _ (elim (Bool-cases (contains (codes e) (codes "expired"))) [
  | inl expired ↦ rw expired refl
  | inr other ↦ rw other refl
])
parsed_401 (accepted claims true) = Answers-pass claims
parsed_401 (accepted claims false) = Answers-deny _ refl

unauthorised : ◌≡◌ {A = ℕ} 401 401
unauthorised = refl

ruleset auth_rules =
    (Answers-bind, Answers-unless, Answers-pass, bearer_401, parsed_401, unauthorised)

rsa_key-eq-some :
    {PublicKey : Type 0} (pk : PublicKey) (m : SigningMethod) {k : Key PublicKey}
    → rsa_key pk m ≡ some k
    → (name : String) × (m ≡ rsa name) × (k ≡ public_key pk)
rsa_key-eq-some pk (rsa name) h = (name, refl, cc)
rsa_key-eq-some pk (hmac name) h = cc
rsa_key-eq-some pk other_method h = cc

hmac_key-eq-some :
    {PublicKey : Type 0} (s : String) (m : SigningMethod) {k : Key PublicKey}
    → hmac_key s m ≡ some k
    → (name : String) × (m ≡ hmac name) × (k ≡ secret s)
hmac_key-eq-some s (rsa name) h = cc
hmac_key-eq-some s (hmac name) h = (name, refl, cc)
hmac_key-eq-some s other_method h = cc

module _ {PublicKey : Type 0} (jwt : Jwt PublicKey) (cfg : AuthConfig PublicKey) where
  -- The request carries a token that the parser takes, that is not revoked; it is handed on with the
  -- identity that the token's claims give.
  pub record Admits (req req' : Request) : Type 0 where
    pub token : String
    pub header : req.header "Authorization" ≡ bearer_prefix <> token
    pub claims : Claims
    pub parsed : jwt.parse_with_claims token (key_for cfg) ≡ accepted claims true
    pub unrevoked : IsUnrevoked cfg.revocation (string_claim claims "jti")
    pub handed_on : req' ≡ record req { client = some (identity claims req) }

  -- A request passes exactly when it carries a bearer token which the parser takes as valid and whose
  -- id, if it has one, is not in the store of revoked tokens, and it passes with the identity from the
  -- token's claims.
  pub authenticate_iff :
      (req req' : Request) → (authenticate jwt cfg req ≡ pass req') ↔ Admits req req'
  unfolding authenticate
  authenticate_iff req req' = (
    λ h.
        let (token, a, h₁) = >>=-eq-pass _ _ h in
        let (claims, b, h₂) = >>=-eq-pass _ _ h₁ in
        let (_, c, h₃) = >>=-eq-pass _ _ h₂ in
        record {
          token = token;
          header = (strip_prefix_iff _ _ _).0 (bearer-eq-pass _ a);
          claims = claims;
          parsed = parsed-eq-pass _ b;
          unrevoked = IsUnrevoked-sound _ _ (unless-eq-pass _ _ c);
          handed_on = sym (pass-injective h₃);
        },
    λ a.
        rw
          (
            (strip_prefix_iff bearer_prefix _ _).1 a.header,
            a.parsed,
            IsUnrevoked-complete cfg.revocation (string_claim a.claims "jti") a.unrevoked,
          )
          (ap pass (sym a.handed_on)),
  )

  authenticate_401 : (req : Request) → Answers Is401 (authenticate jwt cfg req)
  unfolding authenticate
  authenticate_401 req = search auth_rules depth 12

  -- A request that does not pass is answered with 401.
  pub refused_401 :
      (req : Request) (r : Response) → authenticate jwt cfg req ≡ deny r → status_of r ≡ 401
  refused_401 req r h = (authenticate_401 req).answer r h

  -- The token is signed with the key that the server is configured with, by a method of its kind.
  pub record SignedByKey (v : Verifies jwt) (token : String) : Type 0 where
    pub with_rsa :
        (k : PublicKey)
        → cfg.rsa_public_key ≡ some k
        → (name : String) × (v.method_of token ≡ some (rsa name))
          × (v.is_signed (rsa name) (public_key k) token ≡ true)
    pub with_hmac :
        cfg.rsa_public_key ≡ none
        → (name : String) × (v.method_of token ≡ some (hmac name))
          × (v.is_signed (hmac name) (secret cfg.hmac_secret) token ≡ true)

  pub signed :
      (v : Verifies jwt) {token : String} {claims : Claims} {valid : Bool}
      → jwt.parse_with_claims token (key_for cfg) ≡ accepted claims valid
      → SignedByKey v token
  signed v {token} {claims} {valid} h =
      let (m, k, method, key, verified) = v.checked token (key_for cfg) claims valid h in
      record {
        with_rsa = λ pk e.
            let (name, a, b) = rsa_key-eq-some pk m (rw e at key) in
            (name, rw a at method, rw (a, b) at verified);
        with_hmac = λ e.
            let (name, a, b) = hmac_key-eq-some cfg.hmac_secret m (rw e at key) in
            (name, rw a at method, rw (a, b) at verified);
      }

  -- A request that passes carries a token signed by an RSA method with the configured public key, or,
  -- if there is none, by an HMAC method with the secret: no token passes by the public key taken for
  -- an HMAC secret, or without a signature.
  pub authenticate-SignedByKey :
      (v : Verifies jwt) (req req' : Request)
      → authenticate jwt cfg req ≡ pass req'
      → (token : String) × (req.header "Authorization" ≡ bearer_prefix <> token)
        × SignedByKey v token
  authenticate-SignedByKey v req req' h =
      let a = (authenticate_iff req req').0 h in (a.token, a.header, signed v a.parsed)
