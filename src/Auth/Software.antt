-- ===== src/Auth/Software.antt =====
-- What the software of a client is known as behind the middlewares.
use mathlib.Core.Bool.{false≢true}
use corncrake.Prelude.{
  ◌≡◌, ◌≢◌, ◌↔◌, sym, ap, ◌∙◌, inl, inr, String, false, ◌==◌, eq_iff, Bool-cases,
}
use corncrake.Http.{Request, pass, client_from_context}
use corncrake.Http.Checks.{pass-injective}
use corncrake.Auth.Tokens.{Jwt}
use corncrake.Auth.{AuthConfig, string_claim, claim_or_query, authenticate, require_software_params}
use corncrake.Auth.Admission.{authenticate_iff}

not_empty : {s : String} → s == "" ≡ false → s ≢ ""
not_empty {s} text e = false≢true (sym text ∙ (eq_iff s "").1 e)

-- A request passes, as it is, exactly when its query has both parameters.
pub software_params_iff :
    (req req' : Request)
    → (require_software_params req ≡ pass req')
      ↔ ((req.query "softwareUsed" ≢ "") × (req.query "softwareVersion" ≢ "") × (req' ≡ req))
unfolding require_software_params
software_params_iff req req' = elim (Bool-cases (req.query "softwareUsed" == "")) [
  | inl none_used ↦
      (λ h. cc (rw none_used at h), λ (u, _, _). absurd (u ((eq_iff _ _).0 none_used)))
  | inr used ↦ elim (Bool-cases (req.query "softwareVersion" == "")) [
    | inl no_version ↦
        (λ h. cc (rw (used, no_version) at h), λ (_, v, _). absurd (v ((eq_iff _ _).0 no_version)))
    | inr version ↦ (
      λ h.
          let same : req ≡ req' = pass-injective (rw (used, version) at h) in
          (not_empty used, not_empty version, sym same),
      λ (_, _, e). rw (used, version) (ap pass (sym e)),
    )
  ]
]

claim_or_query-ne : (claim query : String) → query ≢ "" → claim_or_query claim query ≢ ""
claim_or_query-ne claim query ne = elim (Bool-cases (claim == "")) [
  | inl empty ↦ rw empty ne
  | inr text ↦ rw text (not_empty text)
]

-- Behind both middlewares the client is known with its software: neither name nor version is empty.
pub software_identified :
    {PublicKey : Type 0} (jwt : Jwt PublicKey) (cfg : AuthConfig PublicKey)
    (req req' req'' : Request)
    → authenticate jwt cfg req ≡ pass req'
    → require_software_params req' ≡ pass req''
    → ((client_from_context req'').software_used ≢ "")
      × ((client_from_context req'').software_version ≢ "")
software_identified jwt cfg req req' req'' h k =
    let a = (authenticate_iff jwt cfg req req').0 h in
    let (used, version, same) = (software_params_iff req' req'').0 k in
    rw (same, a.handed_on)
      (
        claim_or_query-ne (string_claim a.claims "softwareUsed") _ (rw a.handed_on at used),
        claim_or_query-ne (string_claim a.claims "softwareVersion") _ (rw a.handed_on at version),
      )
