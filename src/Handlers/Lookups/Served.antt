-- ===== src/Handlers/Lookups/Served.antt =====
-- When a lookup is served, and what the occupation codes of the EHECS tenant are served as.
use corncrake.Prelude.{◌≡◌, refl, ◌↔◌, ◌⊎◌, inl, inr, sym, ◌∙◌, String, Option, none, some}
use corncrake.Prelude.Int.{ℤ}
use corncrake.Tenant
use corncrake.Tenant.{Tenant, LookupData, LookupProvider, Registry}
use corncrake.Http.{Request, Response, status_of, lookup_data, respond, pass, json_with_count}
use corncrake.Http.Checks.{
  >>=-eq-pass, Answers, Answers-pass, Answers-deny, Answers-bind, Checked-cases,
}
use corncrake.Handlers.Lookups.{
  require_known, require_provider, require_found, find_lookup, get_lookup,
}

known-eq-pass :
    (id : String) (o : Option Tenant) {t : Tenant} → require_known id o ≡ pass t → o ≡ some t
known-eq-pass id none h = cc
known-eq-pass id (some t) h = cc

provider-eq-pass :
    (id : String) (o : Option LookupProvider) {p : LookupProvider}
    → require_provider id o ≡ pass p
    → o ≡ some p
provider-eq-pass id none h = cc
provider-eq-pass id (some p) h = cc

found-eq-pass :
    (id name : String) (o : Option (LookupData × ℤ)) {found : LookupData × ℤ}
    → require_found id name o ≡ pass found
    → o ≡ some found
found-eq-pass id name none h = cc
found-eq-pass id name (some found) h = cc

abbrev Is404 : Response → Type 0
Is404 r = status_of r ≡ 404

known_404 : (id : String) (o : Option Tenant) → Answers Is404 (require_known id o)
known_404 id none = Answers-deny _ refl
known_404 id (some t) = Answers-pass t

provider_404 : (id : String) (o : Option LookupProvider) → Answers Is404 (require_provider id o)
provider_404 id none = Answers-deny _ refl
provider_404 id (some p) = Answers-pass p

found_404 :
    (id name : String) (o : Option (LookupData × ℤ)) → Answers Is404 (require_found id name o)
found_404 id name none = Answers-deny _ refl
found_404 id name (some found) = Answers-pass found

ruleset lookup_rules = (Answers-bind, known_404, provider_404, found_404)

module _ (registry : Registry) (req : Request) where
  find_404 : Answers Is404 (find_lookup registry req)
  unfolding find_lookup
  find_404 = search lookup_rules depth 12

  -- The tenant of the path is registered, provides lookups, and has data under the name of the path.
  pub record Provides (found : LookupData × ℤ) : Type 0 where
    pub tenant : Tenant
    pub registered : Tenant.lookup (req.url_param "tenantID") registry ≡ some tenant
    pub provider : LookupProvider
    pub has_lookups : tenant.lookups ≡ some provider
    pub known : provider (req.url_param "lookupName") req.query ≡ some found

  find_iff : (found : LookupData × ℤ) → (find_lookup registry req ≡ pass found) ↔ Provides found
  unfolding find_lookup
  find_iff found = (
    λ h.
        let (t, a, h₁) = >>=-eq-pass _ _ h in
        let (p, b, c) = >>=-eq-pass _ _ h₁ in
        record {
          tenant = t;
          registered = known-eq-pass _ _ a;
          provider = p;
          has_lookups = provider-eq-pass _ _ b;
          known = found-eq-pass _ _ _ c;
        },
    λ p. rw (p.registered, p.has_lookups, p.known) refl,
  )

  -- Either the tenant provides data under the name, and the answer is that data with its count; or
  -- there is none, and the answer is a 404.
  pub get_lookup_lem :
      ((found : LookupData × ℤ) × Provides found
        × (get_lookup registry req ≡ respond (json_with_count 200 (lookup_data found.0) found.1)))
      ⊎ (((found : LookupData × ℤ) → ¬ Provides found)
          × ((r : Response) × (get_lookup registry req ≡ respond r) × (status_of r ≡ 404)))
  get_lookup_lem = elim (Checked-cases (find_lookup registry req)) [
    | inl (r, e) ↦
        inr ((λ found p. cc (sym e ∙ (find_iff found).1 p)), (r, rw e refl, find_404.answer r e))
    | inr (found, e) ↦ inl (found, (find_iff found).0 e, rw e refl)
  ]
