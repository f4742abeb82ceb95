-- ===== src/Handlers/Submissions/Create.antt =====
-- When `Create` accepts a request, and what it then stores.
use mathlib.Core.Path.{subst}
use corncrake.Prelude.{
  ◌≡◌, refl, ◌≤◌, ◌⊎◌, ◌↔◌, sym, ap, ◌∙◌, inl, inr, String, true, Option, none, some, List, [], ◌∷◌,
  eq_iff, arith, is_empty, Option-cases,
}
use corncrake.Models.{Time, RawMessage, SubmissionRecord, SubmissionSummary}
use corncrake.Store.{ok, CreateParams, CreateResult}
use corncrake.SliceSort.{SliceSort, RangeOrder}
use corncrake.GoMap
use corncrake.Store.Memory
use corncrake.Store.Memory.{MemoryStore, memory_store, fresh_result, existing_result}
use corncrake.Tenant
use corncrake.Tenant.{Tenant, Registry}
use corncrake.Http.{
  Request, BodyRead, read, read_failed, Response, status_of, Reply, respond, deny, pass,
  result_data, json_data, client_from_context,
}
use corncrake.Http.Checks.{
  >>=-eq-pass, pass-injective, unless-eq-pass, Answers, Answers-pass, Answers-deny, Answers-unless,
  Answers-bind, Checked-cases, respond-injective, deny-ne-pass,
}
use corncrake.Handlers.Submissions.{
  SubmissionMeta, require_tenant, require_body, params_of, prepare, create,
}

is_empty-eq-true : {A : Type 0} (xs : List A) → is_empty xs ≡ true → xs ≡ []
is_empty-eq-true [] h = refl
is_empty-eq-true (x ∷ xs) h = cc

tenant-eq-pass :
    (id : String) (o : Option Tenant) {t : Tenant} → require_tenant id o ≡ pass t → o ≡ some t
tenant-eq-pass id none h = cc
tenant-eq-pass id (some t) h = cc

body-eq-pass : (b : BodyRead) {raw : RawMessage} → require_body b ≡ pass raw → b ≡ read raw
body-eq-pass (read_failed e) h = cc
body-eq-pass (read raw) h = cc

module _ (registry : Registry) (unmarshal_meta : RawMessage → SubmissionMeta) where
  -- Everything that a request needs for its submission to reach the store.
  pub record Accepted (req : Request) (p : CreateParams) : Type 0 where
    pub owner : req.url_param "holdingNumber" ≡ (client_from_context req).holding_number
    pub tenant : Tenant
    pub registered : Tenant.lookup (req.url_param "tenantID") registry ≡ some tenant
    pub raw : RawMessage
    pub body : req.body ≡ read raw
    pub schema : tenant.validate_schema raw ≡ []
    pub logic : (tenant.validate_logic raw).0 ≡ []
    pub params : p ≡ params_of unmarshal_meta req tenant raw

  pub prepare_sound :
      (req : Request) (p : CreateParams)
      → prepare registry unmarshal_meta req ≡ pass p
      → Accepted req p
  unfolding prepare
  prepare_sound req p h =
      let (_, a, h₁) = >>=-eq-pass _ _ h in
      let (t, b, h₂) = >>=-eq-pass _ _ h₁ in
      let (raw, c, h₃) = >>=-eq-pass _ _ h₂ in
      let (_, d, h₄) = >>=-eq-pass _ _ h₃ in
      let (_, e, h₅) = >>=-eq-pass _ _ h₄ in
      record {
        owner = (eq_iff _ _).0 (unless-eq-pass _ _ a);
        tenant = t;
        registered = tenant-eq-pass _ _ b;
        raw = raw;
        body = body-eq-pass _ c;
        schema = is_empty-eq-true _ (unless-eq-pass _ _ d);
        logic = is_empty-eq-true _ (unless-eq-pass _ _ e);
        params = sym (pass-injective h₅);
      }

  pub prepare_complete :
      (req : Request) (p : CreateParams)
      → Accepted req p
      → prepare registry unmarshal_meta req ≡ pass p
  unfolding prepare
  prepare_complete req p a =
      rw ((eq_iff _ _).1 a.owner, a.registered, a.body, a.schema, a.logic) (ap pass (sym a.params))

-- What a check answers with is an error.
abbrev IsError : Response → Type 0
IsError r = 400 ≤ status_of r

Refuses-tenant : (id : String) (o : Option Tenant) → Answers IsError (require_tenant id o)
Refuses-tenant id none = Answers-deny _ (omega arith)
Refuses-tenant id (some t) = Answers-pass t

Refuses-body : (b : BodyRead) → Answers IsError (require_body b)
Refuses-body (read_failed e) = Answers-deny _ (omega arith)
Refuses-body (read raw) = Answers-pass raw

-- The codes that the handler answers with.
code_400 : 400 ≤ 400
code_400 = omega arith

code_403 : 400 ≤ 403
code_403 = omega arith

code_422 : 400 ≤ 422
code_422 = omega arith

ruleset refusal_rules = (
  Answers-bind, Answers-unless, Refuses-tenant, Refuses-body, Answers-pass, code_400, code_403,
  code_422,
)

not_created :
    (result : CreateResult) {r : Response}
    → r ≡ json_data 201 (result_data result)
    → 400 ≤ status_of r
    → ⊥
not_created result e high =
    let low : 400 ≤ 201 = subst (λ q. 400 ≤ status_of q) e high in omega arith

create-ok :
    (now : Time) (p : CreateParams) (s : MemoryStore)
    → (result : CreateResult) × ((Memory.create now p s).0 ≡ ok result)
unfolding Memory.create
create-ok now p s = elim (Option-cases (GoMap.get s.submissions p.submission_id)) [
  | inl fresh ↦ (fresh_result now p, rw fresh refl)
  | inr (r, stored) ↦ (existing_result r, rw stored refl)
]

module _ (registry : Registry) (unmarshal_meta : RawMessage → SubmissionMeta) where
  prepare-Refuses : (req : Request) → Answers IsError (prepare registry unmarshal_meta req)
  unfolding prepare
  prepare-Refuses req = search refusal_rules depth 12

  -- The reply 201 with a result.
  abbrev pub IsCreated : Reply → Type 0
  IsCreated reply = (result : CreateResult) × (reply ≡ respond (json_data 201 (result_data result)))

  module _ (sorter : SliceSort SubmissionSummary) (order : RangeOrder (String × SubmissionRecord))
      (now : Time) (req : Request) (s : MemoryStore) where
    -- `Create` on the memory store.
    abbrev pub outcome : Reply × MemoryStore
    outcome = create (memory_store sorter order) registry unmarshal_meta now req s

    -- Either the request is accepted, and answered by the store with 201; or it is answered with an
    -- error, and the store is as it was.
    pub outcome_cases :
        ((p : CreateParams) × Accepted registry unmarshal_meta req p
          × IsCreated outcome.0
          × (outcome.1 ≡ (Memory.create now p s).1))
        ⊎ ((r : Response) × (outcome ≡ (respond r, s))
            × (400 ≤ status_of r)
            × (prepare registry unmarshal_meta req ≡ deny r))
    unfolding create
    outcome_cases = elim (Checked-cases (prepare registry unmarshal_meta req)) [
      | inl (r, e) ↦ inr (r, rw e refl, (prepare-Refuses req).answer r e, e)
      | inr (p, e) ↦
          let (result, done) = create-ok now p s in
          inl (
            p,
            prepare_sound registry unmarshal_meta req p e,
            (result, rw (e, done) refl),
            rw e refl,
          )
    ]

    -- With the memory store, the answer is 201 exactly when the request is accepted: its holding is
    -- the client's, its tenant is registered, its body can be read, and the tenant's two checks
    -- report no error. The year and the quarter of the path are not looked at.
    pub IsCreated-iff :
        IsCreated outcome.0 ↔ ((p : CreateParams) × Accepted registry unmarshal_meta req p)
    IsCreated-iff = (
      λ (result, e). elim outcome_cases [
        | inl (p, a, _, _) ↦ (p, a)
        | inr (r, e', high, _) ↦
            absurd (not_created result (respond-injective (sym (ap (λ x. x.0) e') ∙ e)) high)
      ],
      λ (p, a). elim outcome_cases [
        | inl (_, _, c, _) ↦ c
        | inr (r, _, _, d) ↦
            absurd (deny-ne-pass (sym d ∙ prepare_complete registry unmarshal_meta req p a))
      ],
    )

    -- With the memory store, a request that is not accepted is answered with an error, and leaves the
    -- store as it was.
    pub refused_unchanged :
        ¬ ((p : CreateParams) × Accepted registry unmarshal_meta req p)
        → (r : Response) × (outcome ≡ (respond r, s)) × (400 ≤ status_of r)
    refused_unchanged refused = elim outcome_cases [
      | inl (p, a, _, _) ↦ absurd (refused (p, a))
      | inr (r, e, h, _) ↦ (r, e, h)
    ]
