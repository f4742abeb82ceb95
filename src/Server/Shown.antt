-- ===== src/Server/Shown.antt =====
-- What the whole server shows of the store.
use mathlib.Core.Path.{subst}
use corncrake.Prelude.{
  ◌≡◌, refl, ◌≢◌, ◌<◌, sym, ap, ◌∙◌, inl, inr, String, Bool, Option, none, some, List, [], ◌∷◌,
  first, All, arith, Bool-cases,
}
use corncrake.Prelude.Int.{ℤ}
use corncrake.SliceSort.{SliceSort, RangeOrder}
use corncrake.Models.{Time, SubmissionRecord, SubmissionSummary}
use corncrake.Store.{CreateParams, ok}
use corncrake.Store.Memory.{MemoryStore, memory_store, new_memory_store, new_record, or_not_found}
use corncrake.Store.Memory.Represents.{Represents, Represents-empty}
use corncrake.Store.Memory.Answers.{memory_store-Answers}
use corncrake.Store.Contract.{AnswersWithin, Answers}
use corncrake.Store.Ledger.{Ledger}
use corncrake.Sql.Executes.{Executes}
use corncrake.RateLimit.{RateLimiter, allow}
use corncrake.RateLimit.Limit.{limit, limit_after}
use corncrake.Text.HostPort.{client_ip}
use corncrake.Auth.{string_claim}
use corncrake.Auth.Tokens.{Verifies}
use corncrake.Auth.Admission.{Admits, SignedByKey, signed}
use corncrake.Http.{
  Request, status_of, Payload, Reply, respond, crash, pass, record_data, json_data,
  client_from_context,
}
use corncrake.Handlers.Submissions.{get_submission}
use corncrake.Handlers.Submissions.Access.{get_submission_own}
use corncrake.Server.{
  submission_endpoint, health_endpoint, routed, Clock, Config, State, auth_config, recovered, admit,
  serve_limited, serve,
}
use corncrake.Server.Stored.{admit-Admits}
use corncrake.Server.Gates.{serve_limited-passes, serve-passes}
use corncrake.Server.Trace.{Reachable}
use corncrake.Server.Kept.{IsSubmitted, KeepsAccepted, StoresAll, Reachable-IsSound}
use corncrake.Server.Backends.{memory-KeepsAccepted, memory-StoresAll}

ok-injective : {A : Type 0} {a b : A} → ok a ≡ ok b → a ≡ b
ok-injective e = cc

some-injective : {A : Type 0} {a b : A} → some a ≡ some b → a ≡ b
some-injective e = cc

or_not_found-eq-ok : {A : Type 0} (o : Option A) {a : A} → or_not_found o ≡ ok a → o ≡ some a
or_not_found-eq-ok none h = cc
or_not_found-eq-ok (some b) h = ap some (ok-injective h)

All-first :
    {A : Type 0} (P : A → Type 0) (q : A → Bool) (xs : List A) {a : A}
    → All P xs
    → first q xs ≡ some a
    → P a
All-first P q [] h e = cc
All-first P q (x ∷ xs) (px, h) e = elim (Bool-cases (q x)) [
  | inl yes_ ↦ rw (← some-injective (rw yes_ at e)) px
  | inr no_ ↦ All-first P q xs h (rw no_ at e)
]

submission-ne-health : submission_endpoint ≢ health_endpoint
submission-ne-health e = cc

module _ {S PublicKey : Type 0} (c : Config S PublicKey) where
  recovered-eq-json :
      (reply : Reply) {payload : Payload}
      → recovered c reply ≡ json_data 200 payload
      → reply ≡ respond (json_data 200 payload)
  recovered-eq-json (respond r) h = ap respond h
  recovered-eq-json crash h = cc

  get_submission_served :
      (t : Clock) (st : State S) (a : Bool × RateLimiter) (req seen : Request)
      → admit c submission_endpoint t st (limit_after a req).0 ≡ pass seen
      → (serve_limited c submission_endpoint t st (limit_after a req)).0
        ≡ recovered c (get_submission c.store seen st.submissions)
  get_submission_served t st a req seen passed = rw passed refl

  -- An answer that shows a record is the answer of `GetSubmission` to a client with a token.
  shown_by_handler :
      (t : Clock) (req : Request) (st : State S) {params : String → String} (r : SubmissionRecord)
      → c.route (c.real_ip req) ≡ routed submission_endpoint params
      → (serve c t req st).0 ≡ json_data 200 (record_data r)
      → (seen : Request) × Admits
          (c.jwt t.now)
          (auth_config c st)
          (record (c.real_ip req) { url_param = params })
          seen
        × (get_submission c.store seen st.submissions ≡ respond (json_data 200 (record_data r)))
  unfolding limit
  shown_by_handler t req st {params} r there shown =
      let low : status_of (serve c t req st).0 < 400 = rw shown (omega arith) in
      let (same, low') = serve-passes c t req st there submission-ne-health low in
      let req' = record (c.real_ip req) { url_param = params } in
      let a = allow (client_ip req'.remote_addr) t.now st.limiter in
      let (seen, passed) = serve_limited-passes c submission_endpoint t st a req' low' in
      (
        seen,
        admit-Admits c t st a req' seen passed,
        recovered-eq-json (get_submission c.store seen st.submissions) (
            sym (get_submission_served t st a req' seen passed) ∙ ap (λ x. x.0) (sym same) ∙ shown),
      )

-- Over any backend, by what it keeps and what it answers.
module _ {S PublicKey : Type 0} (c : Config S PublicKey) (v : (now : Time) → Verifies (c.jwt now))
    (start : State S) (StandsFor : S → Ledger → Type 0)
    (kept : Time → CreateParams → SubmissionRecord) where
  -- The request carries a token of the record's holding, signed with the configured key, and the
  -- record was submitted.
  abbrev pub IsRightful : Clock → State S → Request → SubmissionRecord → Type 0
  IsRightful t st req r =
      (seen : Request) × (a : Admits (c.jwt t.now) (auth_config c st) req seen) × SignedByKey
        (c.jwt t.now) (auth_config c st) (v t.now) a.token
      × (r.holding_number ≡ string_claim a.claims "holdingNumber")
      × IsSubmitted c v start StandsFor kept st r

  shown-IsRightful :
      {IsStorable : Time → CreateParams → Type 0} {IsText : String → Type 0} {IsNumber : ℤ → Type 0}
      {st : State S} (t : Clock) (req : Request) {params : String → String} (r : SubmissionRecord)
      → AnswersWithin c.store StandsFor IsText IsNumber
      → IsText (params "submissionId")
      → KeepsAccepted c v start StandsFor kept IsStorable
      → StandsFor start.submissions []
      → (h : Reachable c start st) → StoresAll c start IsStorable h
      → c.route (c.real_ip req) ≡ routed submission_endpoint params
      → (serve c t req st).0 ≡ json_data 200 (record_data r)
      → IsRightful t st (record (c.real_ip req) { url_param = params }) r
  shown-IsRightful {IsStorable} {IsText} {st = st} t req {params} r answers text keeps empty
        reachable storable there shown =
      let (seen, a, answered) = shown_by_handler c t req st r there shown in
      let (found, _, own) = get_submission_own c.store seen st.submissions r answered in
      let (log, stands, submitted) =
        Reachable-IsSound c v start StandsFor kept IsStorable keeps empty reachable storable in
      let text' : IsText (seen.url_param "submissionId") =
        subst IsText (sym (ap (λ q. q.url_param "submissionId") a.handed_on)) text in
      (
        seen,
        a,
        signed (c.jwt t.now) (auth_config c st) (v t.now) a.parsed,
        own ∙ ap (λ q. (client_from_context q).holding_number) a.handed_on,
        All-first (IsSubmitted c v start StandsFor kept st) _ log submitted (
            or_not_found-eq-ok _
              (sym (answers.get_by_id (seen.url_param "submissionId") text' stands) ∙ found)),
      )

module _ {PublicKey : Type 0} (sorter : SliceSort SubmissionSummary)
    (order : RangeOrder (String × SubmissionRecord)) (c : Config MemoryStore PublicKey)
    (v : (now : Time) → Verifies (c.jwt now)) (start : State MemoryStore) where
  -- When a server with the memory store, which started with an empty one, answers a request that is
  -- routed to `GetSubmission` with a record, the request carries a token that is signed with the
  -- configured key and claims the record's holding, and an earlier request of this very history came
  -- to `Create` with such a token and a body that its tenant accepts, and its serving put the record,
  -- made of the request and stamped with its time, into the store.
  pub shown-IsSubmitted :
      {st : State MemoryStore} (t : Clock) (req : Request) {params : String → String}
      (r : SubmissionRecord)
      → c.store ≡ memory_store sorter order
      → start.submissions ≡ new_memory_store
      → Reachable c start st
      → c.route (c.real_ip req) ≡ routed submission_endpoint params
      → (serve c t req st).0 ≡ json_data 200 (record_data r)
      → IsRightful c v start Represents new_record t st
          (record (c.real_ip req) { url_param = params })
          r
  shown-IsSubmitted t req r backend empty reachable there shown =
      let answers : Answers c.store Represents = rw backend (memory_store-Answers sorter order) in
      shown-IsRightful c v start Represents new_record t req r answers tt
        (memory-KeepsAccepted sorter order c v start backend) (rw empty Represents-empty) reachable
        (memory-StoresAll sorter order c v start reachable) there shown
