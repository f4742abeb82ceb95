-- ===== src/Server/Answering.antt =====
-- Panics of the handlers, with the memory backend.
use corncrake.Prelude.{
  ◌≡◌, refl, ap, inl, inr, String, Bool, true, false, Option, none, some, List, [], ◌∷◌, ◌==◌,
  Bool-cases, if◌then◌else◌,
}
use corncrake.Prelude.Int.{ℤ}
use corncrake.Tenant.{LookupData}
use corncrake.SliceSort.{SliceSort, RangeOrder}
use corncrake.Models.{Time, SubmissionRecord, SubmissionSummary, RunStatus}
use corncrake.Store.{Result, SubmissionStore}
use corncrake.Store.Memory.{MemoryStore, memory_store, new_memory_store, or_not_found, selected}
use corncrake.Store.Memory.Represents.{Represents}
use corncrake.Store.Memory.Answers.{memory_store-Answers}
use corncrake.Store.Memory.Listing.{selected_iff}
use corncrake.Store.Ledger.{Ledger}
use corncrake.Store.Contract.{Answers, IsRunAnswer}
use corncrake.Auth.Tokens.{Verifies}
use corncrake.Http.{Request, Response, Reply, respond, Checked, deny, pass, client_from_context}
use corncrake.Handlers.Submissions.{
  answer_submission, get_submission, answer_run, get_run, query_int, list_submissions,
}
use corncrake.Handlers.Submissions.Create.{outcome_cases}
use corncrake.Handlers.Lookups.{answer_lookup, find_lookup, get_periods}
use corncrake.Server.{
  Endpoint, create_endpoint, submission_endpoint, run_endpoint, list_endpoint, periods_endpoint,
  lookup_endpoint, health_endpoint, Clock, Config, State, dispatch,
}
use corncrake.Server.Trace.{Reachable}
use corncrake.Server.Backends.{Reachable-IsSubmitted}

abbrev IsAnswered : Reply → Type 0
IsAnswered reply = (r : Response) × (reply ≡ respond r)

either-IsAnswered : (b : Bool) (r q : Response) → IsAnswered (if b then respond r else respond q)
either-IsAnswered true r q = (r, refl)
either-IsAnswered false r q = (q, refl)

-- The reading handlers over any store whose state stands for a ledger.
module _ {S : Type 0} {store : SubmissionStore S} {StandsFor : S → Ledger → Type 0}
    (law : Answers store StandsFor) {s : S} {log : Ledger} (h : StandsFor s log)
    (req : Request) where
  found-IsAnswered :
      (o : Option SubmissionRecord) → IsAnswered (answer_submission store req (or_not_found o))
  found-IsAnswered none = (_, refl)
  found-IsAnswered (some r) = either-IsAnswered _ _ _

  get_submission-IsAnswered : IsAnswered (get_submission store req s)
  unfolding get_submission
  get_submission-IsAnswered =
      rw (law.get_by_id (req.url_param "submissionId") tt h) (found-IsAnswered _)

  run-IsAnswered :
      (ref : String) (rs : List SubmissionRecord) (answer : Result RunStatus)
      → IsRunAnswer ref rs answer
      → IsAnswered (answer_run store req answer)
  run-IsAnswered ref [] answer e = rw e (_, refl)
  run-IsAnswered ref (r ∷ rs) answer (run, e, _) = rw e (_, refl)

  get_run-IsAnswered : IsAnswered (get_run store req s)
  unfolding get_run
  get_run-IsAnswered = run-IsAnswered _ _ _ (law.get_run (req.url_param "runReference") tt h)

  list_submissions-IsAnswered : IsAnswered (list_submissions store req s)
  unfolding list_submissions
  list_submissions-IsAnswered =
      elim (Bool-cases
        (req.url_param "holdingNumber" == (client_from_context req).holding_number)) [
          | inl own ↦
              let y = query_int req "taxYear" in
              let q = query_int req "quarter" in
              let (results, e, _, _) =
                law.list (req.url_param "holdingNumber") y q
                  (selected (req.url_param "holdingNumber") y q) tt tt tt h
                  (selected_iff (req.url_param "holdingNumber") y q) in
              rw (own, e) (_, refl)
          | inr other ↦ rw other (_, refl)
        ]

lookup-IsAnswered : (m : Checked (LookupData × ℤ)) → IsAnswered (answer_lookup m)
lookup-IsAnswered (deny r) = (r, refl)
lookup-IsAnswered (pass (data_, count)) = (_, refl)

module _ {PublicKey : Type 0} (sorter : SliceSort SubmissionSummary)
    (order : RangeOrder (String × SubmissionRecord)) (c : Config MemoryStore PublicKey)
    (v : (now : Time) → Verifies (c.jwt now)) (start : State MemoryStore) where
  handler-IsAnswered :
      {s : MemoryStore} {log : Ledger} (e : Endpoint) (t : Clock) (req : Request)
      → c.store ≡ memory_store sorter order
      → Represents s log
      → IsAnswered (dispatch c e t req s).0
  unfolding get_periods
  handler-IsAnswered {s} create_endpoint t req backend h =
      rw backend
        (elim (outcome_cases c.registry c.unmarshal_meta sorter order t.received_at req s) [
          | inl (p, _, (result, e), _) ↦ (_, e)
          | inr (r, e, _, _) ↦ (r, ap (λ x. x.0) e)
        ])
  handler-IsAnswered submission_endpoint t req backend h =
      rw backend (get_submission-IsAnswered (memory_store-Answers sorter order) h req)
  handler-IsAnswered run_endpoint t req backend h =
      rw backend (get_run-IsAnswered (memory_store-Answers sorter order) h req)
  handler-IsAnswered list_endpoint t req backend h =
      rw backend (list_submissions-IsAnswered (memory_store-Answers sorter order) h req)
  handler-IsAnswered periods_endpoint t req backend h = (_, refl)
  handler-IsAnswered lookup_endpoint t req backend h =
      lookup-IsAnswered (find_lookup c.registry req)
  handler-IsAnswered health_endpoint t req backend h = (_, refl)

  -- In every state that a server with the memory store comes to from an empty one, every handler
  -- answers every request: none of them panics, so `Recoverer` has nothing to do.
  pub always_answers :
      {st : State MemoryStore} (e : Endpoint) (t : Clock) (req : Request)
      → c.store ≡ memory_store sorter order
      → start.submissions ≡ new_memory_store
      → Reachable c start st
      → (r : Response) × ((dispatch c e t req st.submissions).0 ≡ respond r)
  always_answers e t req backend empty reachable =
      let (log, represents, _) =
        Reachable-IsSubmitted sorter order c v start backend empty reachable in
      handler-IsAnswered e t req backend represents
