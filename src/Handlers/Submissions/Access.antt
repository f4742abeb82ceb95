-- ===== src/Handlers/Submissions/Access.antt =====
-- Who sees which submissions, and what a client finds of what it has sent.
use corncrake.Prelude.{
  ◌≡◌, refl, ◌≢◌, ap, inl, inr, String, Option, none, some, List, ◌∷◌, ◌==◌, eq_iff, eq_refl, keep,
  first, Bool-cases, eq-false_of_ne,
}
use corncrake.SliceSort.{SliceSort, RangeOrder}
use corncrake.Models.{Time, RawMessage, SubmissionRecord, SubmissionSummary, ClientIdentity}
use corncrake.Store.{Result, ok, err, panic, CreateParams, SubmissionStore}
use corncrake.Store.Ledger.{Ledger, has_id, in_run, run_status}
use corncrake.Store.Memory
use corncrake.Store.Memory.{MemoryStore, memory_store, new_record, existing_result, newer}
use corncrake.Store.Memory.Represents.{Represents, get-submissions}
use corncrake.Store.Memory.Reads.{get_by_id-ledger, get_run-ledger}
use corncrake.Store.Memory.History.{Call, after, create-keeps}
use corncrake.Tenant.{Registry}
use corncrake.Http.{
  Request, respond, record_data, run_data, result_data, json_data, json_error, client_from_context,
}
use corncrake.Handlers.Submissions.{
  SubmissionMeta, answer_submission, get_submission, get_run, create,
}
use corncrake.Handlers.Submissions.Create.{Accepted, prepare_complete}

record-injective :
    {q r : SubmissionRecord}
    → respond (json_data 200 (record_data q)) ≡ respond (json_data 200 (record_data r))
    → q ≡ r
record-injective e = cc

refused-ne-shown :
    {r : SubmissionRecord}
    → respond (json_error 403 "FORBIDDEN" "Access denied to this submission.")
      ≢ respond (json_data 200 (record_data r))
refused-ne-shown e = cc

answer_submission_own :
    {S : Type 0} (store : SubmissionStore S) (req : Request) (found : Result SubmissionRecord)
    (r : SubmissionRecord)
    → answer_submission store req found ≡ respond (json_data 200 (record_data r))
    → (found ≡ ok r)
      × (r.holding_number ≡ req.url_param "holdingNumber")
      × (r.holding_number ≡ (client_from_context req).holding_number)
answer_submission_own store req (ok q) r h =
    elim (Bool-cases (q.holding_number == req.url_param "holdingNumber")) [
      | inr other ↦ absurd (refused-ne-shown (rw other at h))
      | inl path ↦
          elim (Bool-cases (q.holding_number == (client_from_context req).holding_number)) [
            | inr other ↦ absurd (refused-ne-shown (rw (path, other) at h))
            | inl client ↦
                let same : q ≡ r = record-injective (rw (path, client) at h) in
                rw (← same) (refl, (eq_iff _ _).0 path, (eq_iff _ _).0 client)
          ]
    ]
answer_submission_own store req (err e) r h = cc
answer_submission_own store req panic r h = cc

module _ {S : Type 0} (store : SubmissionStore S) (req : Request) (s : S) where
  -- A submission is shown to the client of its own holding alone, at the path of that holding.
  pub get_submission_own :
      (r : SubmissionRecord)
      → get_submission store req s ≡ respond (json_data 200 (record_data r))
      → (store.get_by_id (req.url_param "submissionId") s ≡ ok r)
        × (r.holding_number ≡ req.url_param "holdingNumber")
        × (r.holding_number ≡ (client_from_context req).holding_number)
  unfolding get_submission
  get_submission_own r h = answer_submission_own store req _ r h

module _ (sorter : SliceSort SubmissionSummary)
    (order : RangeOrder (String × SubmissionRecord)) where
  abbrev store : SubmissionStore MemoryStore
  store = memory_store sorter order

  module _ {s : MemoryStore} {log : Ledger} (h : Represents s log) (req : Request) where
    -- The status of a run is given to every client, whatever its holding and whatever the path says.
    pub run_shown_to_all :
        (client : Option ClientIdentity) (r : SubmissionRecord) (rs : List SubmissionRecord)
        → keep (in_run (req.url_param "runReference")) log ≡ r ∷ rs
        → get_run store (record req { client = client }) s
          ≡ respond (json_data 200 (run_data (run_status (req.url_param "runReference") (r ∷ rs))))
    unfolding get_run
    run_shown_to_all client r rs e = rw (get_run-ledger h (req.url_param "runReference"), e) refl

    -- What an accepted request has sent under a new submission id is shown to the client under its
    -- holding and that id, whatever calls the store has answered in between.
    pub create_then_get :
        (registry : Registry) (unmarshal_meta : RawMessage → SubmissionMeta) (now : Time)
        (p : CreateParams) (between : List Call) (later : Request)
        → Accepted registry unmarshal_meta req p
        → first (has_id p.submission_id) log ≡ none
        → later.url_param "submissionId" ≡ req.url_param "submissionId"
        → later.url_param "holdingNumber" ≡ req.url_param "holdingNumber"
        → later.client ≡ req.client
        → get_submission store later
            (after between (create store registry unmarshal_meta now req s).1)
          ≡ respond (json_data 200 (record_data (new_record now p)))
    unfolding get_submission create
    create_then_get registry unmarshal_meta now p between later a fresh same_id same_path
          same_client =
        let id : p.submission_id ≡ req.url_param "submissionId" =
          ap (λ q. q.submission_id) a.params in
        let path : p.holding_number ≡ req.url_param "holdingNumber" =
          ap (λ q. q.holding_number) a.params in
        let kept = create-keeps now p between h fresh in
        rw
          (
            prepare_complete registry unmarshal_meta req p a,
            same_id,
            ← id,
            kept,
            same_path,
            path,
            same_client,
            a.owner,
            eq_refl,
          )
          refl

    -- An id that a submission of another holding has taken: the request is answered 201 with the
    -- result of that submission, nothing is stored, and its client may not see the submission.
    pub taken_id :
        (registry : Registry) (unmarshal_meta : RawMessage → SubmissionMeta) (now : Time)
        (p : CreateParams) (r : SubmissionRecord)
        → Accepted registry unmarshal_meta req p
        → first (has_id p.submission_id) log ≡ some r
        → r.holding_number ≢ (client_from_context req).holding_number
        → (create store registry unmarshal_meta now req s
            ≡ (respond (json_data 201 (result_data (existing_result r))), s))
          × (get_submission store req s
              ≡ respond (json_error 403 "FORBIDDEN" "Access denied to this submission."))
    unfolding get_submission create Memory.create
    taken_id registry unmarshal_meta now p r a stored other =
        let id : p.submission_id ≡ req.url_param "submissionId" =
          ap (λ q. q.submission_id) a.params in
        (
          rw
              (
                prepare_complete registry unmarshal_meta req p a,
                get-submissions h p.submission_id,
                stored,
              )
              refl,
          rw (← id, get_by_id-ledger h p.submission_id, stored, a.owner, eq-false_of_ne _ _ other)
              refl,
        )
