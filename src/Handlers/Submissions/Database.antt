-- ===== src/Handlers/Submissions/Database.antt =====
-- The handlers over a SQL store whose database answers.
mod Tests
use corncrake.Prelude.{
  String, ◌≡◌, ◌≢◌, refl, sym, ap, ◌∙◌, Bool, true, Option, none, some, List, [], ◌∷◌, ◌++◌, ◌==◌,
  arith, eq_refl, first, Bool-cases, inl, inr, eq-false_of_ne,
}
use corncrake.SliceSort.{SliceSort}
use corncrake.Models.{Time, RawMessage, SubmissionRecord, SubmissionSummary}
use corncrake.Store.{ok, CreateParams, SubmissionStore}
use corncrake.Store.Memory.{fresh_result, or_not_found}
use corncrake.Store.Memory.History.{first-append_self}
use corncrake.Store.Ledger.{Ledger, has_id}
use corncrake.Tenant.{Registry}
use corncrake.Http.{
  Request, respond, record_data, result_data, json_data, json_error, client_from_context,
}
use corncrake.Sql.{Database, WarningsJson}
use corncrake.Sql.Backend.{SqlBackend, sql_store}
use corncrake.Sql.Executes.{Executes, ComparesLetters, ReadsBack, insert_unless}
use corncrake.Sql.Holds.{kept_record}
use corncrake.Sql.Insertion.{Holds, create-insert_unless}
use corncrake.Sql.Answers.{sql_store-Answers}
use corncrake.Sql.Agreement.{IsStorable}
use corncrake.Handlers.Submissions.{SubmissionMeta, create, get_submission}
use corncrake.Handlers.Submissions.Create.{Accepted, prepare_complete}

module _ {D : Type 0} {db : Database D} {b : SqlBackend} (x : Executes db b) (json : WarningsJson)
    (sorter : SliceSort SubmissionSummary) (exact : ComparesLetters x)
    (law : ReadsBack json x.kept_json) where
  abbrev store : SubmissionStore D
  store = sql_store b db sorter json

  module _ {d : D} {log : Ledger} (h : Holds x json d log) (req : Request) (registry : Registry)
      (unmarshal_meta : RawMessage → SubmissionMeta) (now : Time) (p : CreateParams)
      (a : Accepted registry unmarshal_meta req p) (storable : IsStorable x json (now, p)) where
    created_in_database :
        (d' : D) × (create store registry unmarshal_meta now req d
          ≡ (respond (json_data 201 (result_data (fresh_result now p))), d'))
        × Holds x json d' (
            insert_unless
              (first (has_id p.submission_id) log)
              (kept_record (x.rounded now) (x.kept_json p.body) p)
              log)
    unfolding create
    created_in_database =
        let (warnings, e, fits) = storable in
        let (d', ran, held) =
          create-insert_unless x json sorter exact law now p warnings h e fits in
        (d', rw (prepare_complete registry unmarshal_meta req p a, ran) refl, held)

    -- Over a database that answers and compares letter by letter, what an accepted request has sent
    -- under a new submission id, if it can be stored, is answered 201, and is then shown to the
    -- client under its holding and that id, with the time and the body as the columns keep them.
    pub stored_then_shown :
        (later : Request)
        → first (has_id p.submission_id) log ≡ none
        → later.url_param "submissionId" ≡ req.url_param "submissionId"
        → later.url_param "holdingNumber" ≡ req.url_param "holdingNumber"
        → later.client ≡ req.client
        → (d' : D) × (create store registry unmarshal_meta now req d
            ≡ (respond (json_data 201 (result_data (fresh_result now p))), d'))
          × (get_submission store later d'
              ≡ respond (
                  json_data 200 (record_data (kept_record (x.rounded now) (x.kept_json p.body) p))))
    unfolding get_submission
    stored_then_shown later fresh same_id same_path same_client =
        let (d', answer, held) = created_in_database in
        let (_, _, fits) = storable in
        let text = (x.texts _ fits).0 in
        let id : p.submission_id ≡ req.url_param "submissionId" =
          ap (λ q. q.submission_id) a.params in
        let path : p.holding_number ≡ req.url_param "holdingNumber" =
          ap (λ q. q.holding_number) a.params in
        let kept = kept_record (x.rounded now) (x.kept_json p.body) p in
        let held' : Holds x json d' (log ++ kept ∷ []) = rw fresh at held in
        let found = (sql_store-Answers x json sorter exact).get_by_id p.submission_id text held' in
        (
          d',
          answer,
          rw
              (
                same_id,
                ← id,
                found,
                first-append_self p.submission_id log kept fresh refl,
                same_path,
                path,
                same_client,
                a.owner,
                eq_refl,
              )
              refl,
        )

    -- Over a database that answers and compares letter by letter, with an id that a submission of
    -- another holding has taken: the request, if its submission could be stored, is answered 201
    -- with the values that it has sent, as if they were stored, while the table stands for the same
    -- submissions as before, and its client may not see what is there.
    pub taken_id_dropped :
        (r : SubmissionRecord)
        → first (has_id p.submission_id) log ≡ some r
        → r.holding_number ≢ (client_from_context req).holding_number
        → (d' : D) × (create store registry unmarshal_meta now req d
            ≡ (respond (json_data 201 (result_data (fresh_result now p))), d'))
          × Holds x json d' log
          × (get_submission store req d'
              ≡ respond (json_error 403 "FORBIDDEN" "Access denied to this submission."))
    unfolding get_submission
    taken_id_dropped r stored other =
        let (d', answer, held) = created_in_database in
        let (_, _, fits) = storable in
        let text = (x.texts _ fits).0 in
        let id : p.submission_id ≡ req.url_param "submissionId" =
          ap (λ q. q.submission_id) a.params in
        let held' : Holds x json d' log = rw stored at held in
        let found = (sql_store-Answers x json sorter exact).get_by_id p.submission_id text held' in
        (d', answer, held', rw (← id, found, stored, a.owner, eq-false_of_ne _ _ other) refl)
