-- ===== src/Handlers/Submissions/Outage.antt =====
-- The handlers over a SQL store whose database does not answer.
use corncrake.Prelude.{◌≡◌, refl, eq_refl, []}
use corncrake.Prelude.Int.{pos}
use corncrake.Text.{◌<>◌}
use corncrake.SliceSort.{SliceSort}
use corncrake.Models.{Time, RawMessage, SubmissionSummary}
use corncrake.Store.{CreateParams, SubmissionStore}
use corncrake.Tenant.{Registry}
use corncrake.Http.{Request, respond, list_data, json_with_count, json_error, client_from_context}
use corncrake.Sql.{Database, WarningsJson}
use corncrake.Sql.Backend.{SqlBackend, sql_store}
use corncrake.Sql.Outage.{IsDown, create_down, get_by_id_down, get_run_down, list_down}
use corncrake.Handlers.Submissions.{
  SubmissionMeta, create, get_submission, get_run, query_int, list_submissions,
}
use corncrake.Handlers.Submissions.Create.{Accepted, prepare_complete}

module _ {D : Type 0} {db : Database D} {d : D} (h : IsDown db d) (b : SqlBackend)
    (sorter : SliceSort SubmissionSummary) (json : WarningsJson) (req : Request) where
  abbrev store : SubmissionStore D
  store = sql_store b db sorter json

  -- While the database is down, a submission that is accepted is answered 500 and nothing changes.
  -- But a submission and a run that are asked for are answered 404, as if they had never been sent,
  -- and a client is listed no submissions of its own, with status 200.
  pub outage_answers :
      (registry : Registry) (unmarshal_meta : RawMessage → SubmissionMeta) (now : Time)
      (p : CreateParams)
      → Accepted registry unmarshal_meta req p
      → (create store registry unmarshal_meta now req d
          ≡ (respond (json_error 500 "INTERNAL_ERROR" "An unexpected error occurred."), d))
        × (get_submission store req d
            ≡ respond (
                json_error 404 "NOT_FOUND"
                  ("Submission " <> req.url_param "submissionId" <> " not found.")))
        × (get_run store req d
            ≡ respond (
                json_error 404 "NOT_FOUND"
                  ("Run reference " <> req.url_param "runReference" <> " not found.")))
        × (list_submissions store req d ≡ respond (json_with_count 200 (list_data []) (pos 0)))
  unfolding create get_submission get_run list_submissions
  outage_answers registry unmarshal_meta now p a =
      let (_, no_create) = create_down h sorter json b now p in
      let (_, no_get) = get_by_id_down h sorter json b (req.url_param "submissionId") in
      let (_, no_run) = get_run_down h sorter json b (req.url_param "runReference") in
      let (_, no_list) =
        list_down h sorter json b (client_from_context req).holding_number (query_int req "taxYear")
          (query_int req "quarter") in
      (
        rw (prepare_complete registry unmarshal_meta req p a, no_create) refl,
        rw no_get refl,
        rw no_run refl,
        rw (a.owner, eq_refl (client_from_context req).holding_number, no_list) refl,
      )
