-- ===== src/Handlers/Submissions/Database/Tests.antt =====
-- The handlers on the request of the samples, with the concrete databases, running and stopped.
use mathlib.Core.Bool.{false≢true}
use corncrake.Prelude.{◌≡◌, refl, [], ◌∷◌, eq_iff}
use corncrake.Prelude.Int.{pos}
use corncrake.SliceSort.Insertion.{sort_by_insertion}
use corncrake.Store.{SubmissionStore}
use corncrake.Store.Memory.{fresh_result}
use corncrake.Http.{
  respond, json_data, json_error, json_with_count, record_data, result_data, list_data,
}
use corncrake.Sql.Backend.{postgres, sqlserver, sql_store}
use corncrake.Sql.Executes.{new_row}
use corncrake.Sql.Holds.{row_record-new_row}
use corncrake.Sql.Insertion.{Holds}
use corncrake.Sql.Outage.{IsDown}
use corncrake.Sql.Table.{DbServer, running, stopped, db_server, empty_json}
use corncrake.Sql.Table.Laws.{db_server-Executes, db_server-ComparesLetters, empty_json-ReadsBack}
use corncrake.Handlers.Submissions.{create, get_submission, get_run, list_submissions}
use corncrake.Handlers.Submissions.Outage.{outage_answers}
use corncrake.Handlers.Submissions.Database.{stored_then_shown, taken_id_dropped}
use corncrake.Handlers.Submissions.Tests.{request-Accepted, other}
use corncrake.Samples.{body, params, other_params, stored, registry, unmarshal_meta, request}

abbrev in_postgres : SubmissionStore DbServer
in_postgres = sql_store postgres (db_server postgres) sort_by_insertion empty_json

abbrev in_sqlserver : SubmissionStore DbServer
in_sqlserver = sql_store sqlserver (db_server sqlserver) sort_by_insertion empty_json

stopped-IsDown : IsDown (db_server sqlserver) stopped
stopped-IsDown = record {
  exec = λ query args. ("connection refused", refl);
  query = λ query args. ("connection refused", refl);
}

outage_answers_example :
    (create in_sqlserver registry unmarshal_meta 100 request stopped
      ≡ (respond (json_error 500 "INTERNAL_ERROR" "An unexpected error occurred."), stopped))
    × (get_submission in_sqlserver request stopped
        ≡ respond (json_error 404 "NOT_FOUND" "Submission S1 not found."))
    × (get_run in_sqlserver request stopped
        ≡ respond (json_error 404 "NOT_FOUND" "Run reference R1 not found."))
    × (list_submissions in_sqlserver request stopped
        ≡ respond (json_with_count 200 (list_data []) (pos 0)))
outage_answers_example =
    outage_answers stopped-IsDown sqlserver sort_by_insertion empty_json request registry
      unmarshal_meta 100 params request-Accepted

empty-Holds : Holds (db_server-Executes postgres) empty_json (running []) []
empty-Holds = record { up = refl; reads = tt; fit = tt }

stored_then_shown_example :
    (d' : DbServer) × (create in_postgres registry unmarshal_meta 100 request (running [])
      ≡ (respond (json_data 201 (result_data (fresh_result 100 params))), d'))
    × (get_submission in_postgres request d' ≡ respond (json_data 200 (record_data stored)))
stored_then_shown_example =
    stored_then_shown (db_server-Executes postgres) empty_json sort_by_insertion
      (db_server-ComparesLetters postgres) empty_json-ReadsBack empty-Holds request registry
      unmarshal_meta 100 params request-Accepted (b'[' ∷ b']' ∷ [], refl, refl) request refl refl
      refl refl

-- The database after the other holding has used the id.
abbrev taken : DbServer
taken = running (new_row 50 body other_params (b'[' ∷ b']' ∷ []) ∷ [])

taken-Holds : Holds (db_server-Executes postgres) empty_json taken (other ∷ [])
taken-Holds = record {
  up = refl;
  reads =
      (row_record-new_row empty_json-ReadsBack 50 body (b'[' ∷ b']' ∷ []) other_params refl, tt);
  fit = (refl, tt);
}

taken_id_dropped_example :
    (d' : DbServer) × (create in_postgres registry unmarshal_meta 100 request taken
      ≡ (respond (json_data 201 (result_data (fresh_result 100 params))), d'))
    × Holds (db_server-Executes postgres) empty_json d' (other ∷ [])
    × (get_submission in_postgres request d'
        ≡ respond (json_error 403 "FORBIDDEN" "Access denied to this submission."))
taken_id_dropped_example =
    taken_id_dropped (db_server-Executes postgres) empty_json sort_by_insertion
      (db_server-ComparesLetters postgres) empty_json-ReadsBack taken-Holds request registry
      unmarshal_meta 100 params request-Accepted (b'[' ∷ b']' ∷ [], refl, refl) other refl
      (λ e. false≢true ((eq_iff "E2" "E1").1 e))
