-- ===== src/Sql/Tests.antt =====
-- The SQL stores on a concrete database: two holdings that use the same submission id.
use corncrake.Prelude.{◌≡◌, refl, arith, List, [], ◌∷◌, map, All, first, some}
use corncrake.Prelude.Int.{pos}
use corncrake.SliceSort.Insertion.{insertion_sort, sort_by_insertion, entry_order}
use corncrake.Models.{SubmissionRecord, RunStatus}
use corncrake.Store.{ok}
use corncrake.Store.Memory.{newer, fresh_result, memory_store, new_memory_store}
use corncrake.Store.Ledger.{has_id, IsNewestFirst}
use corncrake.Store.Contract.{IsRun, IsRunAnswer, IsListAnswer, AnswersWithin}
use corncrake.Sql.{done, Value, text_value, rows}
use corncrake.Sql.Scan.{scan_run_status, scan_summaries}
use corncrake.Sql.Loops.{scan_all, run_of, unless_failed, scan_results}
use corncrake.Sql.Backend.{SqlBackend, postgres, sqlserver, sql_store, summary_columns}
use corncrake.Sql.Executes.{IsFilter, new_row, insert_unless}
use corncrake.Sql.Holds.{kept_record, row_record-new_row}
use corncrake.Sql.Insertion.{Holds, create-insert_unless}
use corncrake.Sql.Calls.{filter_of}
use corncrake.Sql.Answers.{sql_store-Answers}
use corncrake.Sql.Runs.{get_run-IsNewestFirst}
use corncrake.Sql.Agreement.{Creations, created_all, map_ok, as_kept, IsStorable, backends_agree}
use corncrake.Sql.Table.{DbServer, running, db_server, empty_json}
use corncrake.Sql.Table.Laws.{db_server-Executes, db_server-ComparesLetters, empty_json-ReadsBack}
use corncrake.Samples.{params, other_params, stored}

empty_table : (b : SqlBackend) → Holds (db_server-Executes b) empty_json (running []) []
empty_table b = record { up = refl; reads = tt; fit = tt }

-- The database after one submission.
abbrev one : DbServer
one = running (new_row 100 params.body params (b'[' ∷ b']' ∷ []) ∷ [])

one-Holds : Holds (db_server-Executes sqlserver) empty_json one (stored ∷ [])
one-Holds = record {
  up = refl;
  reads =
      (row_record-new_row empty_json-ReadsBack 100 params.body (b'[' ∷ b']' ∷ []) params refl, tt);
  fit = (refl, tt);
}

create-insert_unless_example :
    (d' : DbServer) × ((sql_store sqlserver
          (db_server sqlserver)
          sort_by_insertion
          empty_json).create
        200 other_params one
      ≡ (ok (fresh_result 200 other_params), d'))
    × Holds (db_server-Executes sqlserver) empty_json d' (
        insert_unless
          (first (has_id "S1") (stored ∷ []))
          (kept_record 200 other_params.body other_params)
          (stored ∷ []))
create-insert_unless_example =
    create-insert_unless (db_server-Executes sqlserver) empty_json sort_by_insertion
      (db_server-ComparesLetters sqlserver) empty_json-ReadsBack 200 other_params (b'[' ∷ b']' ∷ [])
      one-Holds refl refl

sql_store-Answers_example :
    AnswersWithin
      (sql_store postgres (db_server postgres) sort_by_insertion empty_json)
      (Holds (db_server-Executes postgres) empty_json)
      (db_server-Executes postgres).IsText
      (λ v. IsFilter (filter_of v))
sql_store-Answers_example =
    sql_store-Answers (db_server-Executes postgres) empty_json sort_by_insertion
      (db_server-ComparesLetters postgres)

get_run-IsNewestFirst_example :
    (run : RunStatus) × ((sql_store sqlserver
          (db_server sqlserver)
          sort_by_insertion
          empty_json).get_run
        "R1" one
      ≡ ok run)
    × IsRun "R1" (stored ∷ []) run
    × IsNewestFirst run.submissions
get_run-IsNewestFirst_example =
    get_run-IsNewestFirst (db_server-Executes sqlserver) empty_json sort_by_insertion
      (db_server-ComparesLetters sqlserver) "R1" one-Holds refl

abbrev calls : Creations
calls = (100, params) ∷ (200, other_params) ∷ []

storable : All (IsStorable (db_server-Executes postgres) empty_json) calls
storable = ((b'[' ∷ b']' ∷ [], refl, refl), ((b'[' ∷ b']' ∷ [], refl, refl), tt))

backends_agree_example :
    let memory = memory_store sort_by_insertion entry_order in
    let sql = sql_store postgres (db_server postgres) sort_by_insertion empty_json in
    let s = created_all memory calls new_memory_store in
    let d' = created_all sql calls (running []) in
    (sql.get_by_id "S1" d'
      ≡ map_ok (as_kept (db_server-Executes postgres) empty_json) (memory.get_by_id "S1" s))
    × ((rs : List SubmissionRecord) × IsRunAnswer "R1" rs (memory.get_run "R1" s)
        × IsRunAnswer "R1"
            (map (as_kept (db_server-Executes postgres) empty_json) rs)
            (sql.get_run "R1" d'))
    × ((rs : List SubmissionRecord) × IsListAnswer rs (memory.list "E1" (pos 2024) (pos 0) s)
        × IsListAnswer
            (map (as_kept (db_server-Executes postgres) empty_json) rs)
            (sql.list "E1" (pos 2024) (pos 0) d'))
backends_agree_example =
    backends_agree (db_server-Executes postgres) empty_json sort_by_insertion entry_order
      (db_server-ComparesLetters postgres) empty_json-ReadsBack calls (running []) "S1" "R1" "E1"
      (pos 2024) (pos 0) (empty_table postgres) storable tt tt tt (omega arith, omega arith) tt

-- A row that is cut off, behind one that is whole.
abbrev cut_off : List (List Value)
cut_off = summary_columns (new_row 100 params.body params []) ∷ (text_value "S2" ∷ []) ∷ []

scan_results_example :
    (scan_run_status "R1" (done (rows cut_off (some "connection reset")))
      ≡ unless_failed (scan_all cut_off) (some "connection reset") (run_of "R1"))
    × (scan_summaries sort_by_insertion (done (rows cut_off (some "connection reset")))
        ≡ unless_failed
            (scan_all cut_off)
            (some "connection reset")
            (λ ss. ok (insertion_sort newer ss)))
scan_results_example = scan_results sort_by_insertion "R1" cut_off (some "connection reset")
