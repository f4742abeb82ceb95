-- ===== src/Sql/Scan.antt =====
-- The scan helpers of internal/services/stores.go, which its two stores share.
use corncrake.Prelude.{
  ℕ, String, Bool, false, not, ◌&&◌, Option, none, some, List, [], ◌∷◌, ◌++◌, eqb, length,
  if◌then◌else◌,
}
use corncrake.Prelude.Int.{ℤ, add_int}
use corncrake.Text.{◌<>◌}
use corncrake.SliceSort.{SliceSort}
use corncrake.Models.{Time, ValidationItem, SubmissionRecord, SubmissionSummary, RunStatus}
use corncrake.Store.{Error, not_found, Result, ok, err}
use corncrake.Store.Memory.{empty_run, newer}
use corncrake.Sql.{
  Attempt, done, failed, ◌>>=◌, Value, text_value, string_value, bytes_value, int_value, time_value,
  null_value, Rows, rows, WarningsJson,
}

-- The next column for `Scan`, by the type of its destination. A column that does not have the type
-- which the schema gives it is an error here.
abbrev pub next_text : List Value → Attempt (String × List Value)
next_text (text_value s ∷ vs) = done (s, vs)
next_text _ = failed "sql: Scan error"

abbrev pub next_int : List Value → Attempt (ℤ × List Value)
next_int (int_value n ∷ vs) = done (n, vs)
next_int _ = failed "sql: Scan error"

abbrev pub next_time : List Value → Attempt (Time × List Value)
next_time (time_value t ∷ vs) = done (t, vs)
next_time _ = failed "sql: Scan error"

-- `sql.NullString`, of which only the text is read: it is "" for a NULL.
abbrev pub next_null_text : List Value → Attempt (String × List Value)
next_null_text (text_value s ∷ vs) = done (s, vs)
next_null_text (null_value ∷ vs) = done ("", vs)
next_null_text _ = failed "sql: Scan error"

-- A NULL is the nil slice.
abbrev pub next_bytes : List Value → Attempt (List ℕ × List Value)
next_bytes (bytes_value bs ∷ vs) = done (bs, vs)
next_bytes (string_value bs ∷ vs) = done (bs, vs)
next_bytes (null_value ∷ vs) = done ([], vs)
next_bytes _ = failed "sql: Scan error"

-- `Scan` takes as many columns as it has destinations.
abbrev pub no_more : List Value → Attempt (Unit {0})
no_more [] = done tt
no_more (v ∷ vs) = failed "sql: expected another number of destination arguments in Scan"

-- `string(bs) != "null"`, the other way round.
abbrev pub is_null_text : List ℕ → Bool
is_null_text (a ∷ b ∷ c ∷ d ∷ []) = eqb a b'n' && eqb b b'u' && eqb c b'l' && eqb d b'l'
is_null_text _ = false

abbrev pub warnings_of : WarningsJson → List ℕ → Attempt (List ValidationItem)
warnings_of json [] = done []
warnings_of json (b ∷ bs) = if not (is_null_text (b ∷ bs)) then json.unmarshal (b ∷ bs) else done []

-- The columns that `scanSubmission` scans, with the warnings still in JSON.
unfoldable pub scan_columns : List Value → Attempt (SubmissionRecord × List ℕ)
scan_columns vs = do
  (submission_id, vs) ← next_text vs
  (tenant_id, vs) ← next_text vs
  (run_reference, vs) ← next_text vs
  (holding_number, vs) ← next_text vs
  (tax_year, vs) ← next_int vs
  (quarter, vs) ← next_int vs
  (return_type, vs) ← next_text vs
  (status, vs) ← next_text vs
  (received_at, vs) ← next_time vs
  (software_used, vs) ← next_null_text vs
  (software_version, vs) ← next_null_text vs
  (item_count, vs) ← next_int vs
  (body, vs) ← next_bytes vs
  (warnings, vs) ← next_bytes vs
  (contact_email, vs) ← next_null_text vs
  (contact_phone, vs) ← next_null_text vs
  (comments, vs) ← next_null_text vs
  _ ← no_more vs
  done (
    record {
      submission_id = submission_id;
      tenant_id = tenant_id;
      run_reference = run_reference;
      holding_number = holding_number;
      tax_year = tax_year;
      quarter = quarter;
      return_type = return_type;
      status = status;
      received_at = received_at;
      software_used = software_used;
      software_version = software_version;
      item_count = item_count;
      body = body;
      warnings = [];
      contact_email = contact_email;
      contact_phone = contact_phone;
      comments = comments;
    },
    warnings,
  )

abbrev pub with_warnings :
    SubmissionRecord → Attempt (List ValidationItem) → Result SubmissionRecord
with_warnings r (failed e) = err (Error.failed ("unmarshal warnings: " <> e))
with_warnings r (done ws) = ok (record r { warnings = ws })

abbrev pub submission_of :
    WarningsJson → Attempt (SubmissionRecord × List ℕ) → Result SubmissionRecord
submission_of json (failed e) = err (Error.failed e)
submission_of json (done (r, warnings)) = with_warnings r (warnings_of json warnings)

-- `scanSubmission` on the first row of a `QueryRow`.
abbrev pub scan_submission : WarningsJson → Attempt Rows → Result SubmissionRecord
scan_submission json (failed e) = err (Error.failed e)
scan_submission json (done (rows (vs ∷ _) _)) = submission_of json (scan_columns vs)
scan_submission json (done (rows [] (some e))) = err (Error.failed e)
scan_submission json (done (rows [] none)) = err not_found

-- The columns of a summary, which both loops scan.
unfoldable pub scan_summary : List Value → Attempt SubmissionSummary
scan_summary vs = do
  (submission_id, vs) ← next_text vs
  (tenant_id, vs) ← next_text vs
  (run_reference, vs) ← next_text vs
  (quarter, vs) ← next_int vs
  (tax_year, vs) ← next_int vs
  (return_type, vs) ← next_text vs
  (status, vs) ← next_text vs
  (received_at, vs) ← next_time vs
  (item_count, vs) ← next_int vs
  _ ← no_more vs
  done (record {
    submission_id = submission_id;
    tenant_id = tenant_id;
    run_reference = run_reference;
    quarter = quarter;
    tax_year = tax_year;
    return_type = return_type;
    status = status;
    received_at = received_at;
    item_count = item_count;
  })

abbrev pub add_summary : RunStatus → SubmissionSummary → RunStatus
add_summary run s = record run {
  total_items = add_int run.total_items s.item_count;
  submissions = run.submissions ++ s ∷ [];
}

-- The loop of `scanRunStatus`.
unfoldable pub scan_run_loop : List (List Value) → RunStatus → Attempt RunStatus
scan_run_loop [] run = done run
scan_run_loop (vs ∷ rest) run = scan_summary vs >>= λ s. scan_run_loop rest (add_summary run s)

-- A run without submissions is not found.
abbrev pub or_no_run : RunStatus → List SubmissionSummary → Result RunStatus
or_no_run run [] = err not_found
or_no_run run (s ∷ ss) = ok (record run { total_submissions = length (s ∷ ss) })

abbrev pub finish_run : Option String → Attempt RunStatus → Result RunStatus
finish_run at_end (failed e) = err (Error.failed e)
finish_run (some e) (done run) = err (Error.failed e)
finish_run none (done run) = or_no_run run run.submissions

abbrev pub scan_run_status : String → Attempt Rows → Result RunStatus
scan_run_status ref (failed e) = err (Error.failed e)
scan_run_status ref (done (rows vs at_end)) = finish_run at_end (scan_run_loop vs (empty_run ref))

-- The loop of `scanSummaries`.
unfoldable pub scan_summaries_loop :
    List (List Value) → List SubmissionSummary → Attempt (List SubmissionSummary)
scan_summaries_loop [] results = done results
scan_summaries_loop (vs ∷ rest) results =
    scan_summary vs >>= λ s. scan_summaries_loop rest (results ++ s ∷ [])

abbrev pub finish_summaries :
    SliceSort SubmissionSummary
    → Option String
    → Attempt (List SubmissionSummary)
    → Result (List SubmissionSummary)
finish_summaries sorter at_end (failed e) = err (Error.failed e)
finish_summaries sorter (some e) (done results) = err (Error.failed e)
finish_summaries sorter none (done results) = ok (sorter.sort newer results)

abbrev pub scan_summaries :
    SliceSort SubmissionSummary → Attempt Rows → Result (List SubmissionSummary)
scan_summaries sorter (failed e) = err (Error.failed e)
scan_summaries sorter (done (rows vs at_end)) =
    finish_summaries sorter at_end (scan_summaries_loop vs [])
