-- ===== src/Sql/SqlServer.antt =====
-- `SQLServerStore` of internal/services/stores.go. The database is its only state.
use corncrake.Prelude.{ℕ, String, Bool, true, false, List, [], ◌∷◌, ◌++◌, length}
use corncrake.Prelude.Int.{ℤ, pos, ltb_ℤ}
use corncrake.Text.{◌<>◌}
use corncrake.Text.Numbers.{itoa}
use corncrake.SliceSort.{SliceSort}
use corncrake.Models.{Time, SubmissionRecord, SubmissionSummary, RunStatus}
use corncrake.Store.{Result, CreateParams, CreateResult, SubmissionStore}
use corncrake.Sql.{
  Attempt, done, failed, Value, text_value, string_value, int_value, Database, WarningsJson,
  insert_args, inserted, migrated,
}
use corncrake.Sql.Scan.{scan_submission, scan_run_status, scan_summaries}
use corncrake.Sql.Statements.{
  sqlserver_migrate, sqlserver_insert, sqlserver_select_one, sqlserver_select_run,
  sqlserver_select_list,
}

module _ {D : Type 0} (db : Database D) where
  -- `NewSQLServerStore`, with its `migrate`.
  unfoldable pub new_store : D → Attempt D
  new_store d = migrated (db.exec sqlserver_migrate [] d)

  -- The error of `json.Marshal` is dropped, with its nil slice.
  abbrev pub or_nil : Attempt (List ℕ) → List ℕ
  or_nil (failed e) = []
  or_nil (done bs) = bs

  unfoldable pub create : WarningsJson → Time → CreateParams → D → Result CreateResult × D
  create json received_at p d = inserted received_at p (
      db.exec sqlserver_insert
        (insert_args received_at p (string_value p.body)
          (string_value (or_nil (json.marshal p.warnings))))
        d)

  unfoldable pub get_by_id : WarningsJson → String → D → Result SubmissionRecord
  get_by_id json id d = scan_submission json (db.query sqlserver_select_one (text_value id ∷ []) d)

  unfoldable pub get_run : String → D → Result RunStatus
  get_run ref d = scan_run_status ref (db.query sqlserver_select_run (text_value ref ∷ []) d)

-- A filter of `List` that is wanted adds its condition, with the number of its argument.
abbrev pub and_filter : Bool → String → ℤ → String × List Value → String × List Value
and_filter false condition v (query, args) = (query, args)
and_filter true condition v (query, args) =
    let args' = args ++ int_value v ∷ [] in (query <> condition <> itoa (length args'), args')

abbrev pub ordered : String × List Value → String × List Value
ordered (query, args) = (query <> " ORDER BY received_at DESC", args)

unfoldable pub list_query : String → ℤ → ℤ → String × List Value
list_query holding tax_year quarter = ordered (
    and_filter (ltb_ℤ (pos 0) quarter) " AND quarter = @p" quarter (
      and_filter (ltb_ℤ (pos 0) tax_year) " AND tax_year = @p" tax_year
        (sqlserver_select_list, text_value holding ∷ [])))

module _ {D : Type 0} (db : Database D) where
  unfoldable pub list :
      SliceSort SubmissionSummary → String → ℤ → ℤ → D → Result (List SubmissionSummary)
  list sorter holding tax_year quarter d =
      let (query, args) = list_query holding tax_year quarter in
      scan_summaries sorter (db.query query args d)

  abbrev pub sqlserver_store : SliceSort SubmissionSummary → WarningsJson → SubmissionStore D
  sqlserver_store sorter json = record {
    create = create db json;
    get_by_id = get_by_id db json;
    get_run = get_run db;
    list = list sorter;
  }
