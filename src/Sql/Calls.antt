-- ===== src/Sql/Calls.antt =====
-- The operations of the two SQL stores as the one call on the database that each of them makes.
use corncrake.Prelude.{
  ℕ, ◌≡◌, refl, ap, inl, inr, String, Option, none, some, List, [], ◌∷◌, Bool-cases, if◌then◌else◌,
}
use corncrake.Prelude.Int.{ℤ, pos, ltb_ℤ}
use corncrake.Text.Numbers.{itoa}
use corncrake.SliceSort.{SliceSort}
use corncrake.Models.{Time, SubmissionSummary}
use corncrake.Store.{Result, CreateParams}
use corncrake.Sql.Postgres
use corncrake.Sql.SqlServer
use corncrake.Sql.{done, Value, text_value, Database, WarningsJson, insert_args, inserted}
use corncrake.Sql.Scan.{scan_submission, scan_run_status, scan_summaries}
use corncrake.Sql.Backend.{
  SqlBackend, postgres, sqlserver, sql_store, insert_text, select_one_text, select_run_text,
  json_value, list_text, list_args,
}

-- A filter that is not positive is not there.
abbrev pub filter_of : ℤ → Option ℤ
filter_of v = if ltb_ℤ (pos 0) v then some v else none

abbrev query_of : SqlBackend → String → ℤ → ℤ → String × List Value
query_of postgres = Postgres.list_query
query_of sqlserver = SqlServer.list_query

-- The statement is put together as if it had been written for the filters that are wanted, and each
-- parameter is numbered as its argument stands.
pub list_query_lem :
    (b : SqlBackend) (holding : String) (tax_year quarter : ℤ)
    → query_of b holding tax_year quarter ≡ (
      list_text b (filter_of tax_year) (filter_of quarter),
      list_args holding (filter_of tax_year) (filter_of quarter),
    )
unfolding Postgres.list_query SqlServer.list_query itoa
list_query_lem postgres holding tax_year quarter = elim (Bool-cases (ltb_ℤ (pos 0) tax_year)) [
  | inl y ↦ elim (Bool-cases (ltb_ℤ (pos 0) quarter)) [
    | inl q ↦ rw (y, q) refl
    | inr q ↦ rw (y, q) refl
  ]
  | inr y ↦ elim (Bool-cases (ltb_ℤ (pos 0) quarter)) [
    | inl q ↦ rw (y, q) refl
    | inr q ↦ rw (y, q) refl
  ]
]
list_query_lem sqlserver holding tax_year quarter = elim (Bool-cases (ltb_ℤ (pos 0) tax_year)) [
  | inl y ↦ elim (Bool-cases (ltb_ℤ (pos 0) quarter)) [
    | inl q ↦ rw (y, q) refl
    | inr q ↦ rw (y, q) refl
  ]
  | inr y ↦ elim (Bool-cases (ltb_ℤ (pos 0) quarter)) [
    | inl q ↦ rw (y, q) refl
    | inr q ↦ rw (y, q) refl
  ]
]

module _ {D : Type 0} (db : Database D) (sorter : SliceSort SubmissionSummary)
    (json : WarningsJson) where
  pub create-exec :
      (b : SqlBackend) (now : Time) (p : CreateParams) (d : D) {warnings : List ℕ}
      → json.marshal p.warnings ≡ done warnings
      → (sql_store b db sorter json).create now p d
        ≡ inserted now p (
            db.exec
              (insert_text b)
              (insert_args now p (json_value b p.body) (json_value b warnings))
              d)
  unfolding Postgres.create SqlServer.create
  create-exec postgres now p d e = rw e refl
  create-exec sqlserver now p d e = rw e refl

  pub get_by_id-query :
      (b : SqlBackend) (id : String) (d : D)
      → (sql_store b db sorter json).get_by_id id d
        ≡ scan_submission json (db.query (select_one_text b) (text_value id ∷ []) d)
  unfolding Postgres.get_by_id SqlServer.get_by_id
  get_by_id-query postgres id d = refl
  get_by_id-query sqlserver id d = refl

  pub get_run-query :
      (b : SqlBackend) (ref : String) (d : D)
      → (sql_store b db sorter json).get_run ref d
        ≡ scan_run_status ref (db.query (select_run_text b) (text_value ref ∷ []) d)
  unfolding Postgres.get_run SqlServer.get_run
  get_run-query postgres ref d = refl
  get_run-query sqlserver ref d = refl

  list_asked : String × List Value → D → Result (List SubmissionSummary)
  list_asked (query, args) d = scan_summaries sorter (db.query query args d)

  pub list-query :
      (b : SqlBackend) (holding : String) (tax_year quarter : ℤ) (d : D)
      → (sql_store b db sorter json).list holding tax_year quarter d
        ≡ scan_summaries sorter (
            db.query
              (list_text b (filter_of tax_year) (filter_of quarter))
              (list_args holding (filter_of tax_year) (filter_of quarter))
              d)
  unfolding Postgres.list SqlServer.list list_asked
  list-query postgres holding tax_year quarter d =
      ap (λ q. list_asked q d) (list_query_lem postgres holding tax_year quarter)
  list-query sqlserver holding tax_year quarter d =
      ap (λ q. list_asked q d) (list_query_lem sqlserver holding tax_year quarter)
