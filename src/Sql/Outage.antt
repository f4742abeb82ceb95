-- ===== src/Sql/Outage.antt =====
-- What the SQL stores answer while the database does not.
use corncrake.Prelude.{ℕ, String, ◌≡◌, refl, ap, ◌∙◌, List}
use corncrake.Prelude.Int.{ℤ}
use corncrake.SliceSort.{SliceSort}
use corncrake.Models.{Time, SubmissionSummary}
use corncrake.Store.{Error, err, CreateParams}
use corncrake.Sql.Postgres
use corncrake.Sql.SqlServer
use corncrake.Sql.{Attempt, done, failed, Value, Database, WarningsJson, inserted}
use corncrake.Sql.Scan.{scan_submission, scan_run_status, scan_summaries}
use corncrake.Sql.Backend.{SqlBackend, postgres, sqlserver, sql_store}
use corncrake.Sql.Calls.{get_by_id-query, get_run-query, list-query}

-- No statement gets through.
pub record IsDown {D : Type 0} (db : Database D) (d : D) : Type 0 where
  pub exec :
      (query : String) (args : List Value) → (e : String) × (db.exec query args d ≡ (failed e, d))
  pub query :
      (query : String) (args : List Value) → (e : String) × (db.query query args d ≡ failed e)

module _ {D : Type 0} {db : Database D} {d : D} (h : IsDown db d)
    (sorter : SliceSort SubmissionSummary) (json : WarningsJson) where
  create_with_down :
      (now : Time) (p : CreateParams) (warnings : Attempt (List ℕ))
      → (e : String) × (Postgres.create_with db now p warnings d ≡ (err (Error.failed e), d))
  create_with_down now p (failed e) = (_, refl)
  create_with_down now p (done bs) = let (e, ran) = h.exec _ _ in (_, ap (inserted now p) ran)

  pub create_down :
      (b : SqlBackend) (now : Time) (p : CreateParams)
      → (e : String) × ((sql_store b db sorter json).create now p d ≡ (err (Error.failed e), d))
  unfolding Postgres.create SqlServer.create
  create_down postgres now p = create_with_down now p (json.marshal p.warnings)
  create_down sqlserver now p = let (e, ran) = h.exec _ _ in (_, ap (inserted now p) ran)

  pub get_by_id_down :
      (b : SqlBackend) (id : String)
      → (e : String) × ((sql_store b db sorter json).get_by_id id d ≡ err (Error.failed e))
  get_by_id_down b id =
      let (e, ran) = h.query _ _ in
      (e, get_by_id-query db sorter json b id d ∙ ap (scan_submission json) ran)

  pub get_run_down :
      (b : SqlBackend) (ref : String)
      → (e : String) × ((sql_store b db sorter json).get_run ref d ≡ err (Error.failed e))
  get_run_down b ref =
      let (e, ran) = h.query _ _ in
      (e, get_run-query db sorter json b ref d ∙ ap (scan_run_status ref) ran)

  pub list_down :
      (b : SqlBackend) (holding : String) (tax_year quarter : ℤ)
      → (e : String) × ((sql_store b db sorter json).list holding tax_year quarter d
          ≡ err (Error.failed e))
  list_down b holding tax_year quarter =
      let (e, ran) = h.query _ _ in
      (e, list-query db sorter json b holding tax_year quarter d ∙ ap (scan_summaries sorter) ran)
