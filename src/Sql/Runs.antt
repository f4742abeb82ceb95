-- ===== src/Sql/Runs.antt =====
-- The order within a run, which the statement of `GetRun` fixes.
use mathlib.Core.Path.{subst}
use corncrake.Prelude.{
  String, ◌≡◌, sym, ap, ◌∙◌, inl, inr, All, Bool-cases, eq_iff, List, [], ◌∷◌, map, keep,
}
use corncrake.SliceSort.{SliceSort}
use corncrake.Models.{SubmissionRecord, SubmissionSummary, RunStatus}
use corncrake.Store.{ok}
use corncrake.Store.Ledger.{Ledger, in_run, IsNewestFirst}
use corncrake.Store.Contract.{IsRun, IsRunAnswer}
use corncrake.Sql.{Database, WarningsJson}
use corncrake.Sql.Scan.{scan_run_status}
use corncrake.Sql.Backend.{SqlBackend, Row, sql_store}
use corncrake.Sql.Holds.{Reads}
use corncrake.Sql.Executes.{Executes, ComparesLetters}
use corncrake.Sql.Insertion.{Holds}
use corncrake.Sql.Answers.{
  Agree-in_run, scan_run_status_lem, IsDescending-IsNewestFirst, sql_store-Answers,
}
use corncrake.Sql.Loops.{run_of}
use corncrake.Sql.Totals.{row_summary}
use corncrake.Sql.Calls.{get_run-query}

ok-injective : {A : Type 0} {a b : A} → ok a ≡ ok b → a ≡ b
ok-injective e = cc

run_of-IsNewestFirst :
    (ref : String) (ss : List SubmissionSummary) (run : RunStatus)
    → IsNewestFirst ss
    → run_of ref ss ≡ ok run
    → IsNewestFirst run.submissions
run_of-IsNewestFirst ref [] run h e = cc
run_of-IsNewestFirst ref (s ∷ ss) run h e = rw (← ok-injective e) h

module _ {D : Type 0} {db : Database D} {b : SqlBackend} (x : Executes db b) (json : WarningsJson)
    (sorter : SliceSort SubmissionSummary) (exact : ComparesLetters x) where
  -- A row of the run has its reference in a column.
  in_run-IsText :
      (ref : String) (table : List Row) (log : Ledger) {r : SubmissionRecord}
      {rs : List SubmissionRecord}
      → All x.Fits table
      → Reads json table log
      → keep (in_run ref) log ≡ r ∷ rs
      → x.IsText ref
  in_run-IsText ref [] [] fit h e = cc
  in_run-IsText ref [] (r ∷ log) fit h e = absurd h
  in_run-IsText ref (row ∷ table) [] fit h e = absurd h
  in_run-IsText ref (row ∷ table) (r ∷ log) (fits, fit) (read, h) e =
      elim (Bool-cases (in_run ref r)) [
        | inl yes_ ↦
            let same : row.run_reference ≡ ref = (eq_iff row.run_reference ref).0 (
              sym (exact row.run_reference ref)
              ∙ Agree-in_run json x.alike exact ref row r read
              ∙ yes_) in
            subst x.IsText same (x.texts row fits).1
        | inr no_ ↦ in_run-IsText ref table log fit h (rw no_ at e)
      ]

  -- While the database answers and compares letter by letter, the status of a run with a submission
  -- counts the submissions and adds up their items in 64 bits, and lists each of them once, the
  -- newest first.
  pub get_run-IsNewestFirst :
      {d : D} {log : Ledger} (ref : String) {r : SubmissionRecord} {rs : List SubmissionRecord}
      → Holds x json d log
      → keep (in_run ref) log ≡ r ∷ rs
      → (run : RunStatus) × ((sql_store b db sorter json).get_run ref d ≡ ok run)
        × IsRun ref (r ∷ rs) run
        × IsNewestFirst run.submissions
  get_run-IsNewestFirst {d} {log} ref {r} {rs} h e =
      let text = in_run-IsText ref (x.table d) log h.fit h.reads e in
      let (rows_, ran, _, descending) = x.selects_run d ref h.up text in
      let answer : IsRunAnswer ref (r ∷ rs) ((sql_store b db sorter json).get_run ref d) =
        subst (λ kept. IsRunAnswer ref kept ((sql_store b db sorter json).get_run ref d)) e
          ((sql_store-Answers x json sorter exact).get_run ref text h) in
      let (run, answers, is_run) = answer in
      (
        run,
        answers,
        is_run,
        run_of-IsNewestFirst ref (map row_summary rows_) run
            (IsDescending-IsNewestFirst rows_ descending)
            (sym (
                get_run-query db sorter json b ref d
                ∙ ap (scan_run_status ref) ran
                ∙ scan_run_status_lem ref rows_)
              ∙ answers),
      )
