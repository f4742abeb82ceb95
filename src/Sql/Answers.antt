-- ===== src/Sql/Answers.antt =====
-- `GetByID`, `GetRun` and `List` of the SQL stores, on a table that stands for the accepted submissions.
use mathlib.Core.List.{Perm}
use mathlib.Core.List.Perm
use corncrake.Prelude.{
  String, ◌≡◌, refl, inl, inr, sym, ap, ◌∙◌, Bool, none, List, [], ◌∷◌, map, arith, first, keep,
  length-map, All-map, ◌≤◌, ◌==◌, ◌&&◌, Bool-cases, Bool-ext,
}
use corncrake.Prelude.Int.{ℤ, wrap}
use corncrake.SliceSort.{SliceSort}
use corncrake.Models.{SubmissionRecord, SubmissionSummary}
use corncrake.Store.Memory.{or_not_found, summary_of, newer, selected}
use corncrake.Store.Memory.Listing.{selected_iff, newer-IsStrictWeak, IsOrdered-newer}
use corncrake.Store.Ledger.{Ledger, has_id, in_run, IsNewestFirst}
use corncrake.Store.Contract.{IsRunAnswer, IsListAnswer, Wants, AnswersWithin}
use corncrake.Sql.{done, rows, Database, WarningsJson}
use corncrake.Sql.Scan.{scan_submission, scan_run_status, scan_summaries}
use corncrake.Sql.Backend.{SqlBackend, Row, sql_store, submission_columns, summary_columns}
use corncrake.Sql.Executes.{
  Executes, row_has_id, row_in_run, row_listed, passes, IsFilter, ComparesLetters, IsDescending,
}
use corncrake.Sql.Holds.{base_record, row_record-base, Reads, Agree, Reads-keep, Reads-summaries}
use corncrake.Sql.Insertion.{Agree-has_id, Holds}
use corncrake.Sql.Loops.{run_of, scan_run_status-run_of, scan_summaries-sort}
use corncrake.Sql.Totals.{
  row_summary, sum_summaries-map, sum_summaries-perm, length-perm, scan_all-rows,
}
use corncrake.Sql.Calls.{filter_of, get_by_id-query, get_run-query, list-query}

same_filters :
    (holding : String) (tax_year quarter : ℤ) (row : Row)
    → ((row.holding_number == holding)
        && (passes (filter_of tax_year) row.tax_year && passes (filter_of quarter) row.quarter))
      ≡ selected holding tax_year quarter (base_record row)
unfolding selected
same_filters holding tax_year quarter row = ground arith

row_listed-selected :
    (alike : String → String → Bool)
    → ((s t : String) → alike s t ≡ (s == t))
    → (holding : String) (tax_year quarter : ℤ) (row : Row)
    → row_listed alike holding (filter_of tax_year) (filter_of quarter) row
      ≡ selected holding tax_year quarter (base_record row)
unfolding selected
row_listed-selected alike exact holding tax_year quarter row =
    rw (exact row.holding_number holding) (same_filters holding tax_year quarter row)

module _ (json : WarningsJson) where
  scan_submission-keep :
      (p : Row → Bool) (q : SubmissionRecord → Bool) (table : List Row) (log : Ledger)
      → Agree json p q
      → Reads json table log
      → scan_submission json (done (rows (map submission_columns (keep p table)) none))
        ≡ or_not_found (first q log)
  scan_submission-keep p q [] [] a h = refl
  scan_submission-keep p q [] (r ∷ log) a h = absurd h
  scan_submission-keep p q (row ∷ table) [] a h = absurd h
  scan_submission-keep p q (row ∷ table) (r ∷ log) a (e, h) = elim (Bool-cases (q r)) [
    | inl yes_ ↦ rw (a row r e, yes_) e
    | inr no_ ↦ rw (a row r e, no_) (scan_submission-keep p q table log a h)
  ]

  pub Agree-in_run :
      (alike : String → String → Bool)
      → ((s t : String) → alike s t ≡ (s == t))
      → (ref : String) → Agree json (row_in_run alike ref) (in_run ref)
  Agree-in_run alike exact ref row r e =
      let (ws, same) = row_record-base json row r e in
      exact row.run_reference ref ∙ ap (in_run ref) (sym same)

  Agree-listed :
      (alike : String → String → Bool)
      → ((s t : String) → alike s t ≡ (s == t))
      → (holding : String) (tax_year quarter : ℤ)
      → Agree json
          (row_listed alike holding (filter_of tax_year) (filter_of quarter))
          (selected holding tax_year quarter)
  unfolding selected
  Agree-listed alike exact holding tax_year quarter row r e =
      let (ws, same) = row_record-base json row r e in
      row_listed-selected alike exact holding tax_year quarter row
      ∙ ap (selected holding tax_year quarter) (sym same)

  -- The summaries of the rows that pass are those of the records that pass, in some order.
  summaries-perm :
      (p : Row → Bool) (q : SubmissionRecord → Bool) (table : List Row) (log : Ledger)
      (rs : List Row)
      → Agree json p q
      → Reads json table log
      → Perm rs (keep p table)
      → Perm (map row_summary rs) (map summary_of (keep q log))
  summaries-perm p q table log rs a h perm =
      rw (← Reads-summaries json (keep p table) (keep q log) (Reads-keep json p q table log a h))
        (Perm.map row_summary perm)

pub scan_run_status_lem :
    (ref : String) (rs : List Row)
    → scan_run_status ref (done (rows (map summary_columns rs) none))
      ≡ run_of ref (map row_summary rs)
scan_run_status_lem ref rs =
    scan_run_status-run_of ref (map summary_columns rs) none ∙ rw (scan_all-rows rs) refl

pub IsDescending-IsNewestFirst :
    (rs : List Row) → IsDescending rs → IsNewestFirst (map row_summary rs)
IsDescending-IsNewestFirst [] h = tt
IsDescending-IsNewestFirst (r ∷ rs) (a, h) =
    (All-map (λ y. y.received_at ≤ r.received_at) row_summary rs a, IsDescending-IsNewestFirst rs h)

run_of-IsRunAnswer :
    (ref : String) (ss : List SubmissionSummary) (kept : Ledger)
    → Perm ss (map summary_of kept)
    → IsRunAnswer ref kept (run_of ref ss)
run_of-IsRunAnswer ref [] [] p = refl
run_of-IsRunAnswer ref (s ∷ ss) (k ∷ ks) p = (
  _,
  refl,
  record {
    run_reference = refl;
    total_submissions = length-perm p ∙ length-map summary_of (k ∷ ks);
    total_items = ap wrap (sum_summaries-perm p ∙ sum_summaries-map (k ∷ ks));
    submissions = p;
  },
)
run_of-IsRunAnswer ref [] (k ∷ ks) p = absurd (cc (length-perm p))
run_of-IsRunAnswer ref (s ∷ ss) [] p = absurd (cc (length-perm p))

list_answer :
    (sorter : SliceSort SubmissionSummary) (rs : List Row) (kept : Ledger)
    → Perm (map row_summary rs) (map summary_of kept)
    → IsListAnswer kept (scan_summaries sorter (done (rows (map summary_columns rs) none)))
list_answer sorter rs kept p = (
  sorter.sort newer (map row_summary rs),
  scan_summaries-sort sorter (map summary_columns rs) none ∙ rw (scan_all-rows rs) refl,
  Perm.trans (sorter.sort-perm newer _) p,
  IsOrdered-newer _ (sorter.sort-IsOrdered newer _ newer-IsStrictWeak),
)

selected-wanted :
    (holding : String) (tax_year quarter : ℤ) (wanted : SubmissionRecord → Bool)
    → Wants wanted holding tax_year quarter
    → (r : SubmissionRecord) → selected holding tax_year quarter r ≡ wanted r
selected-wanted holding tax_year quarter wanted w r =
    Bool-ext _ _ (λ e. (w r).1 ((selected_iff holding tax_year quarter r).0 e))
      (λ e. (selected_iff holding tax_year quarter r).1 ((w r).0 e))

module _ {D : Type 0} {db : Database D} {b : SqlBackend} (x : Executes db b) (json : WarningsJson)
    (sorter : SliceSort SubmissionSummary) (exact : ComparesLetters x) where
  answers_get_run :
      {d : D} {log : Ledger} (ref : String)
      → x.IsText ref
      → Holds x json d log
      → IsRunAnswer ref (keep (in_run ref) log) ((sql_store b db sorter json).get_run ref d)
  answers_get_run {d} {log} ref text h =
      let (rs, ran, perm, _) = x.selects_run d ref h.up text in
      rw (get_run-query db sorter json b ref d, ran, scan_run_status_lem ref rs)
        (run_of-IsRunAnswer ref (map row_summary rs) (keep (in_run ref) log) (
          summaries-perm json (row_in_run x.alike ref) (in_run ref) (x.table d) log rs
            (Agree-in_run json x.alike exact ref) h.reads perm))

  answers_list :
      {d : D} {log : Ledger} (holding : String) (tax_year quarter : ℤ)
      (wanted : SubmissionRecord → Bool)
      → x.IsText holding
      → IsFilter (filter_of tax_year)
      → IsFilter (filter_of quarter)
      → Holds x json d log
      → Wants wanted holding tax_year quarter
      → IsListAnswer
          (keep wanted log)
          ((sql_store b db sorter json).list holding tax_year quarter d)
  answers_list {d} {log} holding tax_year quarter wanted text year_fits quarter_fits h w =
      let (rs, ran, perm, _) =
        x.selects_list d holding (filter_of tax_year) (filter_of quarter) h.up text year_fits
          quarter_fits in
      rw (list-query db sorter json b holding tax_year quarter d, ran)
        (list_answer sorter rs (keep wanted log) (
          summaries-perm json (row_listed x.alike holding (filter_of tax_year) (filter_of quarter))
            wanted (x.table d) log rs
            (λ row r e.
              Agree-listed json x.alike exact holding tax_year quarter row r e
              ∙ selected-wanted holding tax_year quarter wanted w r)
            h.reads perm))

  -- While the database answers, compares letter by letter, and its table stands for the accepted
  -- submissions, both SQL stores, asked for texts and year and quarter filters that their columns
  -- admit, give the answers that every backend gives: the submission with an id, the totals and the
  -- summaries of a run, and the summaries that a holding's filters select, none newer than one
  -- before it.
  pub sql_store-Answers :
      AnswersWithin
        (sql_store b db sorter json)
        (Holds x json)
        x.IsText
        (λ v. IsFilter (filter_of v))
  sql_store-Answers = record {
    get_by_id = λ {s = d} {log} id text h.
        get_by_id-query db sorter json b id d
        ∙ ap (scan_submission json) (x.selects_one d id h.up text)
        ∙ scan_submission-keep json (row_has_id x.alike id) (has_id id) (x.table d) log
            (Agree-has_id json x.alike exact id) h.reads;
    get_run = answers_get_run;
    list = answers_list;
  }
