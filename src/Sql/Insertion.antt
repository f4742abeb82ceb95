-- ===== src/Sql/Insertion.antt =====
-- `Create` of the SQL stores, on a table that stands for the accepted submissions.
use corncrake.Text.{◌<>◌}
use corncrake.Prelude.{
  ℕ, String, ◌≡◌, sym, ap, ◌∙◌, true, Option, none, some, List, [], ◌∷◌, first, Bool, ◌==◌, All,
  All-append,
}
use corncrake.SliceSort.{SliceSort}
use corncrake.Models.{Time, SubmissionRecord, SubmissionSummary}
use corncrake.Store.{Error, ok, err, CreateParams}
use corncrake.Store.Memory.{fresh_result}
use corncrake.Store.Ledger.{Ledger, has_id}
use corncrake.Sql.{done, Database, WarningsJson, inserted}
use corncrake.Sql.Backend.{SqlBackend, Row, sql_store}
use corncrake.Sql.Executes.{
  Executes, ComparesLetters, ReadsBack, new_row, row_has_id, insert_unless,
}
use corncrake.Sql.Holds.{
  row_record, row_record-base, kept_record, row_record-new_row, Reads, Reads-append, Agree,
  ReadsFirst, Reads-first,
}
use corncrake.Sql.Calls.{create-exec}

module _ (json : WarningsJson) where
  pub Agree-has_id :
      (alike : String → String → Bool)
      → ((s t : String) → alike s t ≡ (s == t))
      → (id : String) → Agree json (row_has_id alike id) (has_id id)
  Agree-has_id alike exact id row r e =
      let (ws, same) = row_record-base json row r e in
      exact row.submission_id id ∙ ap (has_id id) (sym same)

  Reads-insert_unless :
      (o : Option Row) (o' : Option SubmissionRecord) (rows : List Row) (log : Ledger) (row : Row)
      (r : SubmissionRecord)
      → ReadsFirst json o o'
      → Reads json rows log
      → row_record json row ≡ ok r
      → Reads json (insert_unless o row rows) (insert_unless o' r log)
  Reads-insert_unless none none rows log row r f h e = Reads-append json rows log row r h e
  Reads-insert_unless (some old) (some old') rows log row r f h e = h
  Reads-insert_unless none (some old') rows log row r f h e = absurd f
  Reads-insert_unless (some old) none rows log row r f h e = absurd f

All-insert_unless :
    (P : Row → Type 0) (o : Option Row) (row : Row) (rows : List Row)
    → All P rows
    → P row
    → All P (insert_unless o row rows)
All-insert_unless P none row rows h p = All-append P rows (row ∷ []) h (p, tt)
All-insert_unless P (some old) row rows h p = h

module _ {D : Type 0} {db : Database D} {b : SqlBackend} (x : Executes db b)
    (json : WarningsJson) where
  -- The database answers, and its table, of rows that fit, stands for the accepted submissions.
  pub record Holds (d : D) (log : Ledger) : Type 0 where
    pub up : x.is_up d ≡ true
    pub reads : Reads json (x.table d) log
    pub fit : All x.Fits (x.table d)

  -- On either database, while it answers and compares letter by letter, a submission that can be
  -- stored and whose id is new is appended to the accepted ones, with its time and its body as the
  -- columns keep them. One whose id is taken changes nothing, and is answered with the values of
  -- the new call all the same.
  pub create-insert_unless :
      (sorter : SliceSort SubmissionSummary)
      → ComparesLetters x
      → ReadsBack json x.kept_json
      → {d : D} {log : Ledger} (now : Time) (p : CreateParams) (warnings : List ℕ) → Holds d log
      → json.marshal p.warnings ≡ done warnings
      → x.Fits (new_row (x.rounded now) (x.kept_json p.body) p (x.kept_json warnings))
      → (d' : D) × ((sql_store b db sorter json).create now p d ≡ (ok (fresh_result now p), d'))
        × Holds d' (
            insert_unless
              (first (has_id p.submission_id) log)
              (kept_record (x.rounded now) (x.kept_json p.body) p)
              log)
  create-insert_unless sorter exact law {d} {log} now p warnings h e fits =
      let (d', ran, up, inserts) = x.inserts d now p warnings h.up fits in
      (
        d',
        create-exec db sorter json b now p d e ∙ ap (inserted now p) ran,
        record {
          up = up;
          reads = rw inserts (
              Reads-insert_unless json (first (row_has_id x.alike p.submission_id) (x.table d))
                (first (has_id p.submission_id) log) (x.table d) log
                (new_row (x.rounded now) (x.kept_json p.body) p (x.kept_json warnings))
                (kept_record (x.rounded now) (x.kept_json p.body) p)
                (Reads-first json (row_has_id x.alike p.submission_id) (has_id p.submission_id)
                  (x.table d) log (Agree-has_id json x.alike exact p.submission_id) h.reads)
                h.reads (row_record-new_row law (x.rounded now) (x.kept_json p.body) warnings p e));
          fit = rw inserts (All-insert_unless x.Fits _ _ (x.table d) h.fit fits);
        },
      )

  -- A submission that the columns do not admit is answered with an error, and changes nothing.
  pub create-refused :
      (sorter : SliceSort SubmissionSummary)
      → {d : D} {log : Ledger} (now : Time) (p : CreateParams) (warnings : List ℕ) → Holds d log
      → json.marshal p.warnings ≡ done warnings
      → ¬ x.Fits (new_row (x.rounded now) (x.kept_json p.body) p (x.kept_json warnings))
      → (d' : D) × (e : Error) × ((sql_store b db sorter json).create now p d ≡ (err e, d'))
        × Holds d' log
  create-refused sorter {d} now p warnings h e wide =
      let (d', text, ran, up, same) = x.refuses d now p warnings h.up wide in
      (
        d',
        Error.failed ("insert submission: " <> text),
        create-exec db sorter json b now p d e ∙ ap (inserted now p) ran,
        record { up = up; reads = rw same h.reads; fit = rw same h.fit },
      )
