-- ===== src/Sql/Agreement.antt =====
-- The backends side by side: the memory store and a SQL store after the same calls of `Create`.
use mathlib.Core.Option
use mathlib.Core.List.{map-append}
use corncrake.Prelude.{
  String, ◌≡◌, refl, sym, ap, ◌∙◌, inl, inr, Bool, Option, none, some, List, [], ◌∷◌, map, first,
  keep, All, Bool-cases, Option-cases, ℕ,
}
use corncrake.Prelude.Int.{ℤ}
use corncrake.SliceSort.{SliceSort, RangeOrder}
use corncrake.Models.{Time, SubmissionRecord, SubmissionSummary}
use corncrake.Store.{Result, ok, err, panic, CreateParams, SubmissionStore}
use corncrake.Store.Memory.{
  MemoryStore, new_memory_store, memory_store, new_record, selected, or_not_found,
}
use corncrake.Store.Memory.Represents.{Represents, Represents-empty, create-accept}
use corncrake.Store.Memory.Listing.{selected_iff}
use corncrake.Store.Memory.Answers.{memory_store-Answers}
use corncrake.Store.Ledger.{Ledger, has_id, in_run, accept}
use corncrake.Store.Contract.{IsRunAnswer, IsListAnswer}
use corncrake.Sql.{done, Database, WarningsJson}
use corncrake.Sql.Backend.{SqlBackend, sql_store}
use corncrake.Sql.Executes.{Executes, ComparesLetters, IsFilter, ReadsBack, new_row, insert_unless}
use corncrake.Sql.Insertion.{Holds, create-insert_unless}
use corncrake.Sql.Calls.{filter_of}
use corncrake.Sql.Answers.{sql_store-Answers}

-- Calls of `Create`, each with the time that the clock gives it.
abbrev pub Creations : Type 0
Creations = List (Time × CreateParams)

unfoldable pub created_all : {S : Type 0} → SubmissionStore S → Creations → S → S
created_all store [] s = s
created_all store ((now, p) ∷ calls) s = created_all store calls (store.create now p s).1

abbrev pub map_ok : {A B : Type 0} → (A → B) → Result A → Result B
map_ok f (ok a) = ok (f a)
map_ok f (err e) = err e
map_ok f panic = panic

module _ {D : Type 0} {db : Database D} {b : SqlBackend} (x : Executes db b)
    (json : WarningsJson) where
  -- A record with its time and its body as the columns keep them.
  abbrev pub as_kept : SubmissionRecord → SubmissionRecord
  as_kept r = record r { received_at = x.rounded r.received_at; body = x.kept_json r.body }

  -- The warnings have a JSON text, and the row is one that the columns admit.
  abbrev pub IsStorable : Time × CreateParams → Type 0
  IsStorable (now, p) =
      (warnings : List ℕ) × (json.marshal p.warnings ≡ done warnings)
      × x.Fits (new_row (x.rounded now) (x.kept_json p.body) p (x.kept_json warnings))

  first-as_kept :
      (id : String) (log : Ledger)
      → first (has_id id) (map as_kept log) ≡ Option.map as_kept (first (has_id id) log)
  first-as_kept id [] = refl
  first-as_kept id (r ∷ log) = elim (Bool-cases (has_id id r)) [
    | inl yes_ ↦ rw yes_ refl
    | inr no_ ↦ rw no_ (first-as_kept id log)
  ]

  -- A test that looks at neither the time nor the body keeps the same records.
  keep-as_kept :
      (q : SubmissionRecord → Bool) (log : Ledger)
      → ((r : SubmissionRecord) → q (as_kept r) ≡ q r)
      → keep q (map as_kept log) ≡ map as_kept (keep q log)
  keep-as_kept q [] same = refl
  keep-as_kept q (r ∷ log) same = elim (Bool-cases (q r)) [
    | inl yes_ ↦ rw (same r, yes_) (ap (λ rs. as_kept r ∷ rs) (keep-as_kept q log same))
    | inr no_ ↦ rw (same r, no_) (keep-as_kept q log same)
  ]

  or_not_found-map :
      (o : Option SubmissionRecord)
      → or_not_found (Option.map as_kept o) ≡ map_ok as_kept (or_not_found o)
  or_not_found-map none = refl
  or_not_found-map (some r) = refl

  insert_unless-accept :
      (now : Time) (p : CreateParams) (log : Ledger)
      → insert_unless
          (first (has_id p.submission_id) (map as_kept log))
          (as_kept (new_record now p))
          (map as_kept log)
        ≡ map as_kept (accept now p log).1
  insert_unless-accept now p log = elim (Option-cases (first (has_id p.submission_id) log)) [
    | inl fresh ↦
        rw (first-as_kept p.submission_id log, fresh)
          (sym (map-append as_kept log (new_record now p ∷ [])))
    | inr (r, stored) ↦ rw (first-as_kept p.submission_id log, stored) refl
  ]

  module _ (sorter : SliceSort SubmissionSummary) (order : RangeOrder (String × SubmissionRecord))
      (exact : ComparesLetters x) (law : ReadsBack json x.kept_json) where
    -- The memory store and the database stand for the same submissions after the same calls.
    pub created_all-agree :
        (calls : Creations) {s : MemoryStore} {d : D} {log : Ledger}
        → Represents s log
        → Holds x json d (map as_kept log)
        → All IsStorable calls
        → (log' : Ledger) × Represents (created_all (memory_store sorter order) calls s) log'
          × Holds x json (created_all (sql_store b db sorter json) calls d) (map as_kept log')
    unfolding created_all
    created_all-agree [] {log} m h _ = (log, m, h)
    created_all-agree ((now, p) ∷ calls) {s} {d} {log} m h ((warnings, e, fits), storable) =
        let (d', ran, held) =
          create-insert_unless x json sorter exact law now p warnings h e fits in
        rw ran (
          created_all-agree calls (create-accept m now p).1
            (rw (insert_unless-accept now p log) at held) storable)

    -- The backends agree: after any calls of `Create` on a new memory store and on an empty
    -- table, by submissions that the database can store while it answers and compares letter by
    -- letter, and for an id, a reference and a holding that its columns take and a year and a
    -- quarter, where they are asked for, in the range of theirs: `GetByID` finds the same
    -- submission in both or none in either, but for the time and the body as the columns keep
    -- them, and `GetRun` and `List` answer for the same submissions.
    pub backends_agree :
        (calls : Creations) (d : D) (id ref holding : String) (tax_year quarter : ℤ)
        → Holds x json d []
        → All IsStorable calls
        → x.IsText id
        → x.IsText ref
        → x.IsText holding
        → IsFilter (filter_of tax_year)
        → IsFilter (filter_of quarter)
        → let memory = memory_store sorter order in
          let sql = sql_store b db sorter json in
          let s = created_all memory calls new_memory_store in
          let d' = created_all sql calls d in
          (sql.get_by_id id d' ≡ map_ok as_kept (memory.get_by_id id s))
          × ((rs : List SubmissionRecord) × IsRunAnswer ref rs (memory.get_run ref s)
              × IsRunAnswer ref (map as_kept rs) (sql.get_run ref d'))
          × ((rs : List SubmissionRecord) × IsListAnswer rs (memory.list holding tax_year quarter s)
              × IsListAnswer (map as_kept rs) (sql.list holding tax_year quarter d'))
    unfolding selected
    backends_agree calls d id ref holding tax_year quarter h storable id_text ref_text holding_text
          year_fits quarter_fits =
        let (log, m, held) = created_all-agree calls Represents-empty h storable in
        let in_memory = memory_store-Answers sorter order in
        let in_sql = sql_store-Answers x json sorter exact in
        let wanted = selected holding tax_year quarter in
        let wants = selected_iff holding tax_year quarter in
        (
          in_sql.get_by_id id id_text held
              ∙ rw (first-as_kept id log, in_memory.get_by_id id tt m)
                  (or_not_found-map (first (has_id id) log)),
          (
            keep (in_run ref) log,
            in_memory.get_run ref tt m,
            rw (← keep-as_kept (in_run ref) log (λ r. refl)) (in_sql.get_run ref ref_text held),
          ),
          (
            keep wanted log,
            in_memory.list holding tax_year quarter wanted tt tt tt m wants,
            rw (← keep-as_kept wanted log (λ r. refl)) (
                in_sql.list holding tax_year quarter wanted holding_text year_fits quarter_fits held
                  wants),
          ),
        )
