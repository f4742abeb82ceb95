-- ===== src/Store/Contract.antt =====
-- What every backend of `SubmissionStore` answers when its state stands for the accepted submissions,
-- whatever the state is. The order within a run is the backend's own.
use mathlib.Core.List.{Perm}
use corncrake.Prelude.{String, ◌≡◌, ◌↔◌, Bool, true, List, [], ◌∷◌, map, first, keep, length}
use corncrake.Prelude.Int.{ℤ, wrap}
use corncrake.Models.{SubmissionRecord, SubmissionSummary, RunStatus}
use corncrake.Store.{Result, ok, err, not_found, SubmissionStore}
use corncrake.Store.Memory.{or_not_found, summary_of}
use corncrake.Store.Ledger.{Ledger, has_id, in_run, sum_items, IsSelected, IsNewestFirst}

-- The totals are those of the records, and the summaries are theirs in some order.
pub record IsRun (ref : String) (rs : List SubmissionRecord) (run : RunStatus) : Type 0 where
  pub run_reference : run.run_reference ≡ ref
  pub total_submissions : run.total_submissions ≡ length rs
  pub total_items : run.total_items ≡ wrap (sum_items rs)
  pub submissions : Perm run.submissions (map summary_of rs)

-- A run without records is not found.
abbrev pub IsRunAnswer : String → List SubmissionRecord → Result RunStatus → Type 0
IsRunAnswer ref [] answer = answer ≡ err not_found
IsRunAnswer ref (r ∷ rs) answer = (run : RunStatus) × (answer ≡ ok run) × IsRun ref (r ∷ rs) run

-- The test is true of the records that `List` was asked for, and of no others.
abbrev pub Wants : (SubmissionRecord → Bool) → String → ℤ → ℤ → Type 0
Wants wanted holding tax_year quarter =
    (r : SubmissionRecord) → (wanted r ≡ true) ↔ IsSelected holding tax_year quarter r

-- The summaries of the records, none of them newer than one before it.
abbrev pub IsListAnswer : List SubmissionRecord → Result (List SubmissionSummary) → Type 0
IsListAnswer rs answer =
    (results : List SubmissionSummary) × (answer ≡ ok results)
    × Perm results (map summary_of rs)
    × IsNewestFirst results

module _ {S : Type 0} (store : SubmissionStore S) (StandsFor : S → Ledger → Type 0) where
  -- `IsText` and `IsNumber` say which texts and which filters the backend can be asked for.
  pub record AnswersWithin (IsText : String → Type 0) (IsNumber : ℤ → Type 0) : Type 0 where
    pub get_by_id :
        {s : S} {log : Ledger} (id : String)
        → IsText id
        → StandsFor s log
        → store.get_by_id id s ≡ or_not_found (first (has_id id) log)
    pub get_run :
        {s : S} {log : Ledger} (ref : String)
        → IsText ref
        → StandsFor s log
        → IsRunAnswer ref (keep (in_run ref) log) (store.get_run ref s)
    pub list :
        {s : S} {log : Ledger} (holding : String) (tax_year quarter : ℤ)
        (wanted : SubmissionRecord → Bool)
        → IsText holding
        → IsNumber tax_year
        → IsNumber quarter
        → StandsFor s log
        → Wants wanted holding tax_year quarter
        → IsListAnswer (keep wanted log) (store.list holding tax_year quarter s)

  -- A backend that can be asked for anything.
  abbrev pub Answers : Type 0
  Answers = AnswersWithin (λ text. Unit) (λ number. Unit)
