-- ===== src/Store/Ledger.antt =====
-- What the interface `SubmissionStore` promises, on an abstract store: the submissions that were
-- accepted, the earliest first. The program has no such list; the backends are held to it.
use corncrake.Prelude.{
  String, Bool, Option, none, some, List, [], ◌∷◌, ◌++◌, map, ◌==◌, ◌≡◌, ◌⊎◌, length, first, All,
  ◌≤◌,
}
use corncrake.Prelude.Int.{ℤ, pos, ◌+ℤ◌, ◌≤ℤ◌, wrap}
use corncrake.Models.{Time, SubmissionRecord, SubmissionSummary, RunStatus}
use corncrake.Store.{CreateParams, CreateResult}
use corncrake.Store.Memory.{new_record, existing_result, fresh_result, summary_of}

abbrev pub Ledger : Type 0
Ledger = List SubmissionRecord

abbrev pub has_id : String → SubmissionRecord → Bool
has_id id r = r.submission_id == id

abbrev pub in_run : String → SubmissionRecord → Bool
in_run ref r = r.run_reference == ref

-- The first submission under an id is the one that counts; later ones are answered from it.
abbrev pub accept_after :
    Option SubmissionRecord → Time → CreateParams → Ledger → CreateResult × Ledger
accept_after (some existing) now p log = (existing_result existing, log)
accept_after none now p log = (fresh_result now p, log ++ new_record now p ∷ [])

abbrev pub accept : Time → CreateParams → Ledger → CreateResult × Ledger
accept now p log = accept_after (first (has_id p.submission_id) log) now p log

abbrev pub sum_items : List SubmissionRecord → ℤ
sum_items [] = pos 0
sum_items (r ∷ rs) = r.item_count +ℤ sum_items rs

-- A run is the records with its reference, in the order of their acceptance. The total is an `int`.
abbrev pub run_status : String → List SubmissionRecord → RunStatus
run_status ref rs = record {
  run_reference = ref;
  total_submissions = length rs;
  total_items = wrap (sum_items rs);
  submissions = map summary_of rs;
}

-- A year or a quarter that is not positive filters nothing.
abbrev pub IsSelected : String → ℤ → ℤ → SubmissionRecord → Type 0
IsSelected holding tax_year quarter r =
    (r.holding_number ≡ holding)
    × ((tax_year ≤ℤ pos 0) ⊎ (r.tax_year ≡ tax_year))
    × ((quarter ≤ℤ pos 0) ⊎ (r.quarter ≡ quarter))

-- No summary was received after one that stands before it.
abbrev pub IsNewestFirst : List SubmissionSummary → Type 0
IsNewestFirst [] = Unit
IsNewestFirst (x ∷ xs) = All (λ y. y.received_at ≤ x.received_at) xs × IsNewestFirst xs
