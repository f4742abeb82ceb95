-- ===== src/Store/Memory/Answers.antt =====
-- The memory store gives the answers that every backend gives.
use mathlib.Core.List.Perm
use corncrake.Prelude.{String, refl, List, [], ◌∷◌}
use corncrake.SliceSort.{SliceSort, RangeOrder}
use corncrake.Models.{SubmissionRecord, SubmissionSummary}
use corncrake.Store.Memory.{memory_store}
use corncrake.Store.Memory.Represents.{Represents}
use corncrake.Store.Memory.Reads.{run_result, get_by_id-ledger, get_run-ledger}
use corncrake.Store.Memory.Listing.{list-ledger}
use corncrake.Store.Ledger.{run_status}
use corncrake.Store.Contract.{IsRunAnswer, Answers}

run_result-IsRunAnswer :
    (ref : String) (rs : List SubmissionRecord) → IsRunAnswer ref rs (run_result ref rs)
run_result-IsRunAnswer ref [] = refl
run_result-IsRunAnswer ref (r ∷ rs) = (
  run_status ref (r ∷ rs),
  refl,
  record {
    run_reference = refl;
    total_submissions = refl;
    total_items = refl;
    submissions = Perm.refl _;
  },
)

pub memory_store-Answers :
    (sorter : SliceSort SubmissionSummary) (order : RangeOrder (String × SubmissionRecord))
    → Answers (memory_store sorter order) Represents
memory_store-Answers sorter order = record {
  get_by_id = λ id _ h. get_by_id-ledger h id;
  get_run = λ ref _ h. rw (get_run-ledger h ref) (run_result-IsRunAnswer ref _);
  list = λ holding tax_year quarter wanted _ _ _ h w.
      list-ledger sorter order holding tax_year quarter wanted h w;
}
