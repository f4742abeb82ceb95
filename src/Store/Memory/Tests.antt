-- ===== src/Store/Memory/Tests.antt =====
-- The store on concrete calls: two holdings that use the same submission id.
use corncrake.Prelude.{◌≡◌, refl, List, [], ◌∷◌, map, keep}
use mathlib.Core.List.{Perm}
use corncrake.Prelude.Int.{pos}
use corncrake.SliceSort.Insertion.{sort_by_insertion, entry_order}
use corncrake.Models.{SubmissionRecord, SubmissionSummary}
use corncrake.Store.{ok}
use corncrake.Store.Memory.{
  MemoryStore, new_memory_store, existing_result, summary_of, create, get_by_id, list, selected,
}
use corncrake.Store.Ledger.{IsNewestFirst}
use corncrake.Store.Memory.Represents.{Represents, Represents-empty, create-accept}
use corncrake.Store.Memory.Listing.{selected_iff, list-ledger}
use corncrake.Store.Memory.History.{
  Call, create_call, get_call, run_call, answers, ledger_answers, after, answers_refine,
  create_idempotent,
}
use corncrake.Samples.{params, other_params, stored}

abbrev calls : List Call
calls =
    create_call 100 params
    ∷ create_call 200 other_params
    ∷ get_call "S1"
    ∷ run_call "R1"
    ∷ run_call "R2"
    ∷ []

answers_refine_example : answers calls new_memory_store ≡ ledger_answers calls []
answers_refine_example = answers_refine calls

create_idempotent_example :
    let s = after (get_call "S1" ∷ []) new_memory_store in
    let s' = after (run_call "R1" ∷ []) (create 100 params s).1 in
    (r : SubmissionRecord) × ((create 100 params s).0 ≡ ok (existing_result r))
    × (get_by_id "S1" s' ≡ ok r)
    × (create 200 other_params s' ≡ ((create 100 params s).0, s'))
create_idempotent_example =
    create_idempotent (get_call "S1" ∷ []) (run_call "R1" ∷ []) 100 200 params other_params refl

-- The store after one submission.
abbrev one : MemoryStore
one = (create 100 params new_memory_store).1

one-Represents : Represents one (stored ∷ [])
one-Represents = (create-accept Represents-empty 100 params).1

list-ledger_example :
    (results : List SubmissionSummary) × (list sort_by_insertion entry_order "E1"
        (pos 2024)
        (pos 0)
        one
      ≡ ok results)
    × Perm results (map summary_of (keep (selected "E1" (pos 2024) (pos 0)) (stored ∷ [])))
    × IsNewestFirst results
list-ledger_example =
    list-ledger sort_by_insertion entry_order "E1" (pos 2024) (pos 0)
      (selected "E1" (pos 2024) (pos 0)) one-Represents (selected_iff "E1" (pos 2024) (pos 0))
