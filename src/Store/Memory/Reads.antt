-- ===== src/Store/Memory/Reads.antt =====
-- `GetByID` and `GetRun` of the memory store, read off the ledger that it stands for.
use mathlib.Core.List.{append_assoc, append-nil}
use corncrake.Prelude.{
  String, ◌≡◌, refl, ◌≢◌, sym, ap, ◌∙◌, some, List, [], ◌∷◌, ◌++◌, map, eq_iff, eq_refl, arith,
  first, keep, length, length-map, All, All-keep, All-imp,
}
use corncrake.Prelude.Int.{ℤ, pos, ◌+ℤ◌, +ℤ_assoc, zero-+ℤ, +ℤ_zero, wrap, add_int-wrap}
use corncrake.GoMap
use corncrake.GoMap.{GoMap}
use corncrake.Models.{SubmissionRecord, SubmissionSummary, RunStatus}
use corncrake.Store.{Result, ok, err, not_found}
use corncrake.Store.Memory.{MemoryStore, or_not_found, get_by_id, summary_of, run_loop, get_run}
use corncrake.Store.Memory.Represents.{Represents, HasDistinctIds, id_of, listed, get-submissions}
use corncrake.Store.Ledger.{Ledger, has_id, in_run, sum_items, run_status}

first_of_other :
    (r : SubmissionRecord) (log : Ledger) (q : SubmissionRecord)
    → q.submission_id ≢ r.submission_id
    → first (has_id q.submission_id) log ≡ some q
    → first (has_id q.submission_id) (r ∷ log) ≡ some q
first_of_other r log q ne e = ground (arith, eq_iff r.submission_id q.submission_id)

first_of_others :
    (r : SubmissionRecord) (log qs : Ledger)
    → All (λ q. q.submission_id ≢ r.submission_id) qs
    → All (λ q. first (has_id q.submission_id) log ≡ some q) qs
    → All (λ q. first (has_id q.submission_id) (r ∷ log) ≡ some q) qs
first_of_others r log [] _ _ = tt
first_of_others r log (q ∷ qs) (ne, a) (e, h) =
    (first_of_other r log q ne e, first_of_others r log qs a h)

-- Under distinct ids every record is the first with its id.
pub first_of_member :
    (log : Ledger) → HasDistinctIds log → All (λ r. first (has_id r.submission_id) log ≡ some r) log
first_of_member [] d = tt
first_of_member (r ∷ log) (apart, d) =
    (rw (eq_refl r.submission_id), first_of_others r log log apart (first_of_member log d))

module _ (m : GoMap SubmissionRecord) (ref : String) where
  -- The state of the loop after records whose item counts add up to `a`.
  abbrev so_far : ℤ → List SubmissionSummary → RunStatus
  so_far a done = record {
    run_reference = ref;
    total_submissions = 0;
    total_items = wrap a;
    submissions = done;
  }

  abbrev finished : ℤ → List SubmissionSummary → RunStatus
  finished a done = record (so_far a done) { total_submissions = length done }

  run_loop_lem :
      (rs : List SubmissionRecord) (a : ℤ) (done : List SubmissionSummary)
      → All (λ r. GoMap.get m r.submission_id ≡ some r) rs
      → run_loop m (map id_of rs) (so_far a done)
        ≡ ok (finished (a +ℤ sum_items rs) (done ++ map summary_of rs))
  unfolding run_loop
  run_loop_lem [] a done h =
      ap (λ t. ok (finished t done)) (sym (+ℤ_zero a))
      ∙ ap (λ d. ok (finished (a +ℤ pos 0) d)) (sym (append-nil done))
  run_loop_lem (r ∷ rs) a done (e, h) =
      rw (e, run_loop, add_int-wrap a r.item_count)
        (rw (run_loop_lem rs (a +ℤ r.item_count) (done ++ summary_of r ∷ []) h)
          (rw (+ℤ_assoc a r.item_count (sum_items rs), append_assoc) refl))

-- The answer of `GetRun` for the records of a run.
abbrev pub run_result : String → List SubmissionRecord → Result RunStatus
run_result ref [] = err not_found
run_result ref (r ∷ rs) = ok (run_status ref (r ∷ rs))

module _ {s : MemoryStore} {log : Ledger} (h : Represents s log) where
  -- `GetByID` finds the ledger's record with the id, and fails only where there is none.
  pub get_by_id-ledger : (id : String) → get_by_id id s ≡ or_not_found (first (has_id id) log)
  unfolding get_by_id
  get_by_id-ledger id = ap or_not_found (get-submissions h id)

  stored : All (λ r. GoMap.get s.submissions r.submission_id ≡ some r) log
  stored =
      All-imp (λ r e. get-submissions h r.submission_id ∙ e) log (first_of_member log h.distinct)

  run_result_lem :
      (ref : String) (rs : List SubmissionRecord)
      → GoMap.get s.runs ref ≡ listed rs
      → All (λ r. GoMap.get s.submissions r.submission_id ≡ some r) rs
      → get_run ref s ≡ run_result ref rs
  unfolding get_run wrap
  run_result_lem ref [] e a = rw (e, get_run)
  run_result_lem ref (r ∷ rs) e a =
      rw (e, get_run)
        (run_loop_lem s.submissions ref (r ∷ rs) (pos 0) [] a
          ∙ rw (zero-+ℤ (sum_items (r ∷ rs)), length-map summary_of rs) refl)

  -- `GetRun` answers with the records of the run in the order of their acceptance, and never reads
  -- through a missing record.
  pub get_run-ledger : (ref : String) → get_run ref s ≡ run_result ref (keep (in_run ref) log)
  get_run-ledger ref =
      run_result_lem ref (keep (in_run ref) log) (h.runs ref) (All-keep _ (in_run ref) log stored)
