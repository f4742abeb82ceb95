-- ===== src/Sql/Loops.antt =====
-- The loops of `scanRunStatus` and `scanSummaries` beside the scan of all rows at once.
use mathlib.Core.List.{append_assoc, append-nil}
use corncrake.Prelude.{
  String, ◌≡◌, refl, ◌⊎◌, inl, inr, sym, ap, ◌∙◌, Option, none, some, List, [], ◌∷◌, ◌++◌, length,
}
use corncrake.Prelude.Int.{ℤ, pos, ◌+ℤ◌, +ℤ_assoc, zero-+ℤ, +ℤ_zero, wrap, add_int-wrap}
use corncrake.SliceSort.{SliceSort}
use corncrake.Models.{SubmissionSummary, RunStatus}
use corncrake.Store.{Error, Result, ok, err, not_found}
use corncrake.Store.Memory.{newer}
use corncrake.Sql.{Attempt, done, failed, ◌>>=◌, Value, rows}
use corncrake.Sql.Scan.{
  scan_summary, scan_run_loop, finish_run, scan_run_status, scan_summaries_loop, finish_summaries,
  scan_summaries,
}

abbrev pub sum_summaries : List SubmissionSummary → ℤ
sum_summaries [] = pos 0
sum_summaries (s ∷ ss) = s.item_count +ℤ sum_summaries ss

-- The summaries of the rows, or the first error among them.
unfoldable pub scan_all : List (List Value) → Attempt (List SubmissionSummary)
scan_all [] = done []
scan_all (vs ∷ rest) = scan_summary vs >>= λ s. scan_all rest >>= λ ss. done (s ∷ ss)

abbrev pub run_so_far : String → ℤ → List SubmissionSummary → RunStatus
run_so_far ref a before = record {
  run_reference = ref;
  total_submissions = 0;
  total_items = wrap a;
  submissions = before;
}

Attempt-cases :
    {A : Type 0} (m : Attempt A) → ((e : String) × (m ≡ failed e)) ⊎ ((a : A) × (m ≡ done a))
Attempt-cases (failed e) = inl (e, refl)
Attempt-cases (done a) = inr (a, refl)

abbrev scanned_run :
    String → ℤ → List SubmissionSummary → List SubmissionSummary → Attempt RunStatus
scanned_run ref a before ss = done (run_so_far ref (a +ℤ sum_summaries ss) (before ++ ss))

scan_run_loop-scan_all :
    (ref : String) (vs : List (List Value)) (a : ℤ) (before : List SubmissionSummary)
    → scan_run_loop vs (run_so_far ref a before) ≡ scan_all vs >>= scanned_run ref a before
unfolding scan_run_loop scan_all
scan_run_loop-scan_all ref [] a before = rw (+ℤ_zero a, append-nil before) refl
scan_run_loop-scan_all ref (v ∷ vs) a before = elim (Attempt-cases (scan_summary v)) [
  | inl (e, here) ↦ rw here refl
  | inr (s, here) ↦
      rw
        (
          here,
          add_int-wrap a s.item_count,
          scan_run_loop-scan_all ref vs (a +ℤ s.item_count) (before ++ s ∷ []),
        )
        (elim (Attempt-cases (scan_all vs)) [
          | inl (e, later) ↦ rw later refl
          | inr (ss, later) ↦
              rw later (rw (+ℤ_assoc a s.item_count (sum_summaries ss), append_assoc) refl)
        ])
]

scan_summaries_loop-scan_all :
    (vs : List (List Value)) (before : List SubmissionSummary)
    → scan_summaries_loop vs before ≡ scan_all vs >>= (λ ss. done (before ++ ss))
unfolding scan_summaries_loop scan_all
scan_summaries_loop-scan_all [] before = ap done (sym (append-nil before))
scan_summaries_loop-scan_all (v ∷ vs) before = elim (Attempt-cases (scan_summary v)) [
  | inl (e, here) ↦ rw here refl
  | inr (s, here) ↦
      rw (here, scan_summaries_loop-scan_all vs (before ++ s ∷ []))
        (elim (Attempt-cases (scan_all vs)) [
          | inl (e, later) ↦ rw later refl
          | inr (ss, later) ↦ rw later (rw append_assoc refl)
        ])
]

-- What a run is, for the summaries of all its rows.
abbrev pub run_of : String → List SubmissionSummary → Result RunStatus
run_of ref [] = err not_found
run_of ref (s ∷ ss) = ok (record {
  run_reference = ref;
  total_submissions = length (s ∷ ss);
  total_items = wrap (sum_summaries (s ∷ ss));
  submissions = s ∷ ss;
})

-- The first error of a row comes before the error that ends the rows.
abbrev pub unless_failed : {A B : Type 0} → Attempt A → Option String → (A → Result B) → Result B
unless_failed (failed e) at_end f = err (Error.failed e)
unless_failed (done a) (some e) f = err (Error.failed e)
unless_failed (done a) none f = f a

finish_run-run_of :
    (ref : String) (m : Attempt (List SubmissionSummary)) (at_end : Option String)
    → finish_run at_end (m >>= scanned_run ref (pos 0) []) ≡ unless_failed m at_end (run_of ref)
finish_run-run_of ref (failed e) at_end = refl
finish_run-run_of ref (done ss) (some e) = refl
finish_run-run_of ref (done []) none = refl
finish_run-run_of ref (done (s ∷ ss)) none = rw (zero-+ℤ (sum_summaries (s ∷ ss))) refl

finish_summaries-sort :
    (sorter : SliceSort SubmissionSummary) (m : Attempt (List SubmissionSummary))
    (at_end : Option String)
    → finish_summaries sorter at_end (m >>= (λ ss. done ss))
      ≡ unless_failed m at_end (λ ss. ok (sorter.sort newer ss))
finish_summaries-sort sorter (failed e) at_end = refl
finish_summaries-sort sorter (done ss) (some e) = refl
finish_summaries-sort sorter (done ss) none = refl

pub scan_run_status-run_of :
    (ref : String) (vs : List (List Value)) (at_end : Option String)
    → scan_run_status ref (done (rows vs at_end)) ≡ unless_failed (scan_all vs) at_end (run_of ref)
unfolding wrap
scan_run_status-run_of ref vs at_end =
    ap (finish_run at_end) (scan_run_loop-scan_all ref vs (pos 0) [])
    ∙ finish_run-run_of ref (scan_all vs) at_end

pub scan_summaries-sort :
    (sorter : SliceSort SubmissionSummary) (vs : List (List Value)) (at_end : Option String)
    → scan_summaries sorter (done (rows vs at_end))
      ≡ unless_failed (scan_all vs) at_end (λ ss. ok (sorter.sort newer ss))
scan_summaries-sort sorter vs at_end =
    ap (finish_summaries sorter at_end) (scan_summaries_loop-scan_all vs [])
    ∙ finish_summaries-sort sorter (scan_all vs) at_end

-- Whatever rows a query gives, and however they end: `GetRun` and `List` answer with the first error
-- of a row or else with the error that ended the rows, if there is one, and otherwise for the
-- summaries of all rows, `GetRun` with their number and their items added up in 64 bits, or with
-- `ErrNotFound` for no rows, and `List` with them sorted.
pub scan_results :
    (sorter : SliceSort SubmissionSummary) (ref : String) (vs : List (List Value))
    (at_end : Option String)
    → (scan_run_status ref (done (rows vs at_end))
        ≡ unless_failed (scan_all vs) at_end (run_of ref))
      × (scan_summaries sorter (done (rows vs at_end))
          ≡ unless_failed (scan_all vs) at_end (λ ss. ok (sorter.sort newer ss)))
scan_results sorter ref vs at_end =
    (scan_run_status-run_of ref vs at_end, scan_summaries-sort sorter vs at_end)
