-- ===== src/Store/Memory/Listing.antt =====
-- `List` of the memory store: which records it returns, and in which order.
use mathlib.Core.Logic.{∥∥₁_map}
use mathlib.Core.List.{Perm, Permᴰ}
use mathlib.Core.List.Perm
use mathlib.Core.List.Permᴰ
use corncrake.Prelude.{
  All-imp, String, ◌≡◌, refl, ◌↔◌, inl, inr, Bool, true, List, [], ◌∷◌, map, eq_iff, arith, keep,
  Bool-cases, Bool-ext,
}
use corncrake.Prelude.Int.{ℤ, eqb_ℤ_iff}
use corncrake.SliceSort.{IsOrdered, IsStrictWeak, SliceSort, RangeOrder}
use corncrake.Models.{SubmissionRecord, SubmissionSummary}
use corncrake.Store.{ok}
use corncrake.Store.Memory.{MemoryStore, summary_of, selected, collect, newer, list}
use corncrake.Store.Memory.Represents.{Represents, keyed}
use corncrake.Store.Ledger.{Ledger, IsSelected, IsNewestFirst}

-- The tests of `List` let exactly the records through that were asked for.
pub selected_iff :
    (holding : String) (tax_year quarter : ℤ) (r : SubmissionRecord)
    → (selected holding tax_year quarter r ≡ true) ↔ IsSelected holding tax_year quarter r
unfolding selected
selected_iff holding tax_year quarter r = (
  λ e. ground (arith, eq_iff r.holding_number holding),
  λ h. ground (
    arith,
    eq_iff r.holding_number holding,
    eqb_ℤ_iff r.tax_year tax_year,
    eqb_ℤ_iff r.quarter quarter,
  ),
)

pub newer-IsStrictWeak : IsStrictWeak newer
newer-IsStrictWeak = record {
  asym = λ x y e. ground arith;
  negative_trans = λ x y z e f. ground arith;
}

module _ {A : Type 0} (p : A → Bool) where
  swapped : (a b : A) (l : List A) → Permᴰ (keep p (b ∷ a ∷ l)) (keep p (a ∷ b ∷ l))
  swapped a b l = elim (Bool-cases (p a)) [
    | inl q ↦ elim (Bool-cases (p b)) [
      | inl r ↦ rw (q, r) (Permᴰ.swap refl refl)
      | inr r ↦ rw (q, r) (Permᴰ.refl _)
    ]
    | inr q ↦ elim (Bool-cases (p b)) [
      | inl r ↦ rw (q, r) (Permᴰ.refl _)
      | inr r ↦ rw (q, r) (Permᴰ.refl _)
    ]
  ]

  keep-permᴰ : {xs ys : List A} → Permᴰ xs ys → Permᴰ (keep p xs) (keep p ys)
  keep-permᴰ Permᴰ.nil = Permᴰ.nil
  keep-permᴰ (Permᴰ.cons {b = b} e h) = elim (Bool-cases (p b)) [
    | inl q ↦ rw (e, q) (Permᴰ.cons refl (keep-permᴰ h))
    | inr q ↦ rw (e, q) (keep-permᴰ h)
  ]
  keep-permᴰ (Permᴰ.swap {a' = a'} {b' = b'} {l = l} e f) = rw (e, f) (swapped a' b' l)
  keep-permᴰ (Permᴰ.trans h k) = Permᴰ.trans (keep-permᴰ h) (keep-permᴰ k)

collect-eq-map :
    (holding : String) (tax_year quarter : ℤ) (es : List (String × SubmissionRecord))
    → collect holding tax_year quarter es
      ≡ map (λ e. summary_of e.1) (keep (λ e. selected holding tax_year quarter e.1) es)
unfolding collect
collect-eq-map holding tax_year quarter [] = refl
collect-eq-map holding tax_year quarter ((id, r) ∷ es) =
    ground (arith, collect-eq-map holding tax_year quarter es)

keep-keyed :
    (p q : SubmissionRecord → Bool) (log : Ledger)
    → ((r : SubmissionRecord) → p r ≡ q r)
    → map (λ e. summary_of e.1) (keep (λ e. p e.1) (map keyed log)) ≡ map summary_of (keep q log)
keep-keyed p q [] h = refl
keep-keyed p q (r ∷ log) h = ground (arith, h r, keep-keyed p q log)

pub IsOrdered-newer : (xs : List SubmissionSummary) → IsOrdered newer xs → IsNewestFirst xs
IsOrdered-newer [] h = tt
IsOrdered-newer (x ∷ xs) (a, h) = (All-imp (λ y e. ground arith) xs a, IsOrdered-newer xs h)

module _ (sorter : SliceSort SubmissionSummary)
    (order : RangeOrder (String × SubmissionRecord)) where
  module _ {s : MemoryStore} {log : Ledger} (h : Represents s log) where
    visited-perm :
        (p q : SubmissionRecord → Bool)
        → ((r : SubmissionRecord) → p r ≡ q r)
        → Perm
            (map (λ e. summary_of e.1) (keep (λ e. p e.1) (order.visit s.submissions.entries)))
            (map summary_of (keep q log))
    visited-perm p q same = rw (← keep-keyed p q log same) (
        rw (← h.entries) (
          Perm.map (λ e. summary_of e.1)
            (∥∥₁_map (order.visit-perm s.submissions.entries) (keep-permᴰ (λ e. p e.1)))))

  -- Whatever order the map is visited in, `List` returns the summaries of just the records that were
  -- asked for, `wanted` being any test for these, and none of them is newer than one before it.
  pub list-ledger :
      {s : MemoryStore} {log : Ledger} (holding : String) (tax_year quarter : ℤ)
      (wanted : SubmissionRecord → Bool)
      → Represents s log
      → ((r : SubmissionRecord) → (wanted r ≡ true) ↔ IsSelected holding tax_year quarter r)
      → (results : List SubmissionSummary) × (list sorter order holding tax_year quarter s
          ≡ ok results)
        × Perm results (map summary_of (keep wanted log))
        × IsNewestFirst results
  unfolding list
  list-ledger {s} {log} holding tax_year quarter wanted h decides = (
    sorter.sort newer (collect holding tax_year quarter (order.visit s.submissions.entries)),
    refl,
    Perm.trans (sorter.sort-perm newer _) (
        rw (collect-eq-map holding tax_year quarter (order.visit s.submissions.entries)) (
          visited-perm h (selected holding tax_year quarter) wanted λ r.
            Bool-ext _ _ (λ e. (decides r).1 ((selected_iff holding tax_year quarter r).0 e))
              (λ e. (selected_iff holding tax_year quarter r).1 ((decides r).0 e)))),
    IsOrdered-newer _ (sorter.sort-IsOrdered newer _ newer-IsStrictWeak),
  )
