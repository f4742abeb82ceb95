-- ===== src/Sql/Totals.antt =====
-- The rows of a table as summaries, and the sum of their item counts, which the order does not change.
use mathlib.Core.Logic.{∥∥₁_elim}
use mathlib.Core.Bool.{Bool-set}
use mathlib.Core.List.{Perm, Permᴰ}
use corncrake.Prelude.{suc, ◌≡◌, refl, ap, ◌∙◌, List, [], ◌∷◌, map, arith, length, eqb_iff}
use corncrake.Prelude.Int.{ℤ, ◌+ℤ◌, eqb_ℤ_iff}
use corncrake.Models.{SubmissionSummary}
use corncrake.Store.Memory.{summary_of}
use corncrake.Store.Ledger.{Ledger, sum_items}
use corncrake.Sql.{done}
use corncrake.Sql.Loops.{sum_summaries, scan_all}
use corncrake.Sql.Backend.{Row, summary_columns}
use corncrake.Sql.Holds.{base_record, scan_summary-row}

abbrev pub row_summary : Row → SubmissionSummary
row_summary row = summary_of (base_record row)

pub sum_summaries-map : (log : Ledger) → sum_summaries (map summary_of log) ≡ sum_items log
sum_summaries-map [] = refl
sum_summaries-map (r ∷ log) = ap (λ t. r.item_count +ℤ t) (sum_summaries-map log)

+ℤ_left_comm : (a b c : ℤ) → a +ℤ (b +ℤ c) ≡ b +ℤ (a +ℤ c)
unfolding ◌+ℤ◌
+ℤ_left_comm a b c = ground arith

sum_summaries-permᴰ :
    {xs ys : List SubmissionSummary} → Permᴰ xs ys → sum_summaries xs ≡ sum_summaries ys
sum_summaries-permᴰ Permᴰ.nil = refl
sum_summaries-permᴰ (Permᴰ.cons e h) = rw (e, sum_summaries-permᴰ h) refl
sum_summaries-permᴰ (Permᴰ.swap {a' = a'} {b' = b'} {l = l} e f) =
    rw (e, f) (+ℤ_left_comm b'.item_count a'.item_count (sum_summaries l))
sum_summaries-permᴰ (Permᴰ.trans h k) = sum_summaries-permᴰ h ∙ sum_summaries-permᴰ k

pub sum_summaries-perm :
    {xs ys : List SubmissionSummary} → Perm xs ys → sum_summaries xs ≡ sum_summaries ys
sum_summaries-perm {xs} {ys} p =
    (eqb_ℤ_iff (sum_summaries xs) (sum_summaries ys)).0
      (∥∥₁_elim p (Bool-set _ _) (λ h. (eqb_ℤ_iff _ _).1 (sum_summaries-permᴰ h)))

length-permᴰ : {xs ys : List SubmissionSummary} → Permᴰ xs ys → length xs ≡ length ys
length-permᴰ Permᴰ.nil = refl
length-permᴰ (Permᴰ.cons e h) = ap suc (length-permᴰ h)
length-permᴰ (Permᴰ.swap e f) = refl
length-permᴰ (Permᴰ.trans h k) = length-permᴰ h ∙ length-permᴰ k

pub length-perm : {xs ys : List SubmissionSummary} → Perm xs ys → length xs ≡ length ys
length-perm {xs} {ys} p =
    (eqb_iff _ _).0 (∥∥₁_elim p (Bool-set _ _) (λ h. (eqb_iff _ _).1 (length-permᴰ h)))

pub scan_all-rows : (rs : List Row) → scan_all (map summary_columns rs) ≡ done (map row_summary rs)
unfolding scan_all
scan_all-rows [] = refl
scan_all-rows (r ∷ rs) = rw (scan_summary-row r, scan_all-rows rs) refl
