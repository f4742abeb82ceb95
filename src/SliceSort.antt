-- ===== src/SliceSort.antt =====
-- `sort.Slice` of Go's standard library, and the order of a `range` over a map: what their documents
-- promise, and no more. The sort is not stable, and the visit order is any permutation.
pub mod Insertion
use mathlib.Core.List.{Perm}
use corncrake.Prelude.{◌≡◌, Bool, true, false, List, [], ◌∷◌, All}

-- No later element is less than an earlier one.
abbrev pub IsOrdered : {A : Type 0} → (A → A → Bool) → List A → Type 0
IsOrdered less [] = Unit
IsOrdered less (x ∷ xs) = All (λ y. less y x ≡ false) xs × IsOrdered less xs

-- `sort.Slice` requires a strict weak order.
pub record IsStrictWeak {A : Type 0} (less : A → A → Bool) : Type 0 where
  pub asym : (x y : A) → less x y ≡ true → less y x ≡ false
  pub negative_trans : (x y z : A) → less x y ≡ false → less y z ≡ false → less x z ≡ false

pub record SliceSort (A : Type 0) : Type 0 where
  pub sort : (A → A → Bool) → List A → List A
  pub sort-perm : (less : A → A → Bool) (xs : List A) → Perm (sort less xs) xs
  pub sort-IsOrdered :
      (less : A → A → Bool) (xs : List A) → IsStrictWeak less → IsOrdered less (sort less xs)

pub record RangeOrder (A : Type 0) : Type 0 where
  pub visit : List A → List A
  pub visit-perm : (xs : List A) → Perm (visit xs) xs
