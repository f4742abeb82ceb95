-- ===== src/SliceSort/Insertion.antt =====
-- The promises of `sort.Slice` and of `range` can be met: by insertion sort, and by the order of the
-- entries.
use mathlib.Core.List.{Perm}
use mathlib.Core.List.Perm
use corncrake.Prelude.{
  ◌≡◌, Bool, false, inl, inr, List, [], ◌∷◌, arith, All, Bool-cases, if◌then◌else◌,
}
use corncrake.SliceSort.{IsOrdered, IsStrictWeak, SliceSort, RangeOrder}

module _ {A : Type 0} (less : A → A → Bool) where
  insert : A → List A → List A
  insert a [] = a ∷ []
  insert a (x ∷ xs) = let rest = insert a xs in if less x a then x ∷ rest else a ∷ x ∷ xs

  unfoldable pub insertion_sort : List A → List A
  unfolding insert
  insertion_sort [] = []
  insertion_sort (x ∷ xs) = insert x (insertion_sort xs)

  insert-perm : (a : A) (xs : List A) → Perm (insert a xs) (a ∷ xs)
  unfolding insert
  insert-perm a [] = Perm.refl (a ∷ [])
  insert-perm a (x ∷ xs) = elim (Bool-cases (less x a)) [
    | inl e ↦ rw e (Perm.trans (Perm.cons x (insert-perm a xs)) (Perm.swap a x xs))
    | inr e ↦ rw e (Perm.refl (a ∷ x ∷ xs))
  ]

  pub insertion_sort-perm : (xs : List A) → Perm (insertion_sort xs) xs
  unfolding insertion_sort
  insertion_sort-perm [] = Perm.refl []
  insertion_sort-perm (x ∷ xs) =
      Perm.trans (insert-perm x (insertion_sort xs)) (Perm.cons x (insertion_sort-perm xs))

  All-insert : (P : A → Type 0) (a : A) (xs : List A) → P a → All P xs → All P (insert a xs)
  unfolding insert
  All-insert P a [] pa h = (pa, tt)
  All-insert P a (x ∷ xs) pa h = ground (arith, All-insert P a xs pa h.1)

  module _ (w : IsStrictWeak less) where
    All_below :
        (a x : A) (xs : List A)
        → less x a ≡ false
        → All (λ y. less y x ≡ false) xs
        → All (λ y. less y a ≡ false) xs
    All_below a x [] e h = tt
    All_below a x (y ∷ ys) e h = (w.negative_trans y x a h.0 e, All_below a x ys e h.1)

    insert-IsOrdered : (a : A) (xs : List A) → IsOrdered less xs → IsOrdered less (insert a xs)
    unfolding insert
    insert-IsOrdered a [] h = (tt, tt)
    insert-IsOrdered a (x ∷ xs) (low, h) = elim (Bool-cases (less x a)) [
      | inl e ↦
          rw e (All-insert (λ y. less y x ≡ false) a xs (w.asym x a e) low, insert-IsOrdered a xs h)
      | inr e ↦ rw e ((e, All_below a x xs e low), (low, h))
    ]

    pub insertion_sort-IsOrdered : (xs : List A) → IsOrdered less (insertion_sort xs)
    unfolding insertion_sort
    insertion_sort-IsOrdered [] = tt
    insertion_sort-IsOrdered (x ∷ xs) =
        insert-IsOrdered x (insertion_sort xs) (insertion_sort-IsOrdered xs)

abbrev pub sort_by_insertion : {A : Type 0} → SliceSort A
sort_by_insertion = record {
  sort = insertion_sort;
  sort-perm = insertion_sort-perm;
  sort-IsOrdered = λ less xs w. insertion_sort-IsOrdered less w xs;
}

abbrev pub entry_order : {A : Type 0} → RangeOrder A
entry_order = record { visit = λ xs. xs; visit-perm = Perm.refl }
