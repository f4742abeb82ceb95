-- ===== src/GoMap.antt =====
-- Go's `map[string]V`. A missing key reads as `none`, which is the code's `v, ok := m[k]` with `ok`
-- false. `entries` is one order in which a `range` loop may visit the map: Go leaves it open.
use corncrake.Prelude.{
  ◌≡◌, refl, String, Bool, Option, none, some, List, [], ◌∷◌, ◌++◌, arith, ◌==◌, eq_iff,
  if◌then◌else◌,
}

module _ {ℓ} {V : Type ℓ} where
  unfoldable pub lookup : String → List (String × V) → Option V
  lookup k [] = none
  lookup k ((j, v) ∷ m) = if j == k then some v else lookup k m

  without : String → List (String × V) → List (String × V)
  without k [] = []
  without k ((j, v) ∷ m) = let rest = without k m in if j == k then rest else (j, v) ∷ rest

  -- An assignment overwrites the entry of its key in place, or adds one.
  assign : String → V → List (String × V) → List (String × V)
  assign k v [] = (k, v) ∷ []
  assign k v ((j, w) ∷ m) = if j == k then (k, v) ∷ m else (j, w) ∷ assign k v m

  -- `for k, v := range m { if stale(v) { delete(m, k) } }`
  sweep : (V → Bool) → List (String × V) → List (String × V)
  sweep stale [] = []
  sweep stale ((k, v) ∷ m) =
      let rest = sweep stale m in if stale v then without k rest else (k, v) ∷ rest

pub record GoMap {ℓ} (V : Type ℓ) : Type ℓ where
  pub entries : List (String × V)

module _ {ℓ} {V : Type ℓ} where
  unfoldable pub empty : GoMap V
  empty = record { entries = [] }

  unfoldable pub get : GoMap V → String → Option V
  unfolding lookup
  get m k = lookup k m.entries

  unfoldable pub put : GoMap V → String → V → GoMap V
  unfolding assign
  put m k v = record { entries = assign k v m.entries }

  unfoldable pub delete : GoMap V → String → GoMap V
  unfolding without
  delete m k = record { entries = without k m.entries }

  unfoldable pub delete_where : GoMap V → (V → Bool) → GoMap V
  unfolding sweep without
  delete_where m stale = record { entries = sweep stale m.entries }

  abbrev pub drop_if : (V → Bool) → Option V → Option V
  drop_if stale none = none
  drop_if stale (some v) = if stale v then none else some v

  lookup-assign :
      (k j : String) (v : V) (m : List (String × V))
      → lookup j (assign k v m) ≡ (if k == j then some v else lookup j m)
  unfolding lookup assign
  lookup-assign k j v [] = refl
  lookup-assign k j v ((i, w) ∷ m) =
      ground (arith, eq_iff k j, eq_iff i k, eq_iff i j, lookup-assign k j v m)

  lookup-without :
      (k j : String) (m : List (String × V))
      → lookup j (without k m) ≡ (if k == j then none else lookup j m)
  unfolding lookup without
  lookup-without k j [] = ground arith
  lookup-without k j ((i, v) ∷ m) =
      ground (arith, lookup-without k j m, eq_iff i k, eq_iff i j, eq_iff k j)

  lookup-sweep :
      (stale : V → Bool) (j : String) (m : List (String × V))
      → lookup j (sweep stale m) ≡ drop_if stale (lookup j m)
  unfolding lookup sweep
  lookup-sweep stale j [] = refl
  lookup-sweep stale j ((i, v) ∷ m) =
      ground (arith, lookup-sweep stale j m, lookup-without i j (sweep stale m), eq_iff i j)

  pub get-put :
      (m : GoMap V) (k j : String) (v : V)
      → get (put m k v) j ≡ (if k == j then some v else get m j)
  unfolding get put
  get-put m k j v = lookup-assign k j v m.entries

  pub get-delete :
      (m : GoMap V) (k j : String) → get (delete m k) j ≡ (if k == j then none else get m j)
  unfolding get delete
  get-delete m k j = lookup-without k j m.entries

  pub get-delete_where :
      (m : GoMap V) (stale : V → Bool) (j : String)
      → get (delete_where m stale) j ≡ drop_if stale (get m j)
  unfolding get delete_where
  get-delete_where m stale j = lookup-sweep stale j m.entries

  -- A key that is absent is added behind the others.
  assign_of_absent :
      (k : String) (v : V) (m : List (String × V))
      → lookup k m ≡ none
      → assign k v m ≡ m ++ (k, v) ∷ []
  unfolding lookup assign
  assign_of_absent k v [] h = refl
  assign_of_absent k v ((j, w) ∷ m) h = ground (arith, assign_of_absent k v m)

  pub entries-put_of_absent :
      (m : GoMap V) (k : String) (v : V)
      → get m k ≡ none
      → (put m k v).entries ≡ m.entries ++ (k, v) ∷ []
  unfolding get put
  entries-put_of_absent m k v h = assign_of_absent k v m.entries h

pub get-empty {ℓ} : {V : Type ℓ} (k : String) → get (empty {V = V}) k ≡ none
unfolding get empty
get-empty k = refl

pub ruleset map_laws = (get-empty, get-put, get-delete, get-delete_where)
