-- ===== src/Tenant/Laws.antt =====
-- The registry finds every tenant under its own id, and ids are unique.
use mathlib.Core.Path.{subst}
use mathlib.Core.Option.{some-injective}
use corncrake.Prelude.{
  ◌≡◌, refl, ◌≢◌, ◌↔◌, inl, inr, sym, ap, ◌∙◌, String, Bool, Option, none, some, List, [], ◌∷◌,
  ◌==◌, eq_iff, arith, All, if◌then◌else◌, first, Option-cases, Bool-cases,
}
use corncrake.GoMap
use corncrake.GoMap.{map_laws}
use corncrake.Tenant.{Tenant, Registry, new_registry, register, lookup, register_all}

abbrev pub has_id : String → Tenant → Bool
has_id id t = t.id == id

abbrev pub AreDistinct : List Tenant → Type 0
AreDistinct [] = Unit
AreDistinct (t ∷ ts) = All (λ u. u.id ≢ t.id) ts × AreDistinct ts

-- No tenant of the list has an id that is taken.
abbrev AreFree : Registry → List Tenant → Type 0
AreFree registry ts = All (λ t. lookup t.id registry ≡ none) ts

abbrev or_else : Option Tenant → Option Tenant → Option Tenant
or_else none o = o
or_else (some t) o = some t

register_free :
    (t : Tenant) (registry : Registry)
    → lookup t.id registry ≡ none
    → register t registry ≡ some (GoMap.put registry t.id t)
unfolding register lookup
register_free t registry e = rw e refl

register_taken :
    (t other : Tenant) (registry : Registry)
    → lookup t.id registry ≡ some other
    → register t registry ≡ none
unfolding register lookup
register_taken t other registry e = rw e refl

lookup-put :
    (t : Tenant) (registry : Registry) (id : String)
    → lookup id (GoMap.put registry t.id t) ≡ (if t.id == id then some t else lookup id registry)
unfolding lookup
lookup-put t registry id = GoMap.get-put registry t.id id t

-- What is free once `t` is registered was free before, and has another id.
free_before :
    (t : Tenant) (registry : Registry) (ts : List Tenant)
    → AreFree (GoMap.put registry t.id t) ts
    → AreFree registry ts × All (λ u. u.id ≢ t.id) ts
free_before t registry [] free = (tt, tt)
free_before t registry (u ∷ us) (e, free) =
    let (fs, ns) = free_before t registry us free in
    let put = lookup-put t registry u.id in
    (
      (ground (arith, put, eq_iff t.id u.id), fs),
      ((λ same. ground (arith, put, eq_iff t.id u.id)), ns),
    )

free_after :
    (t : Tenant) (registry : Registry) (ts : List Tenant)
    → AreFree registry ts
    → All (λ u. u.id ≢ t.id) ts
    → AreFree (GoMap.put registry t.id t) ts
free_after t registry [] free ne = tt
free_after t registry (u ∷ us) (e, free) (n, ne) =
    (ground (arith, lookup-put t registry u.id, eq_iff t.id u.id), free_after t registry us free ne)

first_of_absent :
    (id : String) (ts : List Tenant) → All (λ u. u.id ≢ id) ts → first (has_id id) ts ≡ none
first_of_absent id [] ne = refl
first_of_absent id (u ∷ us) (n, ne) = ground (arith, first_of_absent id us ne, eq_iff u.id id)

or_else-put :
    (t : Tenant) (registry : Registry) (ts : List Tenant) (id : String)
    → All (λ u. u.id ≢ t.id) ts
    → or_else (first (has_id id) ts) (lookup id (GoMap.put registry t.id t))
      ≡ or_else (first (has_id id) (t ∷ ts)) (lookup id registry)
or_else-put t registry ts id ne = elim (Bool-cases (t.id == id)) [
  | inl e ↦
      let absent =
        first_of_absent id ts (subst (λ k. All (λ u. u.id ≢ k) ts) ((eq_iff t.id id).0 e) ne) in
      rw (lookup-put t registry id, e, absent) refl
  | inr e ↦ rw (lookup-put t registry id, e) refl
]

or_else-empty : (o : Option Tenant) (id : String) → or_else o (lookup id new_registry) ≡ o
unfolding lookup
or_else-empty none id = GoMap.get-empty id
or_else-empty (some t) id = refl

registered :
    (ts : List Tenant) (registry next : Registry)
    → register_all ts registry ≡ some next
    → AreFree registry ts
      × AreDistinct ts
      × ((id : String) → lookup id next ≡ or_else (first (has_id id) ts) (lookup id registry))
unfolding register_all
registered [] registry next e = (tt, tt, (λ id. ap (lookup id) (sym (some-injective _ _ e))))
registered (t ∷ ts) registry next e = elim (Option-cases (lookup t.id registry)) [
  | inl free ↦
      let (fs, ds, found) =
        registered ts (GoMap.put registry t.id t) next
          (rw (register_free t registry free, register_all) at e) in
      let (fs', ns) = free_before t registry ts fs in
      ((free, fs'), (ns, ds), λ id. found id ∙ or_else-put t registry ts id ns)
  | inr (other, taken) ↦ cc (rw (register_taken t other registry taken, register_all) at e)
]

register_all-ne-none :
    (ts : List Tenant) (registry : Registry)
    → AreFree registry ts
    → AreDistinct ts
    → (next : Registry) × (register_all ts registry ≡ some next)
unfolding register_all
register_all-ne-none [] registry free distinct = (registry, refl)
register_all-ne-none (t ∷ ts) registry (f, free) (n, distinct) =
    let (next, e) =
      register_all-ne-none ts (GoMap.put registry t.id t) (free_after t registry ts free n)
        distinct in
    (next, rw (register_free t registry f, register_all) e)

all_free : (ts : List Tenant) → AreFree new_registry ts
unfolding lookup
all_free [] = tt
all_free (t ∷ ts) = (GoMap.get-empty t.id, all_free ts)

-- Registering a list of tenants panics unless their ids are distinct; then each of them, and no other,
-- is found under its id.
pub register_all_lem :
    (ts : List Tenant)
    → (((next : Registry) × (register_all ts new_registry ≡ some next)) ↔ AreDistinct ts)
      × ((next : Registry) (id : String)
          → register_all ts new_registry ≡ some next
          → lookup id next ≡ first (has_id id) ts)
register_all_lem ts = (
  (
    (λ (next, e). (registered ts new_registry next e).1),
    (λ d. register_all-ne-none ts new_registry (all_free ts) d),
  ),
  λ next id e. (registered ts new_registry next e).2 id ∙ or_else-empty (first (has_id id) ts) id,
)
