-- ===== src/Tenant.antt =====
-- internal/tenant/tenant.go: the interface of a survey and the registry of surveys.
pub mod Laws
mod Tests
use corncrake.Prelude.{ℕ, String, Bool, true, false, Option, none, some, List, [], ◌∷◌, map}
use corncrake.Prelude.Int.{ℤ}
use corncrake.GoMap
use corncrake.GoMap.{GoMap}
use corncrake.SliceSort.{RangeOrder}
use corncrake.Models.{RawMessage, ValidationItem}
use corncrake.Ehecs.Codes.{OccupationCode, SchemaVersion}

-- What a lookup returns as `any`, for the tenants of the repository.
pub data LookupData : Type 0 where
  codes_data : List OccupationCode → LookupData
  version_data : SchemaVersion → LookupData

-- `Lookup(name, r)`, with `r.URL.Query().Get` for the request; `none` is `ok == false`.
abbrev pub LookupProvider : Type 0
LookupProvider = String → (String → String) → Option (LookupData × ℤ)

-- `lookups` is the optional interface `LookupProvider`.
pub record Tenant : Type 0 where
  pub id : String
  pub name : String
  pub validate_schema : RawMessage → List ValidationItem
  pub validate_logic : RawMessage → List ValidationItem × List ValidationItem
  pub item_count : RawMessage → ℤ
  pub lookups : Option LookupProvider

abbrev pub Registry : Type 0
Registry = GoMap Tenant

abbrev pub new_registry : Registry
new_registry = GoMap.empty

abbrev pub register_after : Option Tenant → Tenant → Registry → Option Registry
register_after none t registry = some (GoMap.put registry t.id t)
register_after (some other) t registry = none

-- `none` is the panic on a duplicate id.
unfoldable pub register : Tenant → Registry → Option Registry
register t registry = register_after (GoMap.get registry t.id) t registry

unfoldable pub lookup : String → Registry → Option Tenant
lookup id registry = GoMap.get registry id

-- `All`, in whatever order the map is visited.
unfoldable pub all_tenants : RangeOrder (String × Tenant) → Registry → List Tenant
all_tenants order registry = map (λ e. e.1) (order.visit registry.entries)

-- The calls of `Register` from the `init` functions, in some order.
unfoldable pub register_all : List Tenant → Registry → Option Registry
register_all [] registry = some registry
register_all (t ∷ ts) registry = elim (register t registry) [
  | none ↦ none
  | some next ↦ register_all ts next
]
