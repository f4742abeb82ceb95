-- ===== src/Tenant/Tests.antt =====
-- A registry of two surveys.
use corncrake.Prelude.{◌≡◌, ◌↔◌, String, none, some, List, [], ◌∷◌, first}
use corncrake.Prelude.Int.{pos}
use corncrake.Tenant.{Tenant, Registry, new_registry, register_all, lookup}
use corncrake.Tenant.Laws.{AreDistinct, has_id, register_all_lem}

abbrev survey : String → Tenant
survey id = record {
  id = id;
  name = "A survey";
  validate_schema = λ raw. [];
  validate_logic = λ raw. ([], []);
  item_count = λ raw. pos 0;
  lookups = none;
}

abbrev surveys : List Tenant
surveys = survey "ehecs" ∷ survey "cso-surveys-b" ∷ []

register_all_lem_example :
    (((next : Registry) × (register_all surveys new_registry ≡ some next)) ↔ AreDistinct surveys)
    × ((next : Registry) (id : String)
        → register_all surveys new_registry ≡ some next
        → lookup id next ≡ first (has_id id) surveys)
register_all_lem_example = register_all_lem surveys
