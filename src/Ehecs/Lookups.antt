-- ===== src/Ehecs/Lookups.antt =====
-- `Lookup` of internal/tenants/ehecs/lookups.go, and the tenant as it is registered.
pub mod Search
use corncrake.Prelude.{
  ℕ, String, Bool, true, false, ◌||◌, ◌&&◌, Option, none, some, List, [], ◌∷◌, map, keep, length,
  ◌==◌, eqb, if◌then◌else◌,
}
use corncrake.Prelude.Int.{ℤ, pos}
use corncrake.Text.{codes, contains}
use corncrake.Text.Numbers.{itoa_int}
use corncrake.Tenant.{Tenant, LookupData, codes_data, version_data, LookupProvider}
use corncrake.Ehecs.Types.{Runtime}
use corncrake.Ehecs.Codes.{OccupationCode, occupation_codes, schema_version}
use corncrake.Ehecs.Schema.{validate_schema, item_count}
use corncrake.Ehecs.Logic.{validate_logic}

-- `==` on texts that are held as code points.
unfoldable pub codes_eqb : List ℕ → List ℕ → Bool
codes_eqb [] [] = true
codes_eqb (a ∷ s) (b ∷ t) = eqb a b && codes_eqb s t
codes_eqb _ _ = false

-- `lower` is `unicode.ToLower`, by which `strings.ToLower` maps a text.
module _ (lower : ℕ → ℕ) where
  unfoldable pub is_found : List ℕ → OccupationCode → Bool
  unfolding codes_eqb
  is_found search c =
      contains (map lower (codes c.label)) search || codes_eqb (codes (itoa_int c.code)) search

  abbrev pub search_codes : List ℕ → List OccupationCode
  search_codes [] = occupation_codes
  search_codes (c ∷ search) = keep (is_found (c ∷ search)) occupation_codes

  abbrev pub with_count : List OccupationCode → LookupData × ℤ
  with_count found = (codes_data found, pos (length found))

  unfoldable pub lookup : LookupProvider
  lookup name query =
      if name == "occupation-codes"
      then some (with_count (search_codes (map lower (codes (query "search")))))
      else if name == "schema-version"
      then some (version_data schema_version, pos 0)
      else none

  abbrev pub ehecs : {F : Type 0} → Runtime F → Tenant
  ehecs r = record {
    id = "ehecs";
    name = "CSO EHECS";
    validate_schema = validate_schema r;
    validate_logic = validate_logic r;
    item_count = item_count r;
    lookups = some lookup;
  }
