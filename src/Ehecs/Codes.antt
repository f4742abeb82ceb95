-- ===== src/Ehecs/Codes.antt =====
-- The reference data of internal/tenants/ehecs/lookups.go.
use corncrake.Prelude.{ℕ, String, List, [], ◌∷◌}
use corncrake.Prelude.Int.{ℤ, pos}

pub record OccupationCode : Type 0 where
  pub code : ℤ
  pub label : String
  pub nace_examples : List String

pub record SchemaVersion : Type 0 where
  pub version : String
  pub xml_namespace : String
  pub specification_url : String

abbrev entry : ℕ → String → List String → OccupationCode
entry code label examples = record { code = pos code; label = label; nace_examples = examples }

abbrev pub occupation_codes : List OccupationCode
occupation_codes =
    entry 1 "Managers, Directors & Senior Officials" ("M" ∷ "K" ∷ "O" ∷ [])
    ∷ entry 2 "Professional Occupations" ("P" ∷ "Q" ∷ "M" ∷ [])
    ∷ entry 3 "Associate Professional & Technical" ("J" ∷ "M" ∷ "K" ∷ [])
    ∷ entry 4 "Administrative & Secretarial" ("O" ∷ "K" ∷ "N" ∷ [])
    ∷ entry 5 "Skilled Trades Occupations" ("C" ∷ "F" ∷ "G" ∷ [])
    ∷ entry 6 "Caring, Leisure & Service" ("Q" ∷ "I" ∷ "R" ∷ [])
    ∷ entry 7 "Sales & Customer Service" ("G" ∷ "I" ∷ "N" ∷ [])
    ∷ entry 8 "Process, Plant & Machine Operatives" ("C" ∷ "F" ∷ "H" ∷ [])
    ∷ entry 9 "Elementary Occupations" ("I" ∷ "N" ∷ "H" ∷ [])
    ∷ []

abbrev pub schema_version : SchemaVersion
schema_version = record {
  version = "5.0.0";
  xml_namespace = "http://www.cso.ie/ehecs/schema/v5";
  specification_url =
      "https://www.cso.ie/en/methods/earnings/earningsmethodologicaltechnicaldocuments";
}
