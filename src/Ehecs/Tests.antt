-- ===== src/Ehecs/Tests.antt =====
-- The validators, the lookups and the PPS pattern on concrete input.
use corncrake.Prelude.{ℕ, ◌≡◌, refl, ◌↔◌, String, Bool, true, some, [], map, length, keep, All}
use corncrake.Prelude.Int.{pos}
use corncrake.Text.{codes, is_blank, is_space}
use corncrake.Tenant.{codes_data}
use corncrake.Ehecs.Types.{SubmissionBody, decoded}
use corncrake.Ehecs.Ppsn.{match_ppsn, match_ppsn_iff, IsPpsn}
use corncrake.Ehecs.Schema.{validate_schema}
use corncrake.Ehecs.Schema.Conforms.{Conforms}
use corncrake.Ehecs.Logic.{validate_logic}
use corncrake.Ehecs.Logic.Rules.{MeetsRules, validators_iff}
use corncrake.Ehecs.Codes.{occupation_codes, OccupationCode}
use corncrake.Ehecs.Lookups.{lookup, is_found}
use corncrake.Ehecs.Lookups.Search.{is_found-IsWanted, lookup-codes}
use corncrake.Samples.{runtime, runtime-IsTotal, unmarshal, body}

body-valid : validate_schema runtime body ≡ []
unfolding validate_schema is_blank is_space match_ppsn
body-valid = refl

body-obeys : (validate_logic runtime body).0 ≡ []
unfolding validate_logic
body-obeys = refl

match_ppsn_iff_example : (match_ppsn "1234567TW" ≡ true) ↔ IsPpsn 7 (codes "1234567TW")
match_ppsn_iff_example = match_ppsn_iff "1234567TW"

validators_iff_example :
    (b : SubmissionBody ℕ) × (unmarshal body ≡ decoded b)
    × Conforms runtime b
    × All (MeetsRules runtime) b.employees
validators_iff_example = (validators_iff runtime runtime-IsTotal body).0 (body-valid, body-obeys)

abbrev same : ℕ → ℕ
same c = c

abbrev query : String → String
query key = "Trades"

abbrev trades : OccupationCode → Bool
trades = is_found same (map same (codes (query "search")))

lookup-codes_example :
    lookup same "occupation-codes" query
    ≡ some (codes_data (keep trades occupation_codes), pos (length (keep trades occupation_codes)))
lookup-codes_example = lookup-codes same query trades (λ c. is_found-IsWanted same _ _ c)
