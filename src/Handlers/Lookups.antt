-- ===== src/Handlers/Lookups.antt =====
-- internal/handlers/lookups.go and health.go.
pub mod Quarters
pub mod Served
mod Tests
use corncrake.Prelude.{
  ℕ, zero, suc, ◌+◌, ◌-◌, ◌*◌, ◌/◌, ◌%◌, String, Bool, Option, none, some, List, [], ◌∷◌, length,
  ltb, if◌then◌else◌,
}
use corncrake.Prelude.Int.{ℤ, pos}
use corncrake.Text.{◌<>◌}
use corncrake.Text.Numbers.{itoa}
use corncrake.Tenant
use corncrake.Tenant.{Tenant, LookupData, LookupProvider, Registry}
use corncrake.Http.{
  Request, Response, Period, HealthReport, lookup_data, periods_data, health_data, Reply, respond,
  Checked, deny, pass, ◌>>=◌, json_data, json_with_count, json_error,
}

abbrev pub require_known : String → Option Tenant → Checked Tenant
require_known id none =
    deny (json_error 404 "UNKNOWN_TENANT" ("No tenant registered with ID: " <> id))
require_known id (some t) = pass t

abbrev pub require_provider : String → Option LookupProvider → Checked LookupProvider
require_provider id none =
    deny (json_error 404 "NO_LOOKUPS" ("Tenant " <> id <> " does not provide lookup data."))
require_provider id (some p) = pass p

abbrev pub require_found : String → String → Option (LookupData × ℤ) → Checked (LookupData × ℤ)
require_found id name none =
    deny (json_error 404 "UNKNOWN_LOOKUP" ("No lookup '" <> name <> "' for tenant " <> id))
require_found id name (some found) = pass found

unfoldable pub find_lookup : Registry → Request → Checked (LookupData × ℤ)
find_lookup registry req = do
  let id = req.url_param "tenantID"
  let name = req.url_param "lookupName"
  t ← require_known id (Tenant.lookup id registry)
  p ← require_provider id t.lookups
  require_found id name (p name req.query)

abbrev pub answer_lookup : Checked (LookupData × ℤ) → Reply
answer_lookup (deny r) = respond r
answer_lookup (pass (data_, count)) = respond (json_with_count 200 (lookup_data data_) count)

abbrev pub get_lookup : Registry → Request → Reply
get_lookup registry req = answer_lookup (find_lookup registry req)

-- `Format` of a year, and of a month.
abbrev pub four_digits : ℕ → String
four_digits n =
    if ltb n 10
    then "000" <> itoa n
    else if ltb n 100
    then "00" <> itoa n
    else if ltb n 1000
    then "0" <> itoa n
    else itoa n

abbrev pub two_digits : ℕ → String
two_digits n = if ltb n 10 then "0" <> itoa n else itoa n

-- `time.Date(y, time.Month(month), 14, …)` in its format: a month past December is of a later year.
abbrev pub date_of : ℕ → ℕ → String
date_of y month =
    four_digits (y + (month - 1) / 12) <> "-" <> two_digits ((month - 1) % 12 + 1) <> "-14"

abbrev pub period : ℕ → ℕ → Period
period y q = record {
  tax_year = y;
  quarter = q;
  label = "Q" <> itoa q <> " " <> itoa y;
  deadline = date_of y (q * 3 + 1);
  status = "OPEN";
}

-- The loop of `GetPeriods`, with so many rounds left. The year is one of the common era.
unfoldable pub period_loop : ℕ → ℕ → ℕ → List Period
period_loop zero y q = []
period_loop (suc rounds) y q =
    let earlier = period_loop rounds (y - 1) 4 in
    let same_year = period_loop rounds y (q - 1) in
    period y q ∷ (if ltb (q - 1) 1 then earlier else same_year)

-- `year` and `month` are the server's, of `time.Now()`.
unfoldable pub get_periods : ℕ → ℕ → Reply
get_periods year month =
    let periods = period_loop 5 year ((month - 1) / 3 + 1) in
    respond (json_with_count 200 (periods_data periods) (pos (length periods)))

-- `timestamp` is the time in the format RFC 3339.
abbrev pub health : String → Reply
health timestamp = respond (
    json_data 200 (
      health_data (record {
        service = "Corncrake Submission API";
        version = "1.0.0";
        timestamp = timestamp;
      })))
