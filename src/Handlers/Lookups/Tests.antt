-- ===== src/Handlers/Lookups/Tests.antt =====
-- A lookup of the EHECS tenant, and the periods in May 2024.
use corncrake.Prelude.{◌≡◌, ◌⊎◌, map, arith, ◌==◌, if◌then◌else◌}
use corncrake.Prelude.Int.{ℤ, pos}
use corncrake.Tenant.{LookupData}
use corncrake.Http.{
  Request, Response, status_of, respond, json_with_count, lookup_data, periods_data,
}
use corncrake.Handlers.Lookups.{get_lookup, get_periods}
use corncrake.Handlers.Lookups.Quarters.{quarter_at, downwards, get_periods_lem}
use corncrake.Handlers.Lookups.Served.{Provides, get_lookup_lem}
use corncrake.Samples.{registry, request}

abbrev codes_request : Request
codes_request = record request {
  url_param = λ key. if key == "tenantID" then "ehecs" else "occupation-codes";
}

get_lookup_lem_example :
    ((found : LookupData × ℤ) × Provides registry codes_request found
      × (get_lookup registry codes_request
          ≡ respond (json_with_count 200 (lookup_data found.0) found.1)))
    ⊎ (((found : LookupData × ℤ) → ¬ Provides registry codes_request found)
        × ((r : Response) × (get_lookup registry codes_request ≡ respond r) × (status_of r ≡ 404)))
get_lookup_lem_example = get_lookup_lem registry codes_request

get_periods_lem_example :
    get_periods 2024 5
    ≡ respond (json_with_count 200 (periods_data (map quarter_at (downwards 5 8_097))) (pos 5))
get_periods_lem_example = get_periods_lem 2024 5 (omega arith) (omega arith) (omega arith)
