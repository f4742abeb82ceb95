-- ===== src/Server/Trace/Tests.antt =====
-- A server that has taken a submission and is asked for it.
use corncrake.Prelude.{ℕ, ◌≡◌, refl, false, All, ◌==◌, if◌then◌else◌}
use corncrake.GoMap
use corncrake.SliceSort.Insertion.{sort_by_insertion, entry_order}
use corncrake.Models.{SubmissionRecord}
use corncrake.Store.Memory
use corncrake.Store.Memory.{MemoryStore, new_record}
use corncrake.Store.Memory.Represents.{Represents}
use corncrake.Store.Ledger.{Ledger}
use corncrake.Text.{is_blank, is_space}
use corncrake.Text.Numbers.{must_int}
use corncrake.Tenant
use corncrake.RateLimit.{allow}
use corncrake.RateLimit.Limit.{limit}
use corncrake.Revocation.{is_revoked}
use corncrake.Auth.{string_claim, authenticate, require_software_params}
use corncrake.Auth.Admission.{Admits, SignedByKey}
use corncrake.Ehecs.Schema.{validate_schema, item_count}
use corncrake.Ehecs.Logic.{validate_logic}
use corncrake.Ehecs.Ppsn.{match_ppsn}
use corncrake.Http.{Request, Response, respond, record_data, json_data}
use corncrake.Handlers.Submissions.{prepare, create, get_submission}
use corncrake.Server.{
  Routed, routed, create_endpoint, submission_endpoint, run_endpoint, Config, State, auth_config,
  enforce_https, dispatch, serve,
}
use corncrake.Server.Trace.{Reachable, started, served}
use corncrake.Server.Kept.{IsSubmitted}
use corncrake.Server.Backends.{Reachable-IsSubmitted}
use corncrake.Server.Shown.{shown-IsSubmitted}
use corncrake.Server.Answering.{always_answers}
use corncrake.Server.Unrevoked.{never_revoked}
use corncrake.Server.Tests.{clock, config, state, signed_request}
use corncrake.Samples.{url_param, jwt_at, jwt_at-Verifies, stored}

-- `POST` is routed to `Create`, everything else to `GetSubmission`.
abbrev pub by_method : Request → Routed
by_method req =
    if req.method == "POST"
    then routed create_endpoint url_param
    else routed submission_endpoint url_param

abbrev server : Config MemoryStore ℕ
server = record (config create_endpoint) { route = by_method }

abbrev after_create : State MemoryStore
after_create = (serve server clock signed_request state).1

after_create-Reachable : Reachable server state after_create
after_create-Reachable = served clock signed_request started

Reachable-IsSubmitted_example :
    (log : Ledger) × Represents after_create.submissions log
    × All (IsSubmitted server jwt_at-Verifies state Represents new_record after_create) log
Reachable-IsSubmitted_example =
    Reachable-IsSubmitted sort_by_insertion entry_order server jwt_at-Verifies state refl refl
      after_create-Reachable

always_answers_example :
    (r : Response) × ((dispatch server run_endpoint clock signed_request after_create.submissions).0
      ≡ respond r)
always_answers_example =
    always_answers sort_by_insertion entry_order server jwt_at-Verifies state run_endpoint clock
      signed_request refl refl after_create-Reachable

never_revoked_example : is_revoked "j1" after_create.revoked ≡ false
never_revoked_example = never_revoked server "j1" refl after_create-Reachable

abbrev pub get_request : Request
get_request = record signed_request { method = "GET" }

-- The software is read from the query.
abbrev pub shown_record : SubmissionRecord
shown_record = record stored { received_at = 6; software_used = "pay"; software_version = "pay" }

record_shown :
    (serve server clock get_request after_create).0 ≡ json_data 200 (record_data shown_record)
unfolding serve enforce_https limit allow authenticate is_revoked require_software_params prepare
    create get_submission validate_schema validate_logic is_blank is_space match_ppsn must_int
    item_count Tenant.lookup Memory.create Memory.store_new Memory.get_by_id GoMap.get GoMap.put
    GoMap.empty
record_shown = refl

shown-IsSubmitted_example :
    (seen : Request) × (a : Admits
      (jwt_at 5)
      (auth_config server after_create)
      (record get_request { url_param = url_param })
      seen)
    × SignedByKey (jwt_at 5) (auth_config server after_create) (jwt_at-Verifies 5) a.token
    × ("E1" ≡ string_claim a.claims "holdingNumber")
    × IsSubmitted server jwt_at-Verifies state Represents new_record after_create shown_record
shown-IsSubmitted_example =
    shown-IsSubmitted sort_by_insertion entry_order server jwt_at-Verifies state clock get_request
      shown_record refl refl after_create-Reachable refl record_shown
