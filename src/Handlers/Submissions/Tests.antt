-- ===== src/Handlers/Submissions/Tests.antt =====
-- The handlers on the request of the samples, with the memory store.
use mathlib.Core.Bool.{false≢true}
use corncrake.Prelude.{◌==◌, if◌then◌else◌, ◌≡◌, refl, none, List, [], ◌∷◌, eq_iff}
use corncrake.Prelude.Int.{pos}
use corncrake.SliceSort.Insertion.{sort_by_insertion, entry_order}
use corncrake.Models.{SubmissionRecord}
use corncrake.Store.{ok, SubmissionStore}
use corncrake.Store.Memory
use corncrake.Store.Memory.{
  MemoryStore, memory_store, new_memory_store, new_record, existing_result, newer,
}
use corncrake.Store.Ledger.{run_status}
use corncrake.Store.Memory.Represents.{Represents, Represents-empty, create-accept}
use corncrake.Store.Memory.History.{get_call, after}
use corncrake.GoMap
use corncrake.Text.Numbers.{must_int}
use corncrake.Tenant
use corncrake.Tenant.{Registry}
use corncrake.Ehecs.Schema.{validate_schema, item_count}
use corncrake.Ehecs.Logic.{validate_logic}
use corncrake.Ehecs.Ppsn.{match_ppsn}
use corncrake.Ehecs.Lookups.{ehecs}
use corncrake.Text.{is_blank, is_space}
use corncrake.Http.{
  Request, pass, respond, json_data, json_error, record_data, run_data, result_data,
}
use corncrake.Handlers.Submissions.{prepare, create, get_submission, get_run}
use corncrake.Handlers.Submissions.Create.{Accepted, IsCreated, IsCreated-iff}
use corncrake.Handlers.Submissions.Access.{
  get_submission_own, run_shown_to_all, create_then_get, taken_id,
}
use corncrake.Samples.{
  client, body, params, other_params, stored, runtime, registry, unmarshal_meta, request,
}

abbrev memory : SubmissionStore MemoryStore
memory = memory_store sort_by_insertion entry_order

pub request-Accepted : Accepted registry unmarshal_meta request params
unfolding validate_schema validate_logic is_blank is_space match_ppsn Tenant.lookup GoMap.get
    GoMap.put GoMap.empty must_int item_count
request-Accepted = record {
  owner = refl;
  tenant = ehecs (λ c. c) runtime;
  registered = refl;
  raw = body;
  body = refl;
  schema = refl;
  logic = refl;
  params = refl;
}

IsCreated-iff_example :
    IsCreated registry unmarshal_meta
      (create memory registry unmarshal_meta 100 request new_memory_store).0
IsCreated-iff_example =
    (IsCreated-iff registry unmarshal_meta sort_by_insertion entry_order 100 request
        new_memory_store).1
      (params, request-Accepted)

-- A quarter in the path that is none.
abbrev quarter_9 : Request
quarter_9 = record request {
  url_param = λ key. if key == "quarter" then "9" else request.url_param key;
}

quarter_9_stored :
    prepare registry unmarshal_meta quarter_9 ≡ pass (record params { quarter = pos 9 })
unfolding prepare validate_schema validate_logic is_blank is_space match_ppsn Tenant.lookup
    GoMap.get GoMap.put GoMap.empty must_int item_count
quarter_9_stored = refl

-- The path names another holding.
abbrev foreign : Request
foreign = record request { client = none }

-- The store after one submission.
abbrev one : MemoryStore
one = (Memory.create 100 params new_memory_store).1

one-Represents : Represents one (stored ∷ [])
one-Represents = (create-accept Represents-empty 100 params).1

one-shown : get_submission memory request one ≡ respond (json_data 200 (record_data stored))
unfolding get_submission Memory.create Memory.store_new Memory.get_by_id GoMap.get GoMap.put
    GoMap.empty
one-shown = refl

get_submission_own_example :
    (memory.get_by_id "S1" one ≡ ok stored)
    × (stored.holding_number ≡ "E1")
    × (stored.holding_number ≡ client.holding_number)
get_submission_own_example = get_submission_own memory request one stored one-shown

run_shown_to_all_example :
    get_run memory foreign one ≡ respond (json_data 200 (run_data (run_status "R1" (stored ∷ []))))
run_shown_to_all_example =
    run_shown_to_all sort_by_insertion entry_order one-Represents request none stored [] refl

create_then_get_example :
    get_submission memory request (
      after
        (get_call "S2" ∷ [])
        (create memory registry unmarshal_meta 100 request new_memory_store).1)
    ≡ respond (json_data 200 (record_data stored))
create_then_get_example =
    create_then_get sort_by_insertion entry_order Represents-empty request registry unmarshal_meta
      100 params (get_call "S2" ∷ []) request request-Accepted refl refl refl refl

-- The store after the other holding has used the id.
abbrev pub other : SubmissionRecord
other = new_record 50 other_params

abbrev taken : MemoryStore
taken = (Memory.create 50 other_params new_memory_store).1

taken_id_example :
    (create memory registry unmarshal_meta 100 request taken
      ≡ (respond (json_data 201 (result_data (existing_result other))), taken))
    × (get_submission memory request taken
        ≡ respond (json_error 403 "FORBIDDEN" "Access denied to this submission."))
taken_id_example =
    taken_id sort_by_insertion entry_order (create-accept Represents-empty 50 other_params).1
      request registry unmarshal_meta 100 params other request-Accepted refl
      (λ e. false≢true ((eq_iff "E2" "E1").1 e))
