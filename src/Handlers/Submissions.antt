-- ===== src/Handlers/Submissions.antt =====
-- internal/handlers/submissions.go, over any `SubmissionStore`.
pub mod Create
pub mod Access
pub mod Outage
pub mod Database
mod Tests
use corncrake.Prelude.{
  ℕ, String, Bool, true, false, not, ◌||◌, Option, none, some, List, [], ◌∷◌, ◌==◌, is_empty,
  length, if◌then◌else◌,
}
use corncrake.Prelude.Int.{ℤ, pos}
use corncrake.Text.{◌<>◌}
use corncrake.Text.Numbers.{must_int}
use corncrake.Models.{
  Time, RawMessage, ReturnType, ValidationItem, SubmissionRecord, SubmissionSummary, RunStatus,
}
use corncrake.Store.{Result, ok, err, panic, CreateParams, CreateResult, SubmissionStore}
use corncrake.Tenant
use corncrake.Tenant.{Tenant, Registry}
use corncrake.Http.{
  Request, BodyRead, read, read_failed, Response, Reply, respond, crash, Checked, deny, pass, ◌>>=◌,
  ◌>>◌, unless, result_data, record_data, run_data, list_data, json_data, json_with_count,
  json_errors, json_error, client_from_context,
}

pub record SubmissionMeta : Type 0 where
  pub holding_number : String
  pub return_type : ReturnType
  pub contact_email : String
  pub contact_phone : String
  pub comments : String

abbrev pub require_tenant : String → Option Tenant → Checked Tenant
require_tenant id none =
    deny (json_error 404 "UNKNOWN_TENANT" ("No survey type registered for tenantID: " <> id))
require_tenant id (some t) = pass t

abbrev pub require_body : BodyRead → Checked RawMessage
require_body (read_failed e) =
    deny (json_error 400 "INVALID_JSON" ("Failed to read request body: " <> e))
require_body (read raw) = pass raw

-- The parameters that `Create` hands to the store, for a body that its tenant accepts.
abbrev pub params_of : (RawMessage → SubmissionMeta) → Request → Tenant → RawMessage → CreateParams
params_of unmarshal_meta req t raw = record {
  tenant_id = req.url_param "tenantID";
  submission_id = req.url_param "submissionId";
  run_reference = req.url_param "runReference";
  holding_number = req.url_param "holdingNumber";
  tax_year = must_int (req.url_param "taxYear");
  quarter = must_int (req.url_param "quarter");
  return_type = (unmarshal_meta raw).return_type;
  body = raw;
  item_count = t.item_count raw;
  warnings = (t.validate_logic raw).1;
  client = client_from_context req;
  contact_email = (unmarshal_meta raw).contact_email;
  contact_phone = (unmarshal_meta raw).contact_phone;
  comments = (unmarshal_meta raw).comments;
}

-- `unmarshal_meta` is `json.Unmarshal` into `submissionMeta`, whose error is dropped.
module _ (registry : Registry) (unmarshal_meta : RawMessage → SubmissionMeta) where
  -- `Create` up to the call of the store.
  unfoldable pub prepare : Request → Checked CreateParams
  prepare req = do
    let tenant_id = req.url_param "tenantID"
    unless (req.url_param "holdingNumber" == (client_from_context req).holding_number) (
        json_error 403 "FORBIDDEN"
          "Holding number in path does not match authenticated client credentials.")
    t ← require_tenant tenant_id (Tenant.lookup tenant_id registry)
    raw ← require_body req.body
    unless (is_empty (t.validate_schema raw)) (json_errors 400 (t.validate_schema raw) [])
    unless (is_empty (t.validate_logic raw).0)
        (json_errors 422 (t.validate_logic raw).0 (t.validate_logic raw).1)
    pass (params_of unmarshal_meta req t raw)

abbrev pub created : Result CreateResult → Reply
created (ok result) = respond (json_data 201 (result_data result))
created (err e) = respond (json_error 500 "INTERNAL_ERROR" "An unexpected error occurred.")
created panic = crash

abbrev pub query_int : Request → String → ℤ
query_int req key = if req.query key == "" then pos 0 else must_int (req.query key)

module _ {S : Type 0} (store : SubmissionStore S) where
  -- The call of the store, and the answer to it.
  abbrev pub persist : Time → Checked CreateParams → S → Reply × S
  persist now (deny r) s = (respond r, s)
  persist now (pass p) s = let (result, s') = store.create now p s in (created result, s')

  unfoldable pub create : Registry → (RawMessage → SubmissionMeta) → Time → Request → S → Reply × S
  create registry unmarshal_meta now req s = persist now (prepare registry unmarshal_meta req) s

  abbrev pub answer_submission : Request → Result SubmissionRecord → Reply
  answer_submission req panic = crash
  answer_submission req (err e) =
      respond (
        json_error 404 "NOT_FOUND" ("Submission " <> req.url_param "submissionId" <> " not found."))
  answer_submission req (ok r) =
      if not (r.holding_number == req.url_param "holdingNumber")
        || not (r.holding_number == (client_from_context req).holding_number)
      then respond (json_error 403 "FORBIDDEN" "Access denied to this submission.")
      else respond (json_data 200 (record_data r))

  unfoldable pub get_submission : Request → S → Reply
  get_submission req s = answer_submission req (store.get_by_id (req.url_param "submissionId") s)

  abbrev pub answer_run : Request → Result RunStatus → Reply
  answer_run req panic = crash
  answer_run req (err e) = respond (
      json_error 404 "NOT_FOUND"
        ("Run reference " <> req.url_param "runReference" <> " not found."))
  answer_run req (ok run) = respond (json_data 200 (run_data run))

  unfoldable pub get_run : Request → S → Reply
  get_run req s = answer_run req (store.get_run (req.url_param "runReference") s)

  -- The error of `List` is dropped, with its nil slice.
  abbrev pub answer_list : Result (List SubmissionSummary) → Reply
  answer_list panic = crash
  answer_list (err e) = respond (json_with_count 200 (list_data []) (pos 0))
  answer_list (ok rs) = respond (json_with_count 200 (list_data rs) (pos (length rs)))

  unfoldable pub list_submissions : Request → S → Reply
  list_submissions req s =
      let holding_number = req.url_param "holdingNumber" in
      if not (holding_number == (client_from_context req).holding_number)
      then respond (json_error 403 "FORBIDDEN" "Access denied to this holding number.")
      else answer_list
          (store.list holding_number (query_int req "taxYear") (query_int req "quarter") s)
