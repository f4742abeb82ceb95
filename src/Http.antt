-- ===== src/Http.antt =====
-- A request as the handlers and the middleware read it, and a response as they write it
-- (internal/handlers/respond.go, `APIResponse` of internal/models/models.go, `writeErrJSON` of
-- internal/middleware/auth.go). The encoding to JSON and the header fields are net/http's.
pub mod Checks
use corncrake.Prelude.{Bool, true, false, ℕ, String, Option, none, some, List, [], ◌∷◌}
use corncrake.Prelude.Int.{ℤ, pos}
use corncrake.Models.{
  RawMessage, ValidationItem, SubmissionRecord, SubmissionSummary, RunStatus, ClientIdentity,
}
use corncrake.Store.{CreateResult}
use corncrake.Tenant.{LookupData}

-- `io.ReadAll(r.Body)`
pub data BodyRead : Type 0 where
  read : RawMessage → BodyRead
  read_failed : String → BodyRead

-- `header` and `query` are `Get`, which gives "" for a missing name; `url_param` is chi's, for the
-- route that was matched. `client` is the value that `Authenticate` puts into the context.
pub record Request : Type 0 where
  pub method : String
  pub path : String
  pub remote_addr : String
  pub header : String → String
  pub query : String → String
  pub url_param : String → String
  pub body : BodyRead
  pub client : Option ClientIdentity

pub record Period : Type 0 where
  pub tax_year : ℕ
  pub quarter : ℕ
  pub label : String
  pub deadline : String
  pub status : String

pub record HealthReport : Type 0 where
  pub service : String
  pub version : String
  pub timestamp : String

-- What the handlers hand over as `any`.
pub data Payload : Type 0 where
  nothing : Payload
  result_data : CreateResult → Payload
  record_data : SubmissionRecord → Payload
  run_data : RunStatus → Payload
  list_data : List SubmissionSummary → Payload
  lookup_data : LookupData → Payload
  periods_data : List Period → Payload
  health_data : HealthReport → Payload

pub record ApiResponse : Type 0 where
  pub status : ℕ
  pub payload : Payload
  pub count : ℤ
  pub errors : List ValidationItem
  pub warnings : List ValidationItem

-- `json status body`, or the plain text of `http.Error`.
pub data Response : Type 0 where
  json : ℕ → ApiResponse → Response
  text : ℕ → String → Response

abbrev pub status_of : Response → ℕ
status_of (json status body) = status
status_of (text status body) = status

abbrev pub json_with_count : ℕ → Payload → ℤ → Response
json_with_count status payload count =
    json status
      (record { status = status; payload = payload; count = count; errors = []; warnings = [] })

abbrev pub json_data : ℕ → Payload → Response
json_data status payload = json_with_count status payload (pos 0)

abbrev pub json_errors : ℕ → List ValidationItem → List ValidationItem → Response
json_errors status errors warnings = json status (record {
  status = status;
  payload = nothing;
  count = pos 0;
  errors = errors;
  warnings = warnings;
})

-- `JSONError`
abbrev pub json_error : ℕ → String → String → Response
json_error status code message =
    json_errors status (record { code = code; field = ""; message = message } ∷ []) []

-- `writeErrJSON`, whose `errBody` has the fields of `APIResponse` that are not empty.
abbrev pub write_err_json : ℕ → String → String → Response
write_err_json status code message = json status (record {
  status = status;
  payload = nothing;
  count = pos 0;
  errors = record { code = code; field = ""; message = message } ∷ [];
  warnings = [];
})

abbrev pub client_from_context : Request → ClientIdentity
client_from_context req = elim req.client [
  | some c ↦ c
  | none ↦ record { holding_number = ""; software_used = ""; software_version = ""; agent_id = "" }
]

-- What a handler does: it answers, or a run-time panic ends it.
pub data Reply : Type 0 where
  respond : Response → Reply
  crash : Reply

-- A check that may answer at once: an early `return` of a handler.
pub data Checked {ℓ} (A : Type ℓ) : Type ℓ where
  deny : Response → Checked A
  pass : A → Checked A

infixl 5 ◌>>=◌ ◌>>◌
abbrev pub ◌>>=◌ {ℓ κ} : {A : Type ℓ} {B : Type κ} → Checked A → (A → Checked B) → Checked B
deny r >>= f = deny r
pass a >>= f = f a

abbrev pub ◌>>◌ {ℓ} : {B : Type ℓ} → Checked (Unit {0}) → Checked B → Checked B
m >> k = m >>= λ _. k

-- An early return unless the test holds.
abbrev pub unless : Bool → Response → Checked (Unit {0})
unless true r = pass tt
unless false r = deny r
