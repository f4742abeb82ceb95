-- ===== src/Models.antt =====
-- internal/models/models.go, and the parameter and result types of internal/services/store.go.
-- Times are nanoseconds on the server's clock; a request body is its bytes.
use corncrake.Prelude.{ℕ, String, List}
use corncrake.Prelude.Int.{ℤ}

abbrev pub Time : Type 0
Time = ℕ

abbrev pub RawMessage : Type 0
RawMessage = List ℕ

-- `type ReturnType string`: any text that a body carries.
abbrev pub ReturnType : Type 0
ReturnType = String

abbrev pub return_type_original : ReturnType
return_type_original = "ORIGINAL"

abbrev pub return_type_amended : ReturnType
return_type_amended = "AMENDED"

pub record ValidationItem : Type 0 where
  pub code : String
  pub field : String
  pub message : String

pub record SubmissionRecord : Type 0 where
  pub submission_id : String
  pub tenant_id : String
  pub run_reference : String
  pub holding_number : String
  pub tax_year : ℤ
  pub quarter : ℤ
  pub return_type : ReturnType
  pub status : String
  pub received_at : Time
  pub software_used : String
  pub software_version : String
  pub item_count : ℤ
  pub body : RawMessage
  pub warnings : List ValidationItem
  pub contact_email : String
  pub contact_phone : String
  pub comments : String

pub record SubmissionSummary : Type 0 where
  pub submission_id : String
  pub tenant_id : String
  pub run_reference : String
  pub quarter : ℤ
  pub tax_year : ℤ
  pub return_type : ReturnType
  pub status : String
  pub received_at : Time
  pub item_count : ℤ

pub record RunStatus : Type 0 where
  pub run_reference : String
  pub total_submissions : ℕ
  pub total_items : ℤ
  pub submissions : List SubmissionSummary

pub record ClientIdentity : Type 0 where
  pub holding_number : String
  pub software_used : String
  pub software_version : String
  pub agent_id : String
