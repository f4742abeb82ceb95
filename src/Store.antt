-- ===== src/Store.antt =====
-- internal/services/store.go, its upper half: errors, the parameters and the result of `Create`, and
-- the interface `SubmissionStore` that a backend implements and the handlers use.
pub mod Memory
pub mod Ledger
pub mod Contract
use corncrake.Prelude.{ℕ, String, List}
use corncrake.Prelude.Int.{ℤ}
use corncrake.Models.{
  Time, RawMessage, ReturnType, ValidationItem, SubmissionRecord, SubmissionSummary, RunStatus,
  ClientIdentity,
}

-- `failed` carries the text of any error that is not `ErrNotFound`.
pub data Error : Type 0 where
  not_found : Error
  failed : String → Error

-- What a call returns; `panic` is a run-time panic, such as a read through a nil pointer.
pub data Result {ℓ} (A : Type ℓ) : Type ℓ where
  ok : A → Result A
  err : Error → Result A
  panic : Result A

pub record CreateParams : Type 0 where
  pub tenant_id : String
  pub submission_id : String
  pub run_reference : String
  pub holding_number : String
  pub tax_year : ℤ
  pub quarter : ℤ
  pub return_type : ReturnType
  pub body : RawMessage
  pub item_count : ℤ
  pub warnings : List ValidationItem
  pub client : ClientIdentity
  pub contact_email : String
  pub contact_phone : String
  pub comments : String

pub record CreateResult : Type 0 where
  pub submission_id : String
  pub run_reference : String
  pub status : String
  pub received_at : Time
  pub item_count : ℤ
  pub warnings : List ValidationItem

-- The operations over a backend's state `S`. `create` reads the clock once, and returns the state.
pub record SubmissionStore (S : Type 0) : Type 0 where
  pub create : Time → CreateParams → S → Result CreateResult × S
  pub get_by_id : String → S → Result SubmissionRecord
  pub get_run : String → S → Result RunStatus
  pub list : String → ℤ → ℤ → S → Result (List SubmissionSummary)
