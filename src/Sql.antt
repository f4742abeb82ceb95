-- ===== src/Sql.antt =====
-- What internal/services/stores.go uses of database/sql, and what its two stores share of `Create` and
-- of their constructors.
-- A database is a state with the two calls on it; the statements are texts, with their arguments.
pub mod Scan
pub mod Statements
pub mod Postgres
pub mod SqlServer
pub mod Backend
pub mod Executes
pub mod Holds
pub mod Calls
pub mod Insertion
pub mod Loops
pub mod Totals
pub mod Answers
pub mod Runs
pub mod Agreement
pub mod Outage
pub mod Table
mod Tests
use corncrake.Prelude.{
  ℕ, String, Bool, true, false, not, ◌&&◌, Option, none, some, List, [], ◌∷◌, ◌++◌, eqb, length,
  if◌then◌else◌,
}
use corncrake.Prelude.Int.{ℤ, add_int}
use corncrake.Text.{◌<>◌}
use corncrake.SliceSort.{SliceSort}
use corncrake.Models.{Time, ValidationItem, SubmissionRecord, SubmissionSummary, RunStatus}
use corncrake.Store.{Error, not_found, Result, ok, err, panic, CreateParams, CreateResult}
use corncrake.Store.Memory.{empty_run, newer, fresh_result}

-- A value, or the text of an error.
pub data Attempt (A : Type 0) : Type 0 where
  done : A → Attempt A
  failed : String → Attempt A

infixl 5 ◌>>=◌
abbrev pub ◌>>=◌ : {A B : Type 0} → Attempt A → (A → Attempt B) → Attempt B
failed e >>= f = failed e
done a >>= f = f a

-- An argument of a statement, or a column of a row; `string_value` is a string given by its bytes.
pub data Value : Type 0 where
  text_value : String → Value
  string_value bytes_value : List ℕ → Value
  int_value : ℤ → Value
  time_value : Time → Value
  null_value : Value

-- The rows that `Next` goes through, and what `Err` says behind them.
pub data Rows : Type 0 where
  rows : List (List Value) → Option String → Rows

-- `Exec`, which may change the database, and `Query`.
pub record Database (D : Type 0) : Type 0 where
  pub exec : String → List Value → D → Attempt (Unit {0}) × D
  pub query : String → List Value → D → Attempt Rows

-- `json.Marshal` and `json.Unmarshal` of the warnings.
pub record WarningsJson : Type 0 where
  pub marshal : List ValidationItem → Attempt (List ℕ)
  pub unmarshal : List ℕ → Attempt (List ValidationItem)

-- The arguments of an insertion, with the body and the warnings as the driver takes them.
abbrev pub insert_args : Time → CreateParams → Value → Value → List Value
insert_args received_at p body warnings =
    text_value p.submission_id
    ∷ text_value p.tenant_id
    ∷ text_value p.run_reference
    ∷ text_value p.holding_number
    ∷ int_value p.tax_year
    ∷ int_value p.quarter
    ∷ text_value p.return_type
    ∷ time_value received_at
    ∷ text_value p.client.software_used
    ∷ text_value p.client.software_version
    ∷ int_value p.item_count
    ∷ body
    ∷ warnings
    ∷ text_value p.contact_email
    ∷ text_value p.contact_phone
    ∷ text_value p.comments
    ∷ []

-- What `Create` returns after its `Exec`.
abbrev pub inserted :
    {D : Type 0} → Time → CreateParams → Attempt (Unit {0}) × D → Result CreateResult × D
inserted received_at p (failed e, d) = (err (Error.failed ("insert submission: " <> e)), d)
inserted received_at p (done u, d) = (ok (fresh_result received_at p), d)

-- What a constructor returns after its migration.
abbrev pub migrated : {D : Type 0} → Attempt (Unit {0}) × D → Attempt D
migrated (failed e, d) = failed ("migrate: " <> e)
migrated (done u, d) = done d
