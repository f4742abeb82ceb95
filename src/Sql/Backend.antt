-- ===== src/Sql/Backend.antt =====
-- The two SQL stores side by side, and the table that their databases keep.
use corncrake.Prelude.{ℕ, String, Option, none, some, List, [], ◌∷◌, ◌++◌}
use corncrake.Prelude.Int.{ℤ}
use corncrake.Text.{◌<>◌}
use corncrake.SliceSort.{SliceSort}
use corncrake.Models.{Time, SubmissionSummary}
use corncrake.Store.{SubmissionStore}
use corncrake.Sql.{
  Value, text_value, string_value, bytes_value, int_value, time_value, null_value, Database,
  WarningsJson,
}
use corncrake.Sql.Statements.{
  postgres_insert, postgres_select_one, postgres_select_run, postgres_select_list, sqlserver_insert,
  sqlserver_select_one, sqlserver_select_run, sqlserver_select_list,
}
use corncrake.Sql.Postgres.{postgres_store}
use corncrake.Sql.SqlServer.{sqlserver_store}

pub data SqlBackend : Type 0 where
  postgres sqlserver : SqlBackend

abbrev pub sql_store :
    {D : Type 0}
    → SqlBackend
    → Database D
    → SliceSort SubmissionSummary
    → WarningsJson
    → SubmissionStore D
sql_store postgres db sorter json = postgres_store db sorter json
sql_store sqlserver db sorter json = sqlserver_store db sorter json

-- A row of the table `submissions`, typed as the two migrations declare its columns. Those that may
-- be NULL are options.
pub record Row : Type 0 where
  pub submission_id : String
  pub tenant_id : String
  pub run_reference : String
  pub holding_number : String
  pub tax_year : ℤ
  pub quarter : ℤ
  pub return_type : String
  pub status : String
  pub received_at : Time
  pub software_used : Option String
  pub software_version : Option String
  pub item_count : ℤ
  pub body : List ℕ
  pub warnings : Option (List ℕ)
  pub contact_email : Option String
  pub contact_phone : Option String
  pub comments : Option String

abbrev pub null_or_text : Option String → Value
null_or_text none = null_value
null_or_text (some s) = text_value s

abbrev pub null_or_bytes : Option (List ℕ) → Value
null_or_bytes none = null_value
null_or_bytes (some bs) = bytes_value bs

-- The columns that `GetByID` selects.
abbrev pub submission_columns : Row → List Value
submission_columns r =
    text_value r.submission_id
    ∷ text_value r.tenant_id
    ∷ text_value r.run_reference
    ∷ text_value r.holding_number
    ∷ int_value r.tax_year
    ∷ int_value r.quarter
    ∷ text_value r.return_type
    ∷ text_value r.status
    ∷ time_value r.received_at
    ∷ null_or_text r.software_used
    ∷ null_or_text r.software_version
    ∷ int_value r.item_count
    ∷ bytes_value r.body
    ∷ null_or_bytes r.warnings
    ∷ null_or_text r.contact_email
    ∷ null_or_text r.contact_phone
    ∷ null_or_text r.comments
    ∷ []

-- The columns that `GetRun` and `List` select.
abbrev pub summary_columns : Row → List Value
summary_columns r =
    text_value r.submission_id
    ∷ text_value r.tenant_id
    ∷ text_value r.run_reference
    ∷ int_value r.quarter
    ∷ int_value r.tax_year
    ∷ text_value r.return_type
    ∷ text_value r.status
    ∷ time_value r.received_at
    ∷ int_value r.item_count
    ∷ []

abbrev pub insert_text : SqlBackend → String
insert_text postgres = postgres_insert
insert_text sqlserver = sqlserver_insert

abbrev pub select_one_text : SqlBackend → String
select_one_text postgres = postgres_select_one
select_one_text sqlserver = sqlserver_select_one

abbrev pub select_run_text : SqlBackend → String
select_run_text postgres = postgres_select_run
select_run_text sqlserver = sqlserver_select_run

-- How the driver is given a JSON document: as bytes, or as a string.
abbrev pub json_value : SqlBackend → List ℕ → Value
json_value postgres bs = bytes_value bs
json_value sqlserver bs = string_value bs

-- The statement of `List` for the filters that are wanted, each with its own parameter.
abbrev pub list_text : SqlBackend → Option ℤ → Option ℤ → String
list_text postgres none none = postgres_select_list <> " ORDER BY received_at DESC"
list_text postgres (some y) none =
    postgres_select_list <> " AND tax_year = $2 ORDER BY received_at DESC"
list_text postgres none (some q) =
    postgres_select_list <> " AND quarter = $2 ORDER BY received_at DESC"
list_text postgres (some y) (some q) =
    postgres_select_list <> " AND tax_year = $2 AND quarter = $3 ORDER BY received_at DESC"
list_text sqlserver none none = sqlserver_select_list <> " ORDER BY received_at DESC"
list_text sqlserver (some y) none =
    sqlserver_select_list <> " AND tax_year = @p2 ORDER BY received_at DESC"
list_text sqlserver none (some q) =
    sqlserver_select_list <> " AND quarter = @p2 ORDER BY received_at DESC"
list_text sqlserver (some y) (some q) =
    sqlserver_select_list <> " AND tax_year = @p2 AND quarter = @p3 ORDER BY received_at DESC"

abbrev pub filter_args : Option ℤ → List Value
filter_args none = []
filter_args (some v) = int_value v ∷ []

abbrev pub list_args : String → Option ℤ → Option ℤ → List Value
list_args holding tax_year quarter =
    text_value holding ∷ (filter_args tax_year ++ filter_args quarter)
