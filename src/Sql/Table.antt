-- ===== src/Sql/Table.antt =====
-- A database that does what the stores rely on: it keeps the rows in a list, understands the
-- statements of one of the two stores, and may be stopped. Its numbers have 32 bits: it refuses a row
-- or a filter with another. It takes every text, and its JSON knows the empty list alone.
pub mod Laws
use mathlib.Core.List.{Perm}
use corncrake.Prelude.{
  ℕ, String, ◌≡◌, refl, ◌≢◌, Bool, true, false, Option, none, some, List, [], ◌∷◌, map, ◌==◌, arith,
  keep, first, ltb, leb, ◌&&◌, ◌^◌, All, All-imp, if◌then◌else◌,
}
use corncrake.Prelude.Int.{ℤ, pos, pos_part, neg_part}
use corncrake.Models.{Time, ValidationItem}
use corncrake.SliceSort.{IsOrdered, IsStrictWeak}
use corncrake.SliceSort.Insertion.{insertion_sort, insertion_sort-perm, insertion_sort-IsOrdered}
use corncrake.Store.{CreateParams}
use corncrake.Sql.{
  Attempt, done, failed, Value, text_value, string_value, bytes_value, int_value, time_value, Rows,
  rows, Database, WarningsJson, insert_args,
}
use corncrake.Sql.Backend.{
  SqlBackend, postgres, sqlserver, Row, submission_columns, summary_columns, insert_text,
  select_one_text, select_run_text, list_text, json_value, list_args,
}
use corncrake.Sql.Executes.{
  Executes, ReadsBack, row_has_id, row_in_run, row_listed, IsDescending, insert_unless, new_row,
}
use corncrake.Sql.Statements.{postgres_migrate, sqlserver_migrate}

pub data DbServer : Type 0 where
  running : List Row → DbServer
  stopped : DbServer

abbrev pub table_of : DbServer → List Row
table_of (running table) = table
table_of stopped = []

abbrev pub is_running : DbServer → Bool
is_running (running table) = true
is_running stopped = false

-- A JSON document comes as bytes or as a string.
abbrev document : Value → Option (List ℕ)
document (bytes_value bs) = some bs
document (string_value bs) = some bs
document _ = none

abbrev documents : Option (List ℕ) → Option (List ℕ) → (List ℕ → List ℕ → Row) → Option Row
documents (some body) (some warnings) f = some (f body warnings)
documents _ _ f = none

-- The row of an insertion.
abbrev row_of_args : List Value → Option Row
row_of_args
      (text_value submission_id
        ∷ text_value tenant_id
        ∷ text_value run_reference
        ∷ text_value holding_number
        ∷ int_value tax_year
        ∷ int_value quarter
        ∷ text_value return_type
        ∷ time_value received_at
        ∷ text_value software_used
        ∷ text_value software_version
        ∷ int_value item_count
        ∷ body
        ∷ warnings
        ∷ text_value contact_email
        ∷ text_value contact_phone
        ∷ text_value comments
        ∷ []) =
    documents (document body) (document warnings) (λ body warnings. record {
      submission_id = submission_id;
      tenant_id = tenant_id;
      run_reference = run_reference;
      holding_number = holding_number;
      tax_year = tax_year;
      quarter = quarter;
      return_type = return_type;
      status = "RECEIVED";
      received_at = received_at;
      software_used = some software_used;
      software_version = some software_version;
      item_count = item_count;
      body = body;
      warnings = some warnings;
      contact_email = some contact_email;
      contact_phone = some contact_phone;
      comments = some comments;
    })
row_of_args _ = none

abbrev pub same_text : String → String → Bool
same_text s t = s == t

abbrev pub fits_column : ℤ → Bool
fits_column v = ltb (pos_part v) (2 ^ 31) && leb (neg_part v) (2 ^ 31)

abbrev pub fits_filter : Option ℤ → Bool
fits_filter none = true
fits_filter (some v) = fits_column v

abbrev pub fits_row : Row → Bool
fits_row r = fits_column r.tax_year && (fits_column r.quarter && fits_column r.item_count)

abbrev insert_row : Option Row → List Row → Attempt (Unit {0}) × DbServer
insert_row none table = (failed "wrong parameters", running table)
insert_row (some r) table =
    if fits_row r
    then (
      done tt,
      running (insert_unless (first (row_has_id same_text r.submission_id) table) r table),
    )
    else (failed "integer out of range", running table)

abbrev pub newer_row : Row → Row → Bool
newer_row a b = ltb b.received_at a.received_at

abbrev pub newest_first : (Row → Bool) → List Row → Rows
newest_first p table = rows (map summary_columns (insertion_sort newer_row (keep p table))) none

abbrev migrate_text : SqlBackend → String
migrate_text postgres = postgres_migrate
migrate_text sqlserver = sqlserver_migrate

-- The filters that follow the holding number among the arguments.
abbrev with_both : List Value → (Option ℤ → Option ℤ → Attempt Rows) → Attempt Rows
with_both (int_value y ∷ int_value q ∷ []) f = f (some y) (some q)
with_both _ f = failed "wrong parameters"

abbrev with_one : List Value → (Option ℤ → Attempt Rows) → Attempt Rows
with_one (int_value v ∷ []) f = f (some v)
with_one _ f = failed "wrong parameters"

abbrev list_rows :
    SqlBackend → String → List Value → (Option ℤ → Option ℤ → Attempt Rows) → Attempt Rows
list_rows b query args f =
    if query == list_text b none none
    then f none none
    else if query == list_text b (some (pos 0)) none
    then with_one args (λ y. f y none)
    else if query == list_text b none (some (pos 0))
    then with_one args (λ q. f none q)
    else if query == list_text b (some (pos 0)) (some (pos 0))
    then with_both args f
    else failed "syntax error"

-- All statements that read have a text for the first argument.
abbrev select_rows : SqlBackend → String → List Value → List Row → Attempt Rows
select_rows b query (text_value key ∷ args) table =
    if query == select_one_text b
    then done (rows (map submission_columns (keep (row_has_id same_text key) table)) none)
    else if query == select_run_text b
    then done (newest_first (row_in_run same_text key) table)
    else list_rows b query args (λ y q.
      if fits_filter y && fits_filter q
      then done (newest_first (row_listed same_text key y q) table)
      else failed "integer out of range")
select_rows b query _ table = failed "wrong parameters"

abbrev pub db_server : SqlBackend → Database DbServer
db_server b = record {
  exec = λ query args d. elim d [
    | stopped ↦ (failed "connection refused", stopped)
    | running table ↦
        if query == insert_text b
        then insert_row (row_of_args args) table
        else if query == migrate_text b
        then (done tt, running table)
        else (failed "syntax error", running table)
  ];
  query = λ query args d. elim d [
    | stopped ↦ failed "connection refused"
    | running table ↦ select_rows b query args table
  ];
}

-- `[]` is the JSON of no warnings; there is no other.
abbrev pub no_warnings : List ValidationItem → Attempt (List ℕ)
no_warnings [] = done (b'[' ∷ b']' ∷ [])
no_warnings (w ∷ ws) = failed "json: unsupported value"

abbrev pub read_no_warnings : List ℕ → Attempt (List ValidationItem)
read_no_warnings [] = failed "unexpected end of JSON input"
read_no_warnings (b ∷ bs) = done []

abbrev pub empty_json : WarningsJson
empty_json = record { marshal = no_warnings; unmarshal = read_no_warnings }
