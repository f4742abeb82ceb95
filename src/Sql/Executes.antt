-- ===== src/Sql/Executes.antt =====
-- What the stores rely on in a database: the documented meaning of their statements on the table
-- `submissions`, while the database can be reached. How texts compare is the collation's, a parameter.
use mathlib.Core.List.{Perm}
use corncrake.Prelude.{
  ℕ, ◌≡◌, ◌≢◌, ◌⊎◌, ◌≤◌, ◌<◌, ◌^◌, String, Bool, true, ◌&&◌, Option, none, some, List, [], ◌∷◌,
  ◌++◌, map, ◌==◌, All, keep, first,
}
use corncrake.Prelude.Int.{ℤ, pos_part, neg_part, eqb_ℤ}
use corncrake.Models.{Time, ValidationItem}
use corncrake.Store.{CreateParams}
use corncrake.Sql.{done, failed, rows, text_value, Database, WarningsJson, insert_args}
use corncrake.Sql.Backend.{
  SqlBackend, Row, submission_columns, summary_columns, insert_text, select_one_text,
  select_run_text, json_value, list_text, list_args,
}

abbrev pub row_has_id : (String → String → Bool) → String → Row → Bool
row_has_id alike id r = alike r.submission_id id

abbrev pub row_in_run : (String → String → Bool) → String → Row → Bool
row_in_run alike ref r = alike r.run_reference ref

-- `AND column = parameter`, if it is there.
abbrev pub passes : Option ℤ → ℤ → Bool
passes none v = true
passes (some w) v = eqb_ℤ v w

abbrev pub row_listed : (String → String → Bool) → String → Option ℤ → Option ℤ → Row → Bool
row_listed alike holding tax_year quarter r =
    alike r.holding_number holding && (passes tax_year r.tax_year && passes quarter r.quarter)

-- The numbers of an `INTEGER` or `INT` column; a filter is compared with one.
abbrev pub FitsColumn : ℤ → Type 0
FitsColumn v = (pos_part v < 2 ^ 31) × (neg_part v ≤ 2 ^ 31)

abbrev pub IsFilter : Option ℤ → Type 0
IsFilter none = Unit
IsFilter (some v) = FitsColumn v

-- `ORDER BY received_at DESC`
abbrev pub IsDescending : List Row → Type 0
IsDescending [] = Unit
IsDescending (x ∷ xs) = All (λ y. y.received_at ≤ x.received_at) xs × IsDescending xs

-- What has its key in the list already is not inserted.
abbrev pub insert_unless : {A : Type 0} → Option A → A → List A → List A
insert_unless (some old) a present = present
insert_unless none a present = present ++ a ∷ []

-- The row of an insertion, with the time and the JSON documents as the columns keep them.
abbrev pub new_row : Time → List ℕ → CreateParams → List ℕ → Row
new_row received_at body p warnings = record {
  submission_id = p.submission_id;
  tenant_id = p.tenant_id;
  run_reference = p.run_reference;
  holding_number = p.holding_number;
  tax_year = p.tax_year;
  quarter = p.quarter;
  return_type = p.return_type;
  status = "RECEIVED";
  received_at = received_at;
  software_used = some p.client.software_used;
  software_version = some p.client.software_version;
  item_count = p.item_count;
  body = body;
  warnings = some warnings;
  contact_email = some p.contact_email;
  contact_phone = some p.contact_phone;
  comments = some p.comments;
}

module _ {D : Type 0} (db : Database D) (b : SqlBackend) where
  -- `table` lists the rows, the first inserted first. A column may keep less of a time than the
  -- clock gives (`rounded`), and a JSON document in another layout (`kept_json`). `alike` is how
  -- its collation compares texts, `IsText` what it takes for one, `Fits` what the column types
  -- admit, and `is_up` that the database answers.
  pub record Executes : Type 1 where
    pub table : D → List Row
    pub is_up : D → Bool
    pub alike : String → String → Bool
    pub IsText : String → Type 0
    pub Fits : Row → Type 0
    pub fits : (r : Row) → Fits r ⊎ ¬ Fits r
    pub texts : (r : Row) → Fits r → IsText r.submission_id × IsText r.run_reference
    pub rounded : Time → Time
    pub kept_json : List ℕ → List ℕ
    pub inserts :
        (d : D) (now : Time) (p : CreateParams) (warnings : List ℕ)
        → is_up d ≡ true
        → Fits (new_row (rounded now) (kept_json p.body) p (kept_json warnings))
        → (d' : D) × (db.exec
              (insert_text b)
              (insert_args now p (json_value b p.body) (json_value b warnings))
              d
            ≡ (done tt, d'))
          × (is_up d' ≡ true)
          × (table d'
              ≡ insert_unless
                  (first (row_has_id alike p.submission_id) (table d))
                  (new_row (rounded now) (kept_json p.body) p (kept_json warnings))
                  (table d))
    -- A row that a column cannot take is an error, and leaves the table as it was.
    pub refuses :
        (d : D) (now : Time) (p : CreateParams) (warnings : List ℕ)
        → is_up d ≡ true
        → ¬ Fits (new_row (rounded now) (kept_json p.body) p (kept_json warnings))
        → (d' : D) × (e : String) × (db.exec
              (insert_text b)
              (insert_args now p (json_value b p.body) (json_value b warnings))
              d
            ≡ (failed e, d'))
          × (is_up d' ≡ true)
          × (table d' ≡ table d)
    -- The id is the primary key, so there is no order among its rows.
    pub selects_one :
        (d : D) (id : String)
        → is_up d ≡ true
        → IsText id
        → db.query (select_one_text b) (text_value id ∷ []) d
          ≡ done (rows (map submission_columns (keep (row_has_id alike id) (table d))) none)
    pub selects_run :
        (d : D) (ref : String)
        → is_up d ≡ true
        → IsText ref
        → (rs : List Row) × (db.query (select_run_text b) (text_value ref ∷ []) d
            ≡ done (rows (map summary_columns rs) none))
          × Perm rs (keep (row_in_run alike ref) (table d))
          × IsDescending rs
    pub selects_list :
        (d : D) (holding : String) (tax_year quarter : Option ℤ)
        → is_up d ≡ true
        → IsText holding
        → IsFilter tax_year
        → IsFilter quarter
        → (rs : List Row) × (db.query
              (list_text b tax_year quarter)
              (list_args holding tax_year quarter)
              d
            ≡ done (rows (map summary_columns rs) none))
          × Perm rs (keep (row_listed alike holding tax_year quarter) (table d))
          × IsDescending rs

-- The collation tells texts apart that are not the same, letter by letter.
abbrev pub ComparesLetters :
    {D : Type 0} {db : Database D} {b : SqlBackend} → Executes db b → Type 0
ComparesLetters x = (s t : String) → x.alike s t ≡ (s == t)

-- The documented behaviour of encoding/json on the warnings, through a column that keeps the document:
-- `null` is the empty slice, an empty text is no document, and what was marshalled can be read back.
pub record ReadsBack (json : WarningsJson) (kept_json : List ℕ → List ℕ) : Type 0 where
  pub null_slice : json.unmarshal (b'n' ∷ b'u' ∷ b'l' ∷ b'l' ∷ []) ≡ done []
  pub no_document : (ws : List ValidationItem) → json.unmarshal [] ≢ done ws
  pub round_trip :
      (ws : List ValidationItem) (bs : List ℕ)
      → json.marshal ws ≡ done bs
      → json.unmarshal (kept_json bs) ≡ done ws
