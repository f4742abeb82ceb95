-- ===== src/Sql/Table/Laws.antt =====
-- The database of the parent module does what the stores rely on.
use mathlib.Core.Bool.{false≢true}
use corncrake.Prelude.{
  ℕ, String, ◌≡◌, refl, ◌≢◌, Bool, false, inl, inr, sym, ◌∙◌, Bool-cases, true, Option, none, some,
  List, [], ◌∷◌, map, arith, keep, first, All-imp,
}
use corncrake.Prelude.Int.{ℤ}
use corncrake.Models.{Time, ValidationItem}
use corncrake.SliceSort.{IsOrdered, IsStrictWeak}
use corncrake.SliceSort.Insertion.{insertion_sort, insertion_sort-perm, insertion_sort-IsOrdered}
use corncrake.Store.{CreateParams}
use corncrake.Sql.{done, failed, text_value, rows, insert_args}
use corncrake.Sql.Backend.{
  SqlBackend, postgres, sqlserver, Row, submission_columns, insert_text, select_one_text,
  select_run_text, list_text, json_value, list_args,
}
use corncrake.Sql.Executes.{
  Executes, ComparesLetters, IsFilter, ReadsBack, row_has_id, row_in_run, row_listed, IsDescending,
  insert_unless, new_row,
}
use corncrake.Sql.Table.{
  DbServer, running, stopped, table_of, is_running, same_text, fits_filter, fits_row, newer_row,
  newest_first, db_server, no_warnings, read_no_warnings, empty_json,
}

newer_row-IsStrictWeak : IsStrictWeak newer_row
newer_row-IsStrictWeak = record {
  asym = λ x y e. ground arith;
  negative_trans = λ x y z e f. ground arith;
}

IsOrdered-IsDescending : (rs : List Row) → IsOrdered newer_row rs → IsDescending rs
IsOrdered-IsDescending [] h = tt
IsOrdered-IsDescending (r ∷ rs) (a, h) =
    (All-imp (λ y e. ground arith) rs a, IsOrdered-IsDescending rs h)

pub sorted : (rs : List Row) → IsDescending (insertion_sort newer_row rs)
sorted rs = IsOrdered-IsDescending _ (insertion_sort-IsOrdered newer_row newer_row-IsStrictWeak rs)

Bool-false : {b : Bool} → ¬ (b ≡ true) → b ≡ false
Bool-false {b = true} h = absurd (h refl)
Bool-false {b = false} h = refl

abbrev inserted_row : Time → CreateParams → List ℕ → List Row → DbServer
inserted_row now p warnings table = running (
    insert_unless (first (row_has_id same_text p.submission_id) table)
      (new_row now p.body p warnings) table)

pub db_server-inserts :
    (b : SqlBackend) (d : DbServer) (now : Time) (p : CreateParams) (warnings : List ℕ)
    → is_running d ≡ true
    → fits_row (new_row now p.body p warnings) ≡ true
    → (d' : DbServer) × ((db_server b).exec
          (insert_text b)
          (insert_args now p (json_value b p.body) (json_value b warnings))
          d
        ≡ (done tt, d'))
      × (is_running d' ≡ true)
      × (table_of d'
          ≡ insert_unless
              (first (row_has_id same_text p.submission_id) (table_of d))
              (new_row now p.body p warnings)
              (table_of d))
db_server-inserts b stopped now p warnings h fits = cc
db_server-inserts postgres (running table) now p warnings h fits =
    (inserted_row now p warnings table, rw fits refl, refl, refl)
db_server-inserts sqlserver (running table) now p warnings h fits =
    (inserted_row now p warnings table, rw fits refl, refl, refl)

pub db_server-refuses :
    (b : SqlBackend) (d : DbServer) (now : Time) (p : CreateParams) (warnings : List ℕ)
    → is_running d ≡ true
    → ¬ (fits_row (new_row now p.body p warnings) ≡ true)
    → (d' : DbServer) × (e : String) × ((db_server b).exec
          (insert_text b)
          (insert_args now p (json_value b p.body) (json_value b warnings))
          d
        ≡ (failed e, d'))
      × (is_running d' ≡ true)
      × (table_of d' ≡ table_of d)
db_server-refuses b stopped now p warnings h wide = cc
db_server-refuses postgres (running table) now p warnings h wide =
    let refused : fits_row (new_row now p.body p warnings) ≡ false = Bool-false wide in
    (running table, "integer out of range", rw refused refl, refl, refl)
db_server-refuses sqlserver (running table) now p warnings h wide =
    let refused : fits_row (new_row now p.body p warnings) ≡ false = Bool-false wide in
    (running table, "integer out of range", rw refused refl, refl, refl)

IsFilter-fits : (v : Option ℤ) → IsFilter v → fits_filter v ≡ true
IsFilter-fits none h = refl
IsFilter-fits (some v) (below, above) = ground arith

db_server-selects_list :
    (b : SqlBackend) (table : List Row) (holding : String) (tax_year quarter : Option ℤ)
    → fits_filter tax_year ≡ true
    → fits_filter quarter ≡ true
    → (db_server b).query
        (list_text b tax_year quarter)
        (list_args holding tax_year quarter)
        (running table)
      ≡ done (newest_first (row_listed same_text holding tax_year quarter) table)
db_server-selects_list postgres table holding none none year_fits quarter_fits = refl
db_server-selects_list postgres table holding (some y) none year_fits quarter_fits =
    rw year_fits refl
db_server-selects_list postgres table holding none (some q) year_fits quarter_fits =
    rw quarter_fits refl
db_server-selects_list postgres table holding (some y) (some q) year_fits quarter_fits =
    rw (year_fits, quarter_fits) refl
db_server-selects_list sqlserver table holding none none year_fits quarter_fits = refl
db_server-selects_list sqlserver table holding (some y) none year_fits quarter_fits =
    rw year_fits refl
db_server-selects_list sqlserver table holding none (some q) year_fits quarter_fits =
    rw quarter_fits refl
db_server-selects_list sqlserver table holding (some y) (some q) year_fits quarter_fits =
    rw (year_fits, quarter_fits) refl

pub db_server-selects_one :
    (b : SqlBackend) (d : DbServer) (id : String)
    → is_running d ≡ true
    → (db_server b).query (select_one_text b) (text_value id ∷ []) d
      ≡ done (rows (map submission_columns (keep (row_has_id same_text id) (table_of d))) none)
db_server-selects_one b stopped id h = cc
db_server-selects_one postgres (running table) id h = refl
db_server-selects_one sqlserver (running table) id h = refl

pub db_server-selects_run :
    (b : SqlBackend) (d : DbServer) (ref : String)
    → is_running d ≡ true
    → (db_server b).query (select_run_text b) (text_value ref ∷ []) d
      ≡ done (newest_first (row_in_run same_text ref) (table_of d))
db_server-selects_run b stopped ref h = cc
db_server-selects_run postgres (running table) ref h = refl
db_server-selects_run sqlserver (running table) ref h = refl

pub db_server-lists :
    (b : SqlBackend) (d : DbServer) (holding : String) (tax_year quarter : Option ℤ)
    → is_running d ≡ true
    → IsFilter tax_year
    → IsFilter quarter
    → (db_server b).query (list_text b tax_year quarter) (list_args holding tax_year quarter) d
      ≡ done (newest_first (row_listed same_text holding tax_year quarter) (table_of d))
db_server-lists b stopped holding tax_year quarter h year_fits quarter_fits = cc
db_server-lists b (running table) holding tax_year quarter h year_fits quarter_fits =
    db_server-selects_list b table holding tax_year quarter (IsFilter-fits tax_year year_fits)
      (IsFilter-fits quarter quarter_fits)

abbrev pub db_server-Executes : (b : SqlBackend) → Executes (db_server b) b
db_server-Executes b = record {
  table = table_of;
  is_up = is_running;
  alike = same_text;
  IsText = λ text. Unit;
  Fits = λ r. fits_row r ≡ true;
  fits = λ r. elim (Bool-cases (fits_row r)) [
    | inl yes_ ↦ inl yes_
    | inr no_ ↦ inr (λ yes_. false≢true (sym no_ ∙ yes_))
  ];
  texts = λ r fits. (tt, tt);
  rounded = λ t. t;
  kept_json = λ bs. bs;
  inserts = λ d now p warnings h fits. db_server-inserts b d now p warnings h fits;
  refuses = db_server-refuses b;
  selects_one = λ d id h text. db_server-selects_one b d id h;
  selects_run = λ d ref h text. (
    insertion_sort newer_row (keep (row_in_run same_text ref) (table_of d)),
    db_server-selects_run b d ref h,
    insertion_sort-perm newer_row _,
    sorted _,
  );
  selects_list = λ d holding tax_year quarter h text year_fits quarter_fits. (
    insertion_sort newer_row (keep (row_listed same_text holding tax_year quarter) (table_of d)),
    db_server-lists b d holding tax_year quarter h year_fits quarter_fits,
    insertion_sort-perm newer_row _,
    sorted _,
  );
}

pub db_server-ComparesLetters : (b : SqlBackend) → ComparesLetters (db_server-Executes b)
db_server-ComparesLetters b s t = refl

pub read_no_warnings-round_trip :
    (ws : List ValidationItem) (bs : List ℕ)
    → no_warnings ws ≡ done bs
    → read_no_warnings bs ≡ done ws
read_no_warnings-round_trip [] [] e = cc
read_no_warnings-round_trip [] (b ∷ bs) e = refl
read_no_warnings-round_trip (w ∷ ws) bs e = cc

pub read_no_warnings-no_document : (ws : List ValidationItem) → read_no_warnings [] ≢ done ws
read_no_warnings-no_document ws e = cc

abbrev pub empty_json-ReadsBack : ReadsBack empty_json (λ bs. bs)
empty_json-ReadsBack = record {
  null_slice = refl;
  no_document = read_no_warnings-no_document;
  round_trip = read_no_warnings-round_trip;
}
