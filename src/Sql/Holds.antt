-- ===== src/Sql/Holds.antt =====
-- When the rows of a table stand for the accepted submissions, and what reading such rows gives.
use corncrake.Prelude.{
  ℕ, ◌≡◌, refl, inl, inr, sym, ap, ◌∙◌, String, Bool, true, Option, none, some, List, [], ◌∷◌, ◌++◌,
  map, arith, keep, first, Bool-cases,
}
use corncrake.Models.{Time, ValidationItem, SubmissionRecord}
use corncrake.Store.{Result, ok, CreateParams}
use corncrake.Store.Memory.{new_record, summary_of}
use corncrake.Store.Ledger.{Ledger}
use corncrake.Sql.{Attempt, done, failed, Value, WarningsJson}
use corncrake.Sql.Scan.{
  next_null_text, next_bytes, is_null_text, warnings_of, scan_columns, with_warnings, submission_of,
  scan_summary,
}
use corncrake.Sql.Backend.{Row, null_or_text, null_or_bytes, submission_columns, summary_columns}
use corncrake.Sql.Executes.{new_row, ReadsBack}

abbrev or_empty : Option String → String
or_empty none = ""
or_empty (some s) = s

abbrev or_no_bytes : Option (List ℕ) → List ℕ
or_no_bytes none = []
or_no_bytes (some bs) = bs

next_null_text-column :
    (o : Option String) (vs : List Value)
    → next_null_text (null_or_text o ∷ vs) ≡ done (or_empty o, vs)
next_null_text-column none vs = refl
next_null_text-column (some s) vs = refl

next_bytes-column :
    (o : Option (List ℕ)) (vs : List Value)
    → next_bytes (null_or_bytes o ∷ vs) ≡ done (or_no_bytes o, vs)
next_bytes-column none vs = refl
next_bytes-column (some bs) vs = refl

-- What a row says but for the warnings.
abbrev pub base_record : Row → SubmissionRecord
base_record r = record {
  submission_id = r.submission_id;
  tenant_id = r.tenant_id;
  run_reference = r.run_reference;
  holding_number = r.holding_number;
  tax_year = r.tax_year;
  quarter = r.quarter;
  return_type = r.return_type;
  status = r.status;
  received_at = r.received_at;
  software_used = or_empty r.software_used;
  software_version = or_empty r.software_version;
  item_count = r.item_count;
  body = r.body;
  warnings = [];
  contact_email = or_empty r.contact_email;
  contact_phone = or_empty r.contact_phone;
  comments = or_empty r.comments;
}

scan_columns-row :
    (r : Row) → scan_columns (submission_columns r) ≡ done (base_record r, or_no_bytes r.warnings)
unfolding scan_columns
scan_columns-row r = simp (next_null_text-column, next_bytes-column) refl

pub scan_summary-row :
    (r : Row) → scan_summary (summary_columns r) ≡ done (summary_of (base_record r))
unfolding scan_summary
scan_summary-row r = refl

-- What is read from a row.
abbrev pub row_record : WarningsJson → Row → Result SubmissionRecord
row_record json r = submission_of json (scan_columns (submission_columns r))

ok-injective : {A : Type 0} {a b : A} → ok a ≡ ok b → a ≡ b
ok-injective e = cc

pub row_record-base :
    (json : WarningsJson) (row : Row) (r : SubmissionRecord)
    → row_record json row ≡ ok r
    → (ws : List ValidationItem) × (r ≡ record (base_record row) { warnings = ws })
row_record-base json row r h =
    go (warnings_of json (or_no_bytes row.warnings))
      (ap (submission_of json) (sym (scan_columns-row row)) ∙ h)
  where
    go :
        (ws : Attempt (List ValidationItem))
        → with_warnings (base_record row) ws ≡ ok r
        → (ws : List ValidationItem) × (r ≡ record (base_record row) { warnings = ws })
    go (failed e) h = cc
    go (done ws) h = (ws, sym (ok-injective h))

null_text : (bs : List ℕ) → is_null_text bs ≡ true → bs ≡ b'n' ∷ b'u' ∷ b'l' ∷ b'l' ∷ []
null_text (a ∷ b ∷ c ∷ d ∷ []) h = ground arith
null_text [] h = cc
null_text (a ∷ []) h = cc
null_text (a ∷ b ∷ []) h = cc
null_text (a ∷ b ∷ c ∷ []) h = cc
null_text (a ∷ b ∷ c ∷ d ∷ e ∷ bs) h = cc

done-injective : {A : Type 0} {a b : A} → done a ≡ done b → a ≡ b
done-injective e = cc

-- Warnings that went into a column come out of it, whether or not the code asks the decoder.
warnings_of-kept :
    (json : WarningsJson) (bs : List ℕ) (ws : List ValidationItem)
    → json.unmarshal (b'n' ∷ b'u' ∷ b'l' ∷ b'l' ∷ []) ≡ done []
    → (json.unmarshal [] ≡ done ws → ⊥)
    → json.unmarshal bs ≡ done ws
    → warnings_of json bs ≡ done ws
warnings_of-kept json [] ws null_slice no_document e = absurd (no_document e)
warnings_of-kept json (b ∷ bs) ws null_slice no_document e =
    elim (Bool-cases (is_null_text (b ∷ bs))) [
      | inl null ↦ rw null (sym null_slice ∙ rw (null_text (b ∷ bs) null) at e)
      | inr other ↦ rw other e
    ]

-- The record of an accepted submission, with its time and its body as the columns keep them.
abbrev pub kept_record : Time → List ℕ → CreateParams → SubmissionRecord
kept_record received_at body p = record (new_record received_at p) { body = body }

pub row_record-new_row :
    {json : WarningsJson} {kept_json : List ℕ → List ℕ} (l : ReadsBack json kept_json)
    (received_at : Time) (body bs : List ℕ) (p : CreateParams)
    → json.marshal p.warnings ≡ done bs
    → row_record json (new_row received_at body p (kept_json bs))
      ≡ ok (kept_record received_at body p)
row_record-new_row {json} {kept_json} l received_at body bs p e =
    ap (submission_of json) (scan_columns-row (new_row received_at body p (kept_json bs)))
    ∙ ap (with_warnings (base_record (new_row received_at body p (kept_json bs)))) (
        warnings_of-kept json (kept_json bs) p.warnings l.null_slice (l.no_document p.warnings)
          (l.round_trip p.warnings bs e))

module _ (json : WarningsJson) where
  -- The rows read as the records of the list, one by one.
  abbrev pub Reads : List Row → Ledger → Type 0
  Reads [] [] = Unit
  Reads [] (r ∷ log) = ⊥
  Reads (row ∷ rows) [] = ⊥
  Reads (row ∷ rows) (r ∷ log) = (row_record json row ≡ ok r) × Reads rows log

  pub Reads-append :
      (rows : List Row) (log : Ledger) (row : Row) (r : SubmissionRecord)
      → Reads rows log
      → row_record json row ≡ ok r
      → Reads (rows ++ row ∷ []) (log ++ r ∷ [])
  Reads-append [] [] row r h e = (e, tt)
  Reads-append (q ∷ rows) (s ∷ log) row r (f, h) e = (f, Reads-append rows log row r h e)
  Reads-append [] (s ∷ log) row r h e = absurd h
  Reads-append (q ∷ rows) [] row r h e = absurd h

  -- A test of a row that says what a test of its record says.
  abbrev pub Agree : (Row → Bool) → (SubmissionRecord → Bool) → Type 0
  Agree p q = (row : Row) (r : SubmissionRecord) → row_record json row ≡ ok r → p row ≡ q r

  pub Reads-keep :
      (p : Row → Bool) (q : SubmissionRecord → Bool) (rows : List Row) (log : Ledger)
      → Agree p q
      → Reads rows log
      → Reads (keep p rows) (keep q log)
  Reads-keep p q [] [] a h = tt
  Reads-keep p q [] (r ∷ log) a h = absurd h
  Reads-keep p q (row ∷ rows) [] a h = absurd h
  Reads-keep p q (row ∷ rows) (r ∷ log) a (e, h) = elim (Bool-cases (q r)) [
    | inl yes_ ↦ rw (a row r e, yes_) (e, Reads-keep p q rows log a h)
    | inr no_ ↦ rw (a row r e, no_) (Reads-keep p q rows log a h)
  ]

  -- Reading the first row that is kept gives the first record that is kept.
  abbrev pub ReadsFirst : Option Row → Option SubmissionRecord → Type 0
  ReadsFirst none none = Unit
  ReadsFirst none (some r) = ⊥
  ReadsFirst (some row) none = ⊥
  ReadsFirst (some row) (some r) = row_record json row ≡ ok r

  pub Reads-first :
      (p : Row → Bool) (q : SubmissionRecord → Bool) (rows : List Row) (log : Ledger)
      → Agree p q
      → Reads rows log
      → ReadsFirst (first p rows) (first q log)
  Reads-first p q [] [] a h = tt
  Reads-first p q [] (r ∷ log) a h = absurd h
  Reads-first p q (row ∷ rows) [] a h = absurd h
  Reads-first p q (row ∷ rows) (r ∷ log) a (e, h) = elim (Bool-cases (q r)) [
    | inl yes_ ↦ rw (a row r e, yes_) e
    | inr no_ ↦ rw (a row r e, no_) (Reads-first p q rows log a h)
  ]

  pub Reads-summaries :
      (rows : List Row) (log : Ledger)
      → Reads rows log
      → map (λ row. summary_of (base_record row)) rows ≡ map summary_of log
  Reads-summaries [] [] h = refl
  Reads-summaries [] (r ∷ log) h = absurd h
  Reads-summaries (row ∷ rows) [] h = absurd h
  Reads-summaries (row ∷ rows) (r ∷ log) (e, h) =
      let (ws, same) = row_record-base json row r e in
      let here : summary_of (base_record row) ≡ summary_of r = sym (ap summary_of same) in
      rw (here, Reads-summaries rows log h) refl
