-- ===== src/Store/Memory/Represents.antt =====
-- The memory store stands for a ledger: its map holds the ledger's records, each under its own id,
-- and each run lists the ids of its records in the ledger's order.
use mathlib.Core.List.{map-append, append-nil}
use corncrake.Prelude.{
  String, ◌≡◌, refl, ◌≢◌, ap, sym, ◌∙◌, inl, inr, Option, none, some, List, [], ◌∷◌, ◌++◌, map,
  ◌==◌, eq_iff, arith, first, keep, keep-append, All, All-append, Option-cases, Bool-cases,
}
use corncrake.GoMap
use corncrake.GoMap.{map_laws}
use corncrake.Models.{Time, SubmissionRecord}
use corncrake.Store.{ok, CreateParams}
use corncrake.Store.Memory.{MemoryStore, new_memory_store, new_record, or_nil, create, store_new}
use corncrake.Store.Ledger.{Ledger, has_id, in_run, accept}

abbrev pub keyed : SubmissionRecord → String × SubmissionRecord
keyed r = (r.submission_id, r)

abbrev pub id_of : SubmissionRecord → String
id_of r = r.submission_id

abbrev pub listed : List SubmissionRecord → Option (List String)
listed [] = none
listed (r ∷ rs) = some (map id_of (r ∷ rs))

abbrev pub HasDistinctIds : Ledger → Type 0
HasDistinctIds [] = Unit
HasDistinctIds (r ∷ log) = All (λ q. q.submission_id ≢ r.submission_id) log × HasDistinctIds log

pub record Represents (s : MemoryStore) (log : Ledger) : Type 0 where
  pub entries : s.submissions.entries ≡ map keyed log
  pub runs : (ref : String) → GoMap.get s.runs ref ≡ listed (keep (in_run ref) log)
  pub distinct : HasDistinctIds log

lookup-keyed :
    (id : String) (log : Ledger) → GoMap.lookup id (map keyed log) ≡ first (has_id id) log
unfolding GoMap.lookup
lookup-keyed id [] = refl
lookup-keyed id (r ∷ log) = ground (arith, lookup-keyed id log)

pub get-submissions :
    {s : MemoryStore} {log : Ledger}
    → Represents s log
    → (id : String) → GoMap.get s.submissions id ≡ first (has_id id) log
unfolding GoMap.get
get-submissions {log} h id = ap (GoMap.lookup id) h.entries ∙ lookup-keyed id log

absent_ids :
    (id : String) (log : Ledger)
    → first (has_id id) log ≡ none
    → All (λ r. r.submission_id ≢ id) log
absent_ids id [] e = tt
absent_ids id (r ∷ log) e = ground (arith, eq_iff r.submission_id id, absent_ids id log)

HasDistinctIds-append :
    (log : Ledger) (r : SubmissionRecord)
    → HasDistinctIds log
    → All (λ q. q.submission_id ≢ r.submission_id) log
    → HasDistinctIds (log ++ r ∷ [])
HasDistinctIds-append [] r h a = (tt, tt)
HasDistinctIds-append (q ∷ log) r (apart, h) (ne, a) =
    (All-append _ log (r ∷ []) apart ((λ e. ne (sym e)), tt), HasDistinctIds-append log r h a)

listed-append :
    (rs : List SubmissionRecord) (r : SubmissionRecord)
    → listed (rs ++ r ∷ []) ≡ some (or_nil (listed rs) ++ r.submission_id ∷ [])
listed-append [] r = refl
listed-append (q ∷ rs) r = ap (λ ids. some (q.submission_id ∷ ids)) (map-append id_of rs (r ∷ []))

module _ {s : MemoryStore} {log : Ledger} (h : Represents s log) (now : Time)
    (p : CreateParams) where
  runs-store_new :
      (ref : String)
      → GoMap.get (store_new now p s).runs ref
        ≡ listed (keep (in_run ref) (log ++ new_record now p ∷ []))
  unfolding store_new
  runs-store_new ref = rw (keep-append (in_run ref) log (new_record now p ∷ [])) (
      simp map_laws (elim (Bool-cases (p.run_reference == ref)) [
        | inl e ↦ rw e (
            ap (λ ids. some (or_nil ids ++ p.submission_id ∷ []))
              (ap (GoMap.get s.runs) ((eq_iff p.run_reference ref).0 e) ∙ h.runs ref)
            ∙ sym (listed-append (keep (in_run ref) log) (new_record now p)))
        | inr e ↦ rw (e, append-nil (keep (in_run ref) log)) (h.runs ref)
      ]))

  Represents-store_new :
      first (has_id p.submission_id) log ≡ none
      → Represents (store_new now p s) (log ++ new_record now p ∷ [])
  unfolding store_new
  Represents-store_new fresh = record {
    entries =
        GoMap.entries-put_of_absent _ _ _ (get-submissions h p.submission_id ∙ fresh)
        ∙ ap (λ es. es ++ keyed (new_record now p) ∷ []) h.entries
        ∙ sym (map-append keyed log (new_record now p ∷ []));
    runs = runs-store_new;
    distinct =
        HasDistinctIds-append log (new_record now p) h.distinct
          (absent_ids p.submission_id log fresh);
  }

  -- `Create` does to the ledger what `accept` does, and answers as `accept` does.
  pub create-accept :
      let (result, log') = accept now p log in
      ((create now p s).0 ≡ ok result) × Represents (create now p s).1 log'
  unfolding create
  create-accept = elim (Option-cases (first (has_id p.submission_id) log)) [
    | inl fresh ↦ rw (get-submissions h p.submission_id, fresh) (refl, Represents-store_new fresh)
    | inr (r, stored) ↦ rw (get-submissions h p.submission_id, stored) (refl, h)
  ]

pub Represents-empty : Represents new_memory_store []
Represents-empty = record {
  entries = unfold GoMap.empty in refl;
  runs = λ ref. GoMap.get-empty ref;
  distinct = tt;
}
