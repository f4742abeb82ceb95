-- ===== src/Store/Memory/History.antt =====
-- Whole histories of calls. The mutex puts the calls of concurrent requests into some order; what a
-- client sees in that order is what the ledger answers.
use corncrake.Prelude.{
  String, ◌≡◌, refl, ap, ◌∙◌, none, some, List, [], ◌∷◌, ◌++◌, arith, eq_refl, first, keep,
  Option-cases, inl, inr,
}
use corncrake.Models.{Time, SubmissionRecord, RunStatus}
use corncrake.Store.{Result, ok, CreateParams, CreateResult}
use corncrake.Store.Memory.{
  MemoryStore, new_memory_store, new_record, existing_result, create, get_by_id, get_run,
  or_not_found,
}
use corncrake.Store.Memory.Represents.{Represents, Represents-empty, get-submissions, create-accept}
use corncrake.Store.Memory.Reads.{get_by_id-ledger, get_run-ledger, run_result}
use corncrake.Store.Ledger.{Ledger, has_id, in_run, accept}

pub data Call : Type 0 where
  create_call : Time → CreateParams → Call
  get_call run_call : String → Call

pub data Answer : Type 0 where
  created : Result CreateResult → Answer
  found : Result SubmissionRecord → Answer
  status : Result RunStatus → Answer

abbrev pub call : Call → MemoryStore → Answer × MemoryStore
call (create_call now p) s = (created (create now p s).0, (create now p s).1)
call (get_call id) s = (found (get_by_id id s), s)
call (run_call ref) s = (status (get_run ref s), s)

abbrev pub ask : Call → Ledger → Answer × Ledger
ask (create_call now p) log = (created (ok (accept now p log).0), (accept now p log).1)
ask (get_call id) log = (found (or_not_found (first (has_id id) log)), log)
ask (run_call ref) log = (status (run_result ref (keep (in_run ref) log)), log)

pub answers : List Call → MemoryStore → List Answer
answers [] s = []
answers (c ∷ cs) s = (call c s).0 ∷ answers cs (call c s).1

pub ledger_answers : List Call → Ledger → List Answer
ledger_answers [] log = []
ledger_answers (c ∷ cs) log = (ask c log).0 ∷ ledger_answers cs (ask c log).1

unfoldable pub after : List Call → MemoryStore → MemoryStore
after [] s = s
after (c ∷ cs) s = after cs (call c s).1

call-ask :
    {s : MemoryStore} {log : Ledger} (c : Call)
    → Represents s log
    → ((call c s).0 ≡ (ask c log).0) × Represents (call c s).1 (ask c log).1
call-ask (create_call now p) h = (ap created (create-accept h now p).0, (create-accept h now p).1)
call-ask (get_call id) h = (ap found (get_by_id-ledger h id), h)
call-ask (run_call ref) h = (ap status (get_run-ledger h ref), h)

answers-ledger :
    (cs : List Call) {s : MemoryStore} {log : Ledger}
    → Represents s log
    → answers cs s ≡ ledger_answers cs log
unfolding answers ledger_answers
answers-ledger [] h = refl
answers-ledger (c ∷ cs) {s} {log} h =
    let (same, next) = call-ask c h in
    ap (λ a. a ∷ answers cs (call c s).1) same
    ∙ ap (λ rest. (ask c log).0 ∷ rest) (answers-ledger cs next)

-- From a new store, any sequence of calls of `Create`, `GetByID` and `GetRun` is answered as the
-- ledger answers it.
pub answers_refine : (cs : List Call) → answers cs new_memory_store ≡ ledger_answers cs []
answers_refine cs = answers-ledger cs Represents-empty

first-append :
    (id : String) (log more : Ledger) {r : SubmissionRecord}
    → first (has_id id) log ≡ some r
    → first (has_id id) (log ++ more) ≡ some r
first-append id [] more e = ground arith
first-append id (q ∷ log) more {r} e = ground (arith, first-append id log more {r = r})

pub first-append_self :
    (id : String) (log : Ledger) (r : SubmissionRecord)
    → first (has_id id) log ≡ none
    → r.submission_id ≡ id
    → first (has_id id) (log ++ r ∷ []) ≡ some r
first-append_self id [] r fresh same = rw (same, eq_refl id) refl
first-append_self id (q ∷ log) r fresh same = ground (arith, first-append_self id log r, same)

ask-first :
    (c : Call) (log : Ledger) (id : String) {r : SubmissionRecord}
    → first (has_id id) log ≡ some r
    → first (has_id id) (ask c log).1 ≡ some r
ask-first (create_call now p) log id e = elim (Option-cases (first (has_id p.submission_id) log)) [
  | inl fresh ↦ rw fresh (first-append id log (new_record now p ∷ []) e)
  | inr (q, stored) ↦ rw stored e
]
ask-first (get_call _) log id e = e
ask-first (run_call _) log id e = e

-- A store that stands for a ledger in which the id has the record `r`.
record Holds (id : String) (r : SubmissionRecord) (s : MemoryStore) : Type 0 where
  log : Ledger
  represents : Represents s log
  recorded : first (has_id id) log ≡ some r

after-Holds :
    (cs : List Call) {id : String} {r : SubmissionRecord} {s : MemoryStore}
    → Holds id r s
    → Holds id r (after cs s)
unfolding after
after-Holds [] h = h
after-Holds (c ∷ cs) {id} h = after-Holds cs (record {
  log = (ask c h.log).1;
  represents = (call-ask c h.represents).1;
  recorded = ask-first c h.log id h.recorded;
})

-- Every history of a new store leads to one that stands for a ledger.
after-Represents :
    (cs : List Call) {s : MemoryStore} {log : Ledger}
    → Represents s log
    → (log' : Ledger) × Represents (after cs s) log'
unfolding after
after-Represents [] {log} h = (log, h)
after-Represents (c ∷ cs) h = after-Represents cs (call-ask c h).1

-- What `Create` has answered with, under the id that it was given.
create-Holds :
    {s : MemoryStore} {log : Ledger} (now : Time) (p : CreateParams)
    → Represents s log
    → (r : SubmissionRecord) × ((create now p s).0 ≡ ok (existing_result r))
      × Holds p.submission_id r (create now p s).1
create-Holds {log} now p h =
    let (answer, next) = create-accept h now p in
    elim (Option-cases (first (has_id p.submission_id) log)) [
      | inl fresh ↦ (
        new_record now p,
        answer ∙ rw fresh refl,
        record {
          log = log ++ new_record now p ∷ [];
          represents = rw fresh at next;
          recorded = first-append_self p.submission_id log (new_record now p) fresh refl;
        },
      )
      | inr (r, stored) ↦ (
        r,
        answer ∙ rw stored refl,
        record { log = log; represents = rw stored at next; recorded = stored },
      )
    ]

Holds-answers :
    {id : String} {r : SubmissionRecord} {s : MemoryStore} (now : Time) (p : CreateParams)
    → p.submission_id ≡ id
    → Holds id r s
    → (get_by_id id s ≡ ok r) × (create now p s ≡ (ok (existing_result r), s))
unfolding create
Holds-answers {id} {r} {s} now p same h = (
  get_by_id-ledger h.represents id ∙ ap or_not_found h.recorded,
  rw (same, get-submissions h.represents id, h.recorded) refl,
)

-- A submission that is new to the store is found under its id ever after.
pub create-keeps :
    {s : MemoryStore} {log : Ledger} (now : Time) (p : CreateParams) (between : List Call)
    → Represents s log
    → first (has_id p.submission_id) log ≡ none
    → get_by_id p.submission_id (after between (create now p s).1) ≡ ok (new_record now p)
create-keeps {log} now p between h fresh =
    (Holds-answers now p refl (
      after-Holds between {id = p.submission_id} {r = new_record now p} (record {
        log = log ++ new_record now p ∷ [];
        represents = rw fresh at (create-accept h now p).1;
        recorded = first-append_self p.submission_id log (new_record now p) fresh refl;
      }))).0

-- In any history of `Create`, `GetByID` and `GetRun`, a submission keeps the answer and the record
-- of the first call with its id: the calls made since change neither, and a later `Create` with the
-- id changes nothing at all.
pub create_idempotent :
    (before between : List Call) (now now' : Time) (p p' : CreateParams)
    → p'.submission_id ≡ p.submission_id
    → let s = after before new_memory_store in
      let s' = after between (create now p s).1 in
      (r : SubmissionRecord) × ((create now p s).0 ≡ ok (existing_result r))
      × (get_by_id p.submission_id s' ≡ ok r)
      × (create now' p' s' ≡ ((create now p s).0, s'))
create_idempotent before between now now' p p' same =
    let (log, h) = after-Represents before Represents-empty in
    let (r, answer, held) = create-Holds now p h in
    let (get, again) = Holds-answers now' p' same (after-Holds between held) in
    (r, answer, get, rw answer again)
