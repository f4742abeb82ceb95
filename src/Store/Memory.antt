-- ===== src/Store/Memory.antt =====
-- internal/services/store.go, `MemoryStore`. Each method runs under the store's mutex, so it is one
-- step on the state. A loop of a reader is a recursion on what it ranges over.
pub mod Represents
pub mod Reads
pub mod Listing
pub mod Answers
pub mod History
mod Tests
use corncrake.Prelude.{
  ℕ, String, Bool, true, false, not, ◌&&◌, Option, none, some, List, [], ◌∷◌, ◌++◌, ◌==◌, length,
  if◌then◌else◌, ltb,
}
use corncrake.Prelude.Int.{ℤ, pos, add_int, ltb_ℤ, eqb_ℤ}
use corncrake.GoMap
use corncrake.GoMap.{GoMap}
use corncrake.SliceSort.{SliceSort, RangeOrder}
use corncrake.Models.{Time, SubmissionRecord, SubmissionSummary, RunStatus}
use corncrake.Store.{Result, ok, err, panic, not_found, CreateParams, CreateResult, SubmissionStore}

-- `runs` maps a run reference to the ids of its submissions.
pub record MemoryStore : Type 0 where
  pub submissions : GoMap SubmissionRecord
  pub runs : GoMap (List String)

abbrev pub new_memory_store : MemoryStore
new_memory_store = record { submissions = GoMap.empty; runs = GoMap.empty }

-- The record that `Create` builds before it takes the lock.
abbrev pub new_record : Time → CreateParams → SubmissionRecord
new_record received_at p = record {
  submission_id = p.submission_id;
  tenant_id = p.tenant_id;
  run_reference = p.run_reference;
  holding_number = p.holding_number;
  tax_year = p.tax_year;
  quarter = p.quarter;
  return_type = p.return_type;
  status = "RECEIVED";
  received_at = received_at;
  software_used = p.client.software_used;
  software_version = p.client.software_version;
  item_count = p.item_count;
  body = p.body;
  warnings = p.warnings;
  contact_email = p.contact_email;
  contact_phone = p.contact_phone;
  comments = p.comments;
}

-- The result that repeats a stored record.
abbrev pub existing_result : SubmissionRecord → CreateResult
existing_result r = record {
  submission_id = r.submission_id;
  run_reference = r.run_reference;
  status = r.status;
  received_at = r.received_at;
  item_count = r.item_count;
  warnings = r.warnings;
}

abbrev pub fresh_result : Time → CreateParams → CreateResult
fresh_result received_at p = record {
  submission_id = p.submission_id;
  run_reference = p.run_reference;
  status = "RECEIVED";
  received_at = received_at;
  item_count = p.item_count;
  warnings = p.warnings;
}

-- `s.runs[ref]` of a missing key is the nil slice.
abbrev pub or_nil : Option (List String) → List String
or_nil none = []
or_nil (some ids) = ids

unfoldable pub store_new : Time → CreateParams → MemoryStore → MemoryStore
store_new received_at p s = record {
  submissions = GoMap.put s.submissions p.submission_id (new_record received_at p);
  runs =
      GoMap.put s.runs p.run_reference
        (or_nil (GoMap.get s.runs p.run_reference) ++ p.submission_id ∷ []);
}

-- What `Create` does after it has looked the id up under the lock.
abbrev pub create_after :
    Option SubmissionRecord → Time → CreateParams → MemoryStore → Result CreateResult × MemoryStore
create_after (some existing) received_at p s = (ok (existing_result existing), s)
create_after none received_at p s = (ok (fresh_result received_at p), store_new received_at p s)

unfoldable pub create : Time → CreateParams → MemoryStore → Result CreateResult × MemoryStore
create received_at p s = create_after (GoMap.get s.submissions p.submission_id) received_at p s

abbrev pub or_not_found {ℓ} : {A : Type ℓ} → Option A → Result A
or_not_found none = err not_found
or_not_found (some a) = ok a

unfoldable pub get_by_id : String → MemoryStore → Result SubmissionRecord
get_by_id id s = or_not_found (GoMap.get s.submissions id)

abbrev pub summary_of : SubmissionRecord → SubmissionSummary
summary_of r = record {
  submission_id = r.submission_id;
  tenant_id = r.tenant_id;
  run_reference = r.run_reference;
  quarter = r.quarter;
  tax_year = r.tax_year;
  return_type = r.return_type;
  status = r.status;
  received_at = r.received_at;
  item_count = r.item_count;
}

-- One round of the loop of `GetRun`.
abbrev pub add_to_run : RunStatus → SubmissionRecord → RunStatus
add_to_run run r = record run {
  total_items = add_int run.total_items r.item_count;
  submissions = run.submissions ++ summary_of r ∷ [];
}

-- The loop of `GetRun`: an id without a record is a nil pointer, whose field is read.
run_loop : GoMap SubmissionRecord → List String → RunStatus → Result RunStatus
run_loop submissions [] run = ok (record run { total_submissions = length run.submissions })
run_loop submissions (id ∷ ids) run = elim (GoMap.get submissions id) [
  | none ↦ panic
  | some r ↦ run_loop submissions ids (add_to_run run r)
]

abbrev pub empty_run : String → RunStatus
empty_run ref = record {
  run_reference = ref;
  total_submissions = 0;
  total_items = pos 0;
  submissions = [];
}

unfoldable pub get_run : String → MemoryStore → Result RunStatus
unfolding run_loop
get_run ref s = elim (GoMap.get s.runs ref) [
  | none ↦ err not_found
  | some ids ↦ run_loop s.submissions ids (empty_run ref)
]

-- The three `continue` tests of `List`, for a record that they let through.
unfoldable pub selected : String → ℤ → ℤ → SubmissionRecord → Bool
selected holding tax_year quarter r =
    if not (r.holding_number == holding)
    then false
    else if ltb_ℤ (pos 0) tax_year && not (eqb_ℤ r.tax_year tax_year)
    then false
    else if ltb_ℤ (pos 0) quarter && not (eqb_ℤ r.quarter quarter)
    then false
    else true

-- The loop of `List`.
collect : String → ℤ → ℤ → List (String × SubmissionRecord) → List SubmissionSummary
collect holding tax_year quarter [] = []
collect holding tax_year quarter ((id, r) ∷ rest) =
    let later = collect holding tax_year quarter rest in
    if selected holding tax_year quarter r then summary_of r ∷ later else later

-- The order that `sort.Slice` is given: the latest first.
abbrev pub newer : SubmissionSummary → SubmissionSummary → Bool
newer a b = ltb b.received_at a.received_at

module _ (sorter : SliceSort SubmissionSummary)
    (order : RangeOrder (String × SubmissionRecord)) where
  unfoldable pub list : String → ℤ → ℤ → MemoryStore → Result (List SubmissionSummary)
  unfolding collect selected
  list holding tax_year quarter s =
      ok (sorter.sort newer (collect holding tax_year quarter (order.visit s.submissions.entries)))

  abbrev pub memory_store : SubmissionStore MemoryStore
  memory_store = record { create = create; get_by_id = get_by_id; get_run = get_run; list = list }
