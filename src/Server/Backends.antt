-- ===== src/Server/Backends.antt =====
-- What a server keeps on each of its backends.
mod Tests
use corncrake.Prelude.{
  ℕ, ◌≡◌, refl, ◌⊎◌, inl, inr, String, Option, none, some, List, ◌∷◌, ◌++◌, first, All,
  Option-cases, ap, ◌∙◌,
}
use corncrake.SliceSort.{SliceSort, RangeOrder}
use corncrake.Models.{Time, SubmissionRecord, SubmissionSummary}
use corncrake.Store.{CreateParams}
use corncrake.Store.Memory.{MemoryStore, memory_store, new_memory_store, new_record}
use corncrake.Store.Memory.Represents.{Represents, Represents-empty, create-accept}
use corncrake.Store.Ledger.{Ledger, has_id}
use corncrake.Auth.Tokens.{Verifies}
use corncrake.Sql.{done, Database, WarningsJson}
use corncrake.Sql.Backend.{SqlBackend, sql_store}
use corncrake.Sql.Executes.{Executes, ComparesLetters, ReadsBack, new_row}
use corncrake.Sql.Holds.{kept_record}
use corncrake.Sql.Insertion.{Holds, create-insert_unless, create-refused}
use corncrake.Server.{Config, State}
use corncrake.Server.Trace.{Reachable, started, served, limiter_cleaned, revocation_cleaned}
use corncrake.Server.Kept.{IsSubmitted, KeepsAccepted, StoresAll, Reachable-IsSound}

module _ {PublicKey : Type 0} (sorter : SliceSort SubmissionSummary)
    (order : RangeOrder (String × SubmissionRecord)) (c : Config MemoryStore PublicKey)
    (v : (now : Time) → Verifies (c.jwt now)) (start : State MemoryStore) where
  pub memory-KeepsAccepted :
      c.store ≡ memory_store sorter order
      → KeepsAccepted c v start Represents new_record (λ now p. Unit)
  memory-KeepsAccepted backend = record {
    create = λ {s} {log} now p h a _.
        rw backend (elim (Option-cases (first (has_id p.submission_id) log)) [
          | inl fresh ↦ inr (rw fresh at (create-accept h now p).1)
          | inr (r, taken) ↦ inl (rw taken at (create-accept h now p).1)
        ]);
  }

  -- The memory store can store everything.
  pub memory-StoresAll :
      {st : State MemoryStore} (h : Reachable c start st) → StoresAll c start (λ now p. Unit) h
  memory-StoresAll started = tt
  memory-StoresAll (served t req h) = (λ seen p reaches a. tt, memory-StoresAll h)
  memory-StoresAll (limiter_cleaned now h) = memory-StoresAll h
  memory-StoresAll (revocation_cleaned now h) = memory-StoresAll h

  -- Whatever has been asked of a server with the memory store since it started with an empty one, in
  -- any order and between any clean-ups: the store stands for a ledger without two records of an id,
  -- and for every record in it there is a request of this very history, served on the way from the
  -- start to the present state, that came to `Create` with a token of the record's holding, signed
  -- with the configured key, and with a body that its tenant accepts, and whose serving put the
  -- record, made of the request and stamped with its time, behind what the store stood for.
  pub Reachable-IsSubmitted :
      {st : State MemoryStore}
      → c.store ≡ memory_store sorter order
      → start.submissions ≡ new_memory_store
      → Reachable c start st
      → (log : Ledger) × Represents st.submissions log
        × All (IsSubmitted c v start Represents new_record st) log
  Reachable-IsSubmitted backend empty reachable =
      Reachable-IsSound c v start Represents new_record (λ now p. Unit)
        (memory-KeepsAccepted backend) (rw empty Represents-empty) reachable
        (memory-StoresAll reachable)

module _ {D : Type 0} {db : Database D} {b : SqlBackend} (x : Executes db b) where
  abbrev pub as_stored : Time → CreateParams → SubmissionRecord
  as_stored now p = kept_record (x.rounded now) (x.kept_json p.body) p

-- The warnings have a JSON text.
abbrev pub IsMarshalled : WarningsJson → CreateParams → Type 0
IsMarshalled json p = (warnings : List ℕ) × (json.marshal p.warnings ≡ done warnings)

-- So have those of whatever was accepted on the way.
abbrev pub MarshalsAll :
    {S PublicKey : Type 0} (json : WarningsJson) (c : Config S PublicKey) (start : State S)
    {st : State S}
    → Reachable c start st
    → Type 0
MarshalsAll json c start h = StoresAll c start (λ now p. IsMarshalled json p) h

module _ {D PublicKey : Type 0} {db : Database D} {b : SqlBackend} (x : Executes db b)
    (json : WarningsJson) (sorter : SliceSort SubmissionSummary) (exact : ComparesLetters x)
    (law : ReadsBack json x.kept_json) (c : Config D PublicKey)
    (v : (now : Time) → Verifies (c.jwt now)) (start : State D) where
  pub sql-KeepsAccepted :
      c.store ≡ sql_store b db sorter json
      → KeepsAccepted c v start (Holds x json) (as_stored x) (λ now p. IsMarshalled json p)
  sql-KeepsAccepted backend = record {
    create = λ {s} {log} {seen} now p h a (warnings, e).
        elim (x.fits (new_row (x.rounded now) (x.kept_json p.body) p (x.kept_json warnings))) [
          | inl fits ↦
              let (d', ran, held) =
                create-insert_unless x json sorter exact law now p warnings h e fits in
              rw (backend, ran)
                (elim (Option-cases (first (has_id p.submission_id) log)) [
                  | inl fresh ↦ inr (rw fresh at held)
                  | inr (r, taken) ↦ inl (rw taken at held)
                ])
          | inr wide ↦
              let (d', error, ran, held) = create-refused x json sorter now p warnings h e wide in
              rw (backend, ran) (inl held)
        ];
  }
