-- ===== src/Server/Kept.antt =====
-- What a server keeps of the submissions, over any backend.
use corncrake.Prelude.{◌≡◌, refl, ◌⊎◌, inl, inr, ap, ◌∙◌, [], ◌∷◌, ◌++◌, All, All-imp, All-append}
use corncrake.Models.{Time, SubmissionRecord}
use corncrake.Store.{CreateParams}
use corncrake.Store.Ledger.{Ledger}
use corncrake.Auth.{string_claim}
use corncrake.Auth.Tokens.{Verifies}
use corncrake.Auth.Admission.{SignedByKey, signed}
use corncrake.Http.{Request, client_from_context}
use corncrake.Http.Checks.{Checked-cases}
use corncrake.Handlers.Submissions.{create, prepare}
use corncrake.Handlers.Submissions.Create.{Accepted, prepare_sound}
use corncrake.Server.{Clock, Config, State, auth_config, serve}
use corncrake.Server.Stored.{Reaches, serve_change}
use corncrake.Server.Trace.{Reachable, started, served, limiter_cleaned, revocation_cleaned}

module _ {S PublicKey : Type 0} (c : Config S PublicKey) (start : State S)
    (IsStorable : Time → CreateParams → Type 0) where
  -- What the request leads `Create` to, if it comes there and is accepted, can be stored.
  abbrev pub StoresRequest : Clock → Request → State S → Type 0
  StoresRequest t req st =
      (seen : Request) (p : CreateParams)
      → Reaches c t req st seen
      → Accepted c.registry c.unmarshal_meta seen p
      → IsStorable t.received_at p

  -- So it is for every request of a history.
  abbrev pub StoresAll : {st : State S} → Reachable c start st → Type 0
  StoresAll started = Unit
  StoresAll (served {st = st} t req h) = StoresRequest t req st × StoresAll h
  StoresAll (limiter_cleaned now h) = StoresAll h
  StoresAll (revocation_cleaned now h) = StoresAll h

module _ {S PublicKey : Type 0} (c : Config S PublicKey) (v : (now : Time) → Verifies (c.jwt now))
    (start : State S) (StandsFor : S → Ledger → Type 0)
    (kept : Time → CreateParams → SubmissionRecord) where
  -- On the way from the start to the state `st`: a request, with a token of the record's holding
  -- that is signed with the configured key and a body that its tenant accepts, came to `Create`,
  -- and serving it put the record behind the ledger that the store stood for. `kept` is the record
  -- that the backend keeps of it.
  pub record IsSubmitted (st : State S) (r : SubmissionRecord) : Type 0 where
    pub before : State S
    pub reached : Reachable c start before
    pub t : Clock
    pub req : Request
    pub later : Reachable c (serve c t req before).1 st
    pub seen : Request
    pub reaches : Reaches c t req before seen
    pub signed_by_key :
        SignedByKey (c.jwt t.now) (auth_config c before) (v t.now) reaches.admitted.token
    pub p : CreateParams
    pub accepted : Accepted c.registry c.unmarshal_meta seen p
    pub holding : p.holding_number ≡ string_claim reaches.admitted.claims "holdingNumber"
    pub recorded : r ≡ kept t.received_at p
    pub ledger : Ledger
    pub stood : StandsFor before.submissions ledger
    pub stands : StandsFor (serve c t req before).1.submissions (ledger ++ r ∷ [])

  -- What came before a state has come before those after it.
  IsSubmitted-later :
      {st st' : State S}
      → ((from : State S) → Reachable c from st → Reachable c from st')
      → (r : SubmissionRecord) → IsSubmitted st r
      → IsSubmitted st' r
  IsSubmitted-later step r s = record {
    before = s.before;
    reached = s.reached;
    t = s.t;
    req = s.req;
    later = step _ s.later;
    seen = s.seen;
    reaches = s.reaches;
    signed_by_key = s.signed_by_key;
    p = s.p;
    accepted = s.accepted;
    holding = s.holding;
    recorded = s.recorded;
    ledger = s.ledger;
    stood = s.stood;
    stands = s.stands;
  }

  All-IsSubmitted-later :
      {st st' : State S}
      → ((from : State S) → Reachable c from st → Reachable c from st')
      → (log : Ledger) → All (IsSubmitted st) log
      → All (IsSubmitted st') log
  All-IsSubmitted-later step log submitted = All-imp (IsSubmitted-later step) log submitted

  module _ (IsStorable : Time → CreateParams → Type 0) where
    -- What a backend's `Create` does for the requests that are accepted and that it can store: it
    -- keeps a record, or it leaves the ledger as it is.
    pub record KeepsAccepted : Type 0 where
      pub create :
          {s : S} {log : Ledger} {seen : Request} (now : Time) (p : CreateParams)
          → StandsFor s log
          → Accepted c.registry c.unmarshal_meta seen p
          → IsStorable now p
          → StandsFor (c.store.create now p s).1 log
            ⊎ StandsFor (c.store.create now p s).1 (log ++ kept now p ∷ [])

    module _ (law : KeepsAccepted) where
      abbrev IsSound : State S → Type 0
      IsSound st = (log : Ledger) × StandsFor st.submissions log × All (IsSubmitted st) log

      created-IsSubmitted :
          {st : State S} {log : Ledger} (t : Clock) (req seen : Request)
          → Reachable c start st
          → Reaches c t req st seen
          → StandsFor st.submissions log
          → StoresRequest c start IsStorable t req st
          → ((serve c t req st).1.submissions
              ≡ (create c.store c.registry c.unmarshal_meta t.received_at seen st.submissions).1)
          → StandsFor (serve c t req st).1.submissions log
            ⊎ ((r : SubmissionRecord) × StandsFor (serve c t req st).1.submissions (log ++ r ∷ [])
                × IsSubmitted (serve c t req st).1 r)
      unfolding create
      created-IsSubmitted {st} {log} t req seen reached reaches h storable done =
          elim (Checked-cases (prepare c.registry c.unmarshal_meta seen)) [
            | inl (r, e) ↦ inl (rw (done, e) h)
            | inr (p, e) ↦
                let a = prepare_sound c.registry c.unmarshal_meta seen p e in
                elim (law.create t.received_at p h a (storable seen p reaches a)) [
                  | inl same ↦ inl (rw (done, e) same)
                  | inr added ↦
                      let stands : StandsFor (serve c t req st).1.submissions
                          (log ++ kept t.received_at p ∷ []) =
                        rw (done, e) added in
                      inr (
                        kept t.received_at p,
                        stands,
                        record {
                          before = st;
                          reached = reached;
                          t = t;
                          req = req;
                          later = started;
                          seen = seen;
                          reaches = reaches;
                          signed_by_key =
                              signed (c.jwt t.now) (auth_config c st) (v t.now)
                                reaches.admitted.parsed;
                          p = p;
                          accepted = a;
                          holding =
                              ap (λ q. q.holding_number) a.params
                              ∙ a.owner
                              ∙ ap (λ q. (client_from_context q).holding_number)
                                  reaches.admitted.handed_on;
                          recorded = refl;
                          ledger = log;
                          stood = h;
                          stands = stands;
                        },
                      )
                ]
          ]

      pub Reachable-IsSound :
          {st : State S}
          → StandsFor start.submissions []
          → (h : Reachable c start st) → StoresAll c start IsStorable h
          → IsSound st
      Reachable-IsSound empty started storable = ([], empty, tt)
      Reachable-IsSound empty (limiter_cleaned now h) storable =
          let (log, stands, submitted) = Reachable-IsSound empty h storable in
          (log, stands, All-IsSubmitted-later (λ from g. limiter_cleaned now g) log submitted)
      Reachable-IsSound empty (revocation_cleaned now h) storable =
          let (log, stands, submitted) = Reachable-IsSound empty h storable in
          (log, stands, All-IsSubmitted-later (λ from g. revocation_cleaned now g) log submitted)
      Reachable-IsSound empty (served {st = st} t req h) (this, storable) =
          let (log, stands, submitted) = Reachable-IsSound empty h storable in
          let earlier = All-IsSubmitted-later (λ from g. served t req g) log submitted in
          elim (serve_change c t req st) [
            | inl same ↦ (log, rw same stands, earlier)
            | inr (seen, reaches, done) ↦
                elim (created-IsSubmitted t req seen h reaches stands this done) [
                  | inl kept_as_is ↦ (log, kept_as_is, earlier)
                  | inr (r, added, s) ↦ (
                    log ++ r ∷ [],
                    added,
                    All-append (IsSubmitted (serve c t req st).1) log (r ∷ []) earlier (s, tt),
                  )
                ]
          ]
