-- ===== src/Server/Stored.antt =====
-- How a request can change the store of the whole server, with the memory backend.
use corncrake.Prelude.{
  ◌≡◌, refl, ◌⊎◌, inl, inr, sym, ap, ◌∙◌, String, Bool, true, false, Bool-cases, ◌==◌, ◌&&◌,
}
use corncrake.SliceSort.{SliceSort, RangeOrder}
use corncrake.Models.{Time, SubmissionRecord, SubmissionSummary}
use corncrake.Store.{CreateParams}
use corncrake.Store.Memory
use corncrake.Store.Memory.{MemoryStore, memory_store}
use corncrake.RateLimit.{RateLimiter}
use corncrake.RateLimit.Limit.{limit, limit_after}
use corncrake.Auth.{string_claim, authenticate}
use corncrake.Auth.Tokens.{Verifies}
use corncrake.Auth.Software.{software_params_iff}
use corncrake.Auth.Admission.{Admits, authenticate_iff, SignedByKey, signed}
use corncrake.Http.{Request, Checked, deny, pass, client_from_context}
use corncrake.Http.Checks.{>>=-eq-pass, pass-injective, Checked-cases}
use corncrake.Handlers.Submissions.{create}
use corncrake.Handlers.Submissions.Create.{Accepted, outcome_cases}
use corncrake.Server.{
  Endpoint, create_endpoint, submission_endpoint, run_endpoint, list_endpoint, periods_endpoint,
  lookup_endpoint, health_endpoint, Routed, routed, no_route, wrong_method, Clock, Config, State,
  enforce_https, auth_config, is_plain_http, run_handler, admit, serve_limited, serve_routed, serve,
}

pub limit-eq-pass :
    (a : Bool × RateLimiter) (req : Request) {seen : Request}
    → (limit_after a req).0 ≡ pass seen
    → seen ≡ req
limit-eq-pass (true, rl) req h = sym (pass-injective h)
limit-eq-pass (false, rl) req h = cc

pub https-eq-pass :
    (getenv : String → String) (req : Request) {seen : Request}
    → enforce_https getenv req ≡ pass seen
    → seen ≡ req
unfolding enforce_https
https-eq-pass getenv req h =
    elim (Bool-cases
      (getenv "APP_ENV" == "production" && is_plain_http (req.header "X-Forwarded-Proto"))) [
        | inl refused ↦ cc (rw refused at h)
        | inr fine ↦ sym (pass-injective (rw fine at h))
      ]

module _ {S PublicKey : Type 0} (c : Config S PublicKey) where
  -- What a handler does to the store: nothing, unless it is `Create`.
  handler_cases :
      (e : Endpoint) (t : Clock) (st : State S) (m : Checked Request)
      → ((run_handler c e t st m).1.submissions ≡ st.submissions)
        ⊎ ((seen : Request) × (e ≡ create_endpoint)
            × (m ≡ pass seen)
            × ((run_handler c e t st m).1.submissions
                ≡ (create c.store c.registry c.unmarshal_meta t.received_at seen st.submissions).1))
  handler_cases e t st (deny r) = inl refl
  handler_cases create_endpoint t st (pass req) = inr (req, refl, refl, refl)
  handler_cases submission_endpoint t st (pass req) = inl refl
  handler_cases run_endpoint t st (pass req) = inl refl
  handler_cases list_endpoint t st (pass req) = inl refl
  handler_cases periods_endpoint t st (pass req) = inl refl
  handler_cases lookup_endpoint t st (pass req) = inl refl
  handler_cases health_endpoint t st (pass req) = inl refl

  -- A request that has come to `Create`: with its token, and as the handler sees it.
  pub record Reaches (t : Clock) (req : Request) (st : State S) (seen : Request) : Type 0 where
    pub params : String → String
    pub to_create : c.route (c.real_ip req) ≡ routed create_endpoint params
    pub admitted :
        Admits (c.jwt t.now) (auth_config c st) (record (c.real_ip req) { url_param = params }) seen

  pub admit-Admits :
      (t : Clock) (st : State S) (a : Bool × RateLimiter) (req seen : Request)
      → admit c create_endpoint t st (limit_after a req).0 ≡ pass seen
      → Admits (c.jwt t.now) (auth_config c st) req seen
  admit-Admits t st a req seen h =
      let (req', l, h₁) = >>=-eq-pass (limit_after a req).0 _ h in
      let (req'', au, h₂) = >>=-eq-pass (authenticate (c.jwt t.now) (auth_config c st) req') _ h₁ in
      let (_, _, same) = (software_params_iff req'' seen).0 h₂ in
      (authenticate_iff (c.jwt t.now) (auth_config c st) req seen).0
        (rw (← limit-eq-pass a req l, same) au)

  limited_cases :
      (e : Endpoint) (t : Clock) (st : State S) (a : Bool × RateLimiter) (req : Request)
      → let after = (serve_limited c e t st (limit_after a req)).1.submissions in
        (after ≡ st.submissions)
        ⊎ ((seen : Request) × (e ≡ create_endpoint)
            × Admits (c.jwt t.now) (auth_config c st) req seen
            × (after
                ≡ (create c.store c.registry c.unmarshal_meta t.received_at seen st.submissions).1))
  limited_cases e t st a req =
      elim (handler_cases e t (record st { limiter = a.1 })
        (admit c e t st (limit_after a req).0)) [
          | inl same ↦ inl same
          | inr (seen, create_only, passed, done) ↦
              inr (seen, create_only, admit-Admits t st a req seen (rw create_only at passed), done)
        ]

  -- What an endpoint behind the limiter does to the store.
  abbrev RoutedChange : Routed → Clock → Request → State S → S → Type 0
  RoutedChange r t req st after =
      (after ≡ st.submissions)
      ⊎ ((params : String → String) × (seen : Request) × (r ≡ routed create_endpoint params)
          × Admits (c.jwt t.now) (auth_config c st) (record req { url_param = params }) seen
          × (after
              ≡ (create c.store c.registry c.unmarshal_meta t.received_at seen st.submissions).1))

  limited_change :
      (e : Endpoint) (params : String → String) (t : Clock) (req : Request) (st : State S)
      → let limited = limit t.now (record req { url_param = params }) st.limiter in
        RoutedChange (routed e params) t req st (serve_limited c e t st limited).1.submissions
  unfolding limit
  limited_change e params t req st =
      elim (limited_cases e t st _ (record req { url_param = params })) [
        | inl same ↦ inl same
        | inr (seen, create_only, admitted, done) ↦
            inr (params, seen, ap (λ x. routed x params) create_only, admitted, done)
      ]

  routed_change :
      (r : Routed) (t : Clock) (req : Request) (st : State S)
      → RoutedChange r t req st (serve_routed c r t req st).1.submissions
  routed_change no_route t req st = inl refl
  routed_change wrong_method t req st = inl refl
  routed_change (routed health_endpoint params) t req st = inl refl
  routed_change (routed create_endpoint params) t req st =
      limited_change create_endpoint params t req st
  routed_change (routed submission_endpoint params) t req st =
      limited_change submission_endpoint params t req st
  routed_change (routed run_endpoint params) t req st = limited_change run_endpoint params t req st
  routed_change (routed list_endpoint params) t req st =
      limited_change list_endpoint params t req st
  routed_change (routed periods_endpoint params) t req st =
      limited_change periods_endpoint params t req st
  routed_change (routed lookup_endpoint params) t req st =
      limited_change lookup_endpoint params t req st

  pub serve_change :
      (t : Clock) (req : Request) (st : State S)
      → ((serve c t req st).1.submissions ≡ st.submissions)
        ⊎ ((seen : Request) × Reaches t req st seen
            × ((serve c t req st).1.submissions
                ≡ (create c.store c.registry c.unmarshal_meta t.received_at seen st.submissions).1))
  unfolding serve
  serve_change t req st = elim (Checked-cases (enforce_https c.getenv (c.real_ip req))) [
    | inl (r, e) ↦ inl (rw e refl)
    | inr (req', e) ↦
        let same : req' ≡ c.real_ip req = https-eq-pass c.getenv (c.real_ip req) e in
        rw (e, same)
          (elim (routed_change (c.route (c.real_ip req)) t (c.real_ip req) st) [
            | inl unchanged ↦ inl unchanged
            | inr (params, seen, there, admitted, done) ↦
                inr (seen, record { params = params; to_create = there; admitted = admitted }, done)
          ])
  ]

module _ {PublicKey : Type 0} (sorter : SliceSort SubmissionSummary)
    (order : RangeOrder (String × SubmissionRecord)) (c : Config MemoryStore PublicKey)
    (v : (now : Time) → Verifies (c.jwt now)) where
  -- Behind a change of the store: a token signed with the configured key, whose holding is the one
  -- that the submission is stored for, and a body that the tenant accepts.
  pub record Submits (t : Clock) (req : Request) (st : State MemoryStore) (after : MemoryStore)
      : Type 0 where
    pub seen : Request
    pub reaches : Reaches c t req st seen
    pub signed_by_key :
        SignedByKey (c.jwt t.now) (auth_config c st) (v t.now) reaches.admitted.token
    pub p : CreateParams
    pub accepted : Accepted c.registry c.unmarshal_meta seen p
    pub holding : p.holding_number ≡ string_claim reaches.admitted.claims "holdingNumber"
    pub stored : after ≡ (Memory.create t.received_at p st.submissions).1

  -- Whatever a request is, it leaves the memory store as it was, unless it comes to `Create` with a
  -- token that is signed with the configured key and not revoked, for the holding that the token
  -- claims, with a body that passes the tenant's checks; then the store does its `Create` on it.
  pub store_guarded :
      (t : Clock) (req : Request) (st : State MemoryStore)
      → c.store ≡ memory_store sorter order
      → ((serve c t req st).1.submissions ≡ st.submissions)
        ⊎ Submits t req st (serve c t req st).1.submissions
  store_guarded t req st backend = elim (serve_change c t req st) [
    | inl same ↦ inl same
    | inr (seen, reaches, done) ↦
        let in_memory =
          done
          ∙ ap
              (λ store.
                (create store c.registry c.unmarshal_meta t.received_at seen st.submissions).1)
              backend in
        elim (outcome_cases c.registry c.unmarshal_meta sorter order t.received_at seen
          st.submissions) [
            | inl (p, accepted, _, stored) ↦ inr (record {
              seen = seen;
              reaches = reaches;
              signed_by_key =
                  signed (c.jwt t.now) (auth_config c st) (v t.now) reaches.admitted.parsed;
              p = p;
              accepted = accepted;
              holding =
                  ap (λ q. q.holding_number) accepted.params
                  ∙ accepted.owner
                  ∙ ap (λ q. (client_from_context q).holding_number) reaches.admitted.handed_on;
              stored = in_memory ∙ stored;
            })
            | inr (r, refused, _, _) ↦ inl (in_memory ∙ ap (λ x. x.1) refused)
          ]
  ]
