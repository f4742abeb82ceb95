-- ===== src/Revocation/Lasting.antt =====
-- How long a token stays revoked.
use mathlib.Core.Bool.{false≢true}
use corncrake.Prelude.{
  ◌≡◌, refl, ◌≢◌, ◌≤◌, ◌⊎◌, ◌↔◌, inl, inr, sym, ap, ◌∙◌, String, true, Option, none, some, List, [],
  ◌∷◌, ◌++◌, arith, ltb, All, Bool-cases, Option-cases, ◌==◌, eq_iff, eq_refl, eq-false_of_ne,
  if◌then◌else◌,
}
use corncrake.GoMap
use corncrake.GoMap.{map_laws}
use corncrake.Models.{Time}
use corncrake.Revocation.{RevocationStore, new_revocation_store, revoke, is_revoked, cleanup}

pub data Event : Type 0 where
  revocation : String → Time → Event
  tick : Time → Event

abbrev pub step : Event → RevocationStore → RevocationStore
step (revocation jti expiry) rs = revoke jti expiry rs
step (tick now) rs = cleanup now rs

pub run : List Event → RevocationStore → RevocationStore
run [] rs = rs
run (e ∷ es) rs = run es (step e rs)

-- An event that leaves a revocation standing: a tick that is not past the expiry, or a revocation of
-- another token.
abbrev pub Spares : String → Time → Event → Type 0
Spares jti expiry (revocation other _) = other ≢ jti
Spares jti expiry (tick now) = now ≤ expiry

-- A revocation of the token, with nothing behind it that would undo or replace it.
pub record Standing (jti : String) (es : List Event) : Type 0 where
  pub before : List Event
  pub expiry : Time
  pub behind : List Event
  pub split : es ≡ before ++ revocation jti expiry ∷ behind
  pub spared : All (Spares jti expiry) behind

-- The token is in the store, and stays there.
record Held (jti : String) (es : List Event) (rs : RevocationStore) : Type 0 where
  expiry : Time
  stored : GoMap.get rs.items jti ≡ some expiry
  spared : All (Spares jti expiry) es

get-step :
    (jti : String) (e : Event) (rs : RevocationStore)
    → GoMap.get (step e rs).items jti ≡ elim e [
      | revocation other expiry ↦ if other == jti then some expiry else GoMap.get rs.items jti
      | tick now ↦ GoMap.drop_if (λ expiry. ltb expiry now) (GoMap.get rs.items jti)
    ]
unfolding revoke cleanup
get-step jti (revocation other expiry) rs = simp map_laws refl
get-step jti (tick now) rs = simp map_laws refl

drop_if-eq-some :
    (now : Time) (o : Option Time) (expiry : Time)
    → GoMap.drop_if (λ e. ltb e now) o ≡ some expiry
    → (o ≡ some expiry) × (now ≤ expiry)
drop_if-eq-some now none expiry h = cc
drop_if-eq-some now (some e) expiry h = elim (Bool-cases (ltb e now)) [
  | inl gone ↦ cc (rw gone at h)
  | inr stays ↦ let same : some e ≡ some expiry = rw stays at h in (same, ground arith)
]

keeps :
    (now expiry : Time) → now ≤ expiry → GoMap.drop_if (λ e. ltb e now) (some expiry) ≡ some expiry
keeps now expiry late = ground arith

same_event :
    (other jti : String) (expiry expiry' : Time) (es : List Event)
    → other ≡ jti
    → some expiry ≡ some expiry'
    → revocation other expiry ∷ es ≡ revocation jti expiry' ∷ es
same_event other jti expiry expiry' es same found = cc

Held-step :
    (jti : String) (e : Event) (es : List Event) (rs : RevocationStore)
    → Held jti (e ∷ es) rs
    → Held jti es (step e rs)
Held-step jti (revocation other at_) es rs h = record {
  expiry = h.expiry;
  stored =
      get-step jti (revocation other at_) rs ∙ rw (eq-false_of_ne other jti h.spared.0) h.stored;
  spared = h.spared.1;
}
Held-step jti (tick now) es rs h = record {
  expiry = h.expiry;
  stored = get-step jti (tick now) rs ∙ rw h.stored (keeps now h.expiry h.spared.0);
  spared = h.spared.1;
}

step-Held :
    (jti : String) (e : Event) (es : List Event) (rs : RevocationStore)
    → Held jti es (step e rs)
    → Standing jti (e ∷ es) ⊎ Held jti (e ∷ es) rs
step-Held jti (revocation other expiry) es rs h = elim (Bool-cases (other == jti)) [
  | inl same ↦
      let found : some expiry ≡ some h.expiry =
        rw same at (sym (get-step jti (revocation other expiry) rs) ∙ h.stored) in
      inl (record {
        before = [];
        expiry = h.expiry;
        behind = es;
        split = same_event other jti expiry h.expiry es ((eq_iff other jti).0 same) found;
        spared = h.spared;
      })
  | inr differs ↦ inr (record {
    expiry = h.expiry;
    stored = rw differs at (sym (get-step jti (revocation other expiry) rs) ∙ h.stored);
    spared = ((λ e. false≢true (sym differs ∙ (eq_iff other jti).1 e)), h.spared);
  })
]
step-Held jti (tick now) es rs h =
    let (stored, late) =
      drop_if-eq-some now (GoMap.get rs.items jti) h.expiry
        (sym (get-step jti (tick now) rs) ∙ h.stored) in
    inr (record { expiry = h.expiry; stored = stored; spared = (late, h.spared) })

Standing-tail :
    (jti : String) (e : Event) (es before behind : List Event) (rs : RevocationStore)
    (expiry : Time)
    → e ∷ es ≡ before ++ revocation jti expiry ∷ behind
    → All (Spares jti expiry) behind
    → Standing jti es ⊎ Held jti es (step e rs)
Standing-tail jti e es [] behind rs expiry split spared =
    let head : e ≡ revocation jti expiry = cc in
    let rest : es ≡ behind = cc in
    inr (record {
      expiry = expiry;
      stored = rw head (get-step jti (revocation jti expiry) rs ∙ rw (eq_refl jti) refl);
      spared = rw rest spared;
    })
Standing-tail jti e es (b ∷ before) behind rs expiry split spared =
    inl (record { before = before; expiry = expiry; behind = behind; split = cc; spared = spared })

Standing-cons :
    (jti : String) (e : Event) (es : List Event) → Standing jti es → Standing jti (e ∷ es)
Standing-cons jti e es s = record {
  before = e ∷ s.before;
  expiry = s.expiry;
  behind = s.behind;
  split = ap (λ rest. e ∷ rest) s.split;
  spared = s.spared;
}

nil-ne-append_cons : {A : Type 0} (xs ys : List A) (y : A) → [] ≡ xs ++ y ∷ ys → ⊥
nil-ne-append_cons [] ys y e = cc
nil-ne-append_cons (x ∷ xs) ys y e = cc

is_present-get :
    (jti : String) (rs : RevocationStore)
    → (is_revoked jti rs ≡ true) ↔ ((expiry : Time) × (GoMap.get rs.items jti ≡ some expiry))
unfolding is_revoked
is_present-get jti rs = elim (Option-cases (GoMap.get rs.items jti)) [
  | inl missing ↦ (λ h. cc (rw missing at h), λ (x, e). cc (rw missing at e))
  | inr (x, e) ↦ (λ h. (x, e), λ h. rw e refl)
]

is_revoked-run :
    (jti : String) (es : List Event) (rs : RevocationStore)
    → (is_revoked jti (run es rs) ≡ true) ↔ (Standing jti es ⊎ Held jti es rs)
unfolding run
is_revoked-run jti [] rs =
    let (to, from) = is_present-get jti rs in
    (
      λ h. let (x, e) = to h in inr (record { expiry = x; stored = e; spared = tt }),
      λ h. elim h [
        | inl s ↦ absurd (nil-ne-append_cons s.before s.behind (revocation jti s.expiry) s.split)
        | inr k ↦ from (k.expiry, k.stored)
      ],
    )
is_revoked-run jti (e ∷ es) rs =
    let (to, from) = is_revoked-run jti es (step e rs) in
    (
      λ h. elim (to h) [ inl s ↦ inl (Standing-cons jti e es s) | inr k ↦ step-Held jti e es rs k ],
      λ h. elim h [
        | inl s ↦ from (Standing-tail jti e es s.before s.behind rs s.expiry s.split s.spared)
        | inr k ↦ from (inr (Held-step jti e es rs k))
      ],
    )

-- Whatever is revoked and swept from a new store on, a token counts as revoked exactly when some
-- revocation of it stands: no later tick is past the expiry it gave, and no later revocation of the
-- same token replaces it.
pub is_revoked_iff :
    (jti : String) (es : List Event)
    → (is_revoked jti (run es new_revocation_store) ≡ true) ↔ Standing jti es
is_revoked_iff jti es =
    let (to, from) = is_revoked-run jti es new_revocation_store in
    (
      λ h. elim (to h) [ inl s ↦ s | inr k ↦ cc (sym (GoMap.get-empty jti) ∙ k.stored) ],
      λ s. from (inl s),
    )
