-- ===== src/Ehecs/Lookups/Search.antt =====
-- What a search of the occupation codes finds.
use mathlib.Core.Bool.{false≢true}
use corncrake.Prelude.{
  ℕ, ◌≡◌, refl, ◌↔◌, ◌⊎◌, inl, inr, sym, ap, String, Bool, true, false, ◌||◌, some, List, [], ◌∷◌,
  ◌++◌, map, arith, keep, keep_all, keep_congr, length, Bool-cases, Bool-ext,
}
use corncrake.Prelude.Int.{pos}
use corncrake.Text.{codes, starts, contains}
use corncrake.Text.Numbers.{itoa_int}
use corncrake.Tenant.{codes_data}
use corncrake.Ehecs.Codes.{OccupationCode, occupation_codes}
use corncrake.Ehecs.Lookups.{codes_eqb, is_found, search_codes, lookup}

starts_iff : (p s : List ℕ) → (starts p s ≡ true) ↔ ((post : List ℕ) × (s ≡ p ++ post))
starts_iff [] s = ((λ h. (s, refl)), (λ h. refl))
starts_iff (c ∷ p) [] = ((λ h. cc), (λ (post, e). cc))
starts_iff (c ∷ p) (d ∷ s) =
    let (to, from) = starts_iff p s in
    (
      λ h. let (post, e) = to (ground arith) in (post, ground arith),
      λ (post, e). ground (arith, from (post, ground arith)),
    )

-- `sub` stands somewhere in `s`.
pub record Occurs (sub s : List ℕ) : Type 0 where
  pub before : List ℕ
  pub behind : List ℕ
  pub split : s ≡ before ++ (sub ++ behind)

contains_sound : (s sub : List ℕ) → contains s sub ≡ true → Occurs sub s
contains_sound [] sub h =
    let (post, e) = (starts_iff sub []).0 h in record { before = []; behind = post; split = e }
contains_sound (c ∷ s) sub h = elim (Bool-cases (starts sub (c ∷ s))) [
  | inl at_once ↦
      let (post, e) = (starts_iff sub (c ∷ s)).0 at_once in
      record { before = []; behind = post; split = e }
  | inr later ↦
      let o = contains_sound s sub (rw later at h) in
      record { before = c ∷ o.before; behind = o.behind; split = ap (λ t. c ∷ t) o.split }
]

contains_at_once : (s sub : List ℕ) → starts sub s ≡ true → contains s sub ≡ true
contains_at_once [] sub h = h
contains_at_once (c ∷ s) sub h = rw h refl

or_true : (b : Bool) → (b || true) ≡ true
or_true b = ground arith

contains_complete : (before sub behind : List ℕ) → contains (before ++ (sub ++ behind)) sub ≡ true
contains_complete [] sub behind =
    contains_at_once (sub ++ behind) sub ((starts_iff sub _).1 (behind, refl))
contains_complete (c ∷ before) sub behind = rw (contains_complete before sub behind) (or_true _)

-- `strings.Contains` finds just the texts that occur.
pub contains_iff : (s sub : List ℕ) → (contains s sub ≡ true) ↔ Occurs sub s
contains_iff s sub =
    (contains_sound s sub, λ o. rw o.split (contains_complete o.before sub o.behind))

codes_eqb_iff : (s t : List ℕ) → (codes_eqb s t ≡ true) ↔ (s ≡ t)
unfolding codes_eqb
codes_eqb_iff [] [] = ground arith
codes_eqb_iff [] (b ∷ t) = ground arith
codes_eqb_iff (a ∷ s) [] = ground arith
codes_eqb_iff (a ∷ s) (b ∷ t) = ground (arith, codes_eqb_iff s t)

or_iff :
    {P Q : Type 0} (a b : Bool)
    → (a ≡ true → P)
    → (P → a ≡ true)
    → (b ≡ true → Q)
    → (Q → b ≡ true)
    → ((a || b) ≡ true) ↔ (P ⊎ Q)
or_iff true b p p' q q' = ((λ h. inl (p refl)), (λ h. refl))
or_iff false b p p' q q' =
    ((λ h. inr (q h)), (λ h. elim h [ inl x ↦ absurd (false≢true (p' x)) | inr y ↦ q' y ]))

module _ (lower : ℕ → ℕ) where
  -- A code is wanted if the search is empty, occurs in the label, in lower case, or is the number.
  abbrev pub IsWanted : List ℕ → OccupationCode → Type 0
  IsWanted search c =
      (search ≡ [])
      ⊎ (Occurs search (map lower (codes c.label)) ⊎ (codes (itoa_int c.code) ≡ search))

  is_found_iff :
      (search : List ℕ) (c : OccupationCode)
      → (is_found lower search c ≡ true)
        ↔ (Occurs search (map lower (codes c.label)) ⊎ (codes (itoa_int c.code) ≡ search))
  unfolding is_found
  is_found_iff search c =
      let (to, from) = contains_iff (map lower (codes c.label)) search in
      let (same, back) = codes_eqb_iff (codes (itoa_int c.code)) search in
      or_iff _ _ to from same back

  not_empty : {d : ℕ} {search : List ℕ} {P : Type 0} → (d ∷ search ≡ []) ⊎ P → P
  not_empty (inl e) = cc
  not_empty (inr p) = p

  pub is_found-IsWanted :
      (d : ℕ) (search : List ℕ) (c : OccupationCode)
      → (is_found lower (d ∷ search) c ≡ true) ↔ IsWanted (d ∷ search) c
  is_found-IsWanted d search c =
      let (to, from) = is_found_iff (d ∷ search) c in ((λ e. inr (to e)), (λ h. from (not_empty h)))

  wanted-eq-search :
      (search : List ℕ) (wanted : OccupationCode → Bool)
      → ((c : OccupationCode) → (wanted c ≡ true) ↔ IsWanted search c)
      → search_codes lower search ≡ keep wanted occupation_codes
  wanted-eq-search [] wanted decides =
      sym (keep_all wanted occupation_codes (λ c. (decides c).1 (inl refl)))
  wanted-eq-search (d ∷ search) wanted decides =
      keep_congr (is_found lower (d ∷ search)) wanted occupation_codes λ c.
        let (to, from) = is_found-IsWanted d search c in
        Bool-ext _ _ (λ e. (decides c).1 (to e)) (λ e. from ((decides c).0 e))

  -- The lookup `occupation-codes` returns the wanted codes of the list, in its order, with their
  -- number: `wanted` is any test for the codes that the query's `search` asks for.
  pub lookup-codes :
      (query : String → String) (wanted : OccupationCode → Bool)
      → ((c : OccupationCode) → (wanted c ≡ true) ↔ IsWanted (map lower (codes (query "search"))) c)
      → lookup lower "occupation-codes" query
        ≡ some
            (codes_data (keep wanted occupation_codes), pos (length (keep wanted occupation_codes)))
  unfolding lookup
  lookup-codes query wanted decides =
      ap (λ found. some (codes_data found, pos (length found)))
        (wanted-eq-search (map lower (codes (query "search"))) wanted decides)
