-- ===== src/Ehecs/Ppsn.antt =====
-- The regular expression `^[0-9]{7}[A-Z]{1,2}$` of ehecs.go, as a matcher and as what it means.
use corncrake.Prelude.{
  ℕ, zero, suc, ◌≤◌, ◌≡◌, refl, ◌↔◌, ap, String, Bool, true, false, ◌&&◌, List, [], ◌∷◌, ◌++◌,
  arith, leb, All, length,
}
use corncrake.Text.{codes}

abbrev pub is_digit : ℕ → Bool
is_digit c = leb b'0' c && leb c b'9'

abbrev pub is_upper : ℕ → Bool
is_upper c = leb b'A' c && leb c b'Z'

-- `[A-Z]{1,2}$`
match_letters : List ℕ → Bool
match_letters (a ∷ []) = is_upper a
match_letters (a ∷ b ∷ []) = is_upper a && is_upper b
match_letters _ = false

-- `[0-9]{n}[A-Z]{1,2}$`
match_digits : ℕ → List ℕ → Bool
match_digits zero s = match_letters s
match_digits (suc n) [] = false
match_digits (suc n) (c ∷ s) = is_digit c && match_digits n s

unfoldable pub match_ppsn : String → Bool
unfolding match_digits match_letters
match_ppsn s = match_digits 7 (codes s)

-- So many digits, and then one or two capital letters.
pub record IsPpsn (n : ℕ) (s : List ℕ) : Type 0 where
  pub digits : List ℕ
  pub letters : List ℕ
  pub split : s ≡ digits ++ letters
  pub count : length digits ≡ n
  pub some_letters : 1 ≤ length letters
  pub few_letters : length letters ≤ 2
  pub are_digits : All (λ c. is_digit c ≡ true) digits
  pub are_upper : All (λ c. is_upper c ≡ true) letters

match_letters_sound : (s : List ℕ) → match_letters s ≡ true → IsPpsn 0 s
unfolding match_letters
match_letters_sound (a ∷ []) h = record {
  digits = [];
  letters = a ∷ [];
  split = refl;
  count = refl;
  some_letters = omega arith;
  few_letters = omega arith;
  are_digits = tt;
  are_upper = (h, tt);
}
match_letters_sound (a ∷ b ∷ []) h = record {
  digits = [];
  letters = a ∷ b ∷ [];
  split = refl;
  count = refl;
  some_letters = omega arith;
  few_letters = omega arith;
  are_digits = tt;
  are_upper = ground arith;
}
match_letters_sound _ h = cc

match_digits_sound : (n : ℕ) (s : List ℕ) → match_digits n s ≡ true → IsPpsn n s
unfolding match_digits
match_digits_sound zero s h = match_letters_sound s h
match_digits_sound (suc n) [] h = cc
match_digits_sound (suc n) (c ∷ s) h =
    let p = match_digits_sound n s (ground arith) in
    record {
      digits = c ∷ p.digits;
      letters = p.letters;
      split = ap (λ t. c ∷ t) p.split;
      count = ap suc p.count;
      some_letters = p.some_letters;
      few_letters = p.few_letters;
      are_digits = (ground arith, p.are_digits);
      are_upper = p.are_upper;
    }

match_letters_complete :
    (s : List ℕ)
    → 1 ≤ length s
    → length s ≤ 2
    → All (λ c. is_upper c ≡ true) s
    → match_letters s ≡ true
unfolding match_letters
match_letters_complete [] h k a = absurd (omega arith)
match_letters_complete (a ∷ []) h k u = u.0
match_letters_complete (a ∷ b ∷ []) h k u = rw (u.0, u.1.0) refl
match_letters_complete (a ∷ b ∷ c ∷ s) h k u = absurd (omega arith)

match_digits_complete :
    (ds ls : List ℕ)
    → All (λ c. is_digit c ≡ true) ds
    → match_letters ls ≡ true
    → match_digits (length ds) (ds ++ ls) ≡ true
unfolding match_digits
match_digits_complete [] ls a m = m
match_digits_complete (d ∷ ds) ls (e, a) m = rw e (match_digits_complete ds ls a m)

-- The pattern is matched by just the texts of seven digits and one or two capital letters.
pub match_ppsn_iff : (s : String) → (match_ppsn s ≡ true) ↔ IsPpsn 7 (codes s)
unfolding match_ppsn
match_ppsn_iff s = (
  match_digits_sound 7 (codes s),
  λ p.
      rw (p.split, ← p.count)
        (match_digits_complete p.digits p.letters p.are_digits
          (match_letters_complete p.letters p.some_letters p.few_letters p.are_upper)),
)
