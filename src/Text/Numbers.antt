-- ===== src/Text/Numbers.antt =====
-- `strconv.Atoi` with its error dropped, and the `%d` of `fmt` for a number that is not negative.
use Prim.Native.Char.{Char, code}
use corncrake.Prelude.{
  ℕ, zero, suc, ◌+◌, ◌-◌, ◌*◌, ◌/◌, ◌%◌, ◌^◌, ◌<◌, ◌≤◌, ◌≡◌, refl, ap, ◌∙◌, inl, inr, Bool-cases,
  ltb→lt, String, Bool, true, false, ◌||◌, List, [], ◌∷◌, arith, leb, ltb, eqb, if◌then◌else◌,
}
use corncrake.Prelude.Int.{ℤ, pos, negsuc, sub_ℕ, FitsInt}
use corncrake.Text.{codes, ◌<>◌}

abbrev digit : ℕ → Char
digit zero = "0"
digit (suc zero) = "1"
digit (suc (suc zero)) = "2"
digit (suc (suc (suc zero))) = "3"
digit (suc (suc (suc (suc zero)))) = "4"
digit (suc (suc (suc (suc (suc zero))))) = "5"
digit (suc (suc (suc (suc (suc (suc zero)))))) = "6"
digit (suc (suc (suc (suc (suc (suc (suc zero))))))) = "7"
digit (suc (suc (suc (suc (suc (suc (suc (suc zero)))))))) = "8"
digit _ = "9"

-- The digits of `n` in front of `rest`; `n` itself is fuel enough.
itoa_loop : ℕ → ℕ → String → String
itoa_loop zero n rest = String.◌∷◌ (digit (n % 10)) rest
itoa_loop (suc fuel) n rest = elim (ltb n 10) [
  | true ↦ String.◌∷◌ (digit n) rest
  | false ↦ itoa_loop fuel (n / 10) (String.◌∷◌ (digit (n % 10)) rest)
]

unfoldable pub itoa : ℕ → String
unfolding itoa_loop
itoa n = itoa_loop n n ""

-- `%d` of an `int`.
unfoldable pub itoa_int : ℤ → String
unfolding itoa
itoa_int (pos n) = itoa n
itoa_int (negsuc n) = "-" <> itoa (suc n)

-- The outcome of `strconv.ParseUint` in base 10 and 64 bits.
pub data Scan : Type 0 where
  number : ℕ → Scan
  syntax range : Scan

-- Its loop stops at the first character that is no digit, or where the number outgrows 64 bits.
scan : ℕ → List ℕ → Scan
scan n [] = number n
scan n (c ∷ s) =
    let n' = n * 10 + (c - b'0') in
    let rest = scan n' s in
    if ltb c b'0' || ltb b'9' c then syntax else if leb (2 ^ 64) n' then range else rest

abbrev magnitude : List ℕ → Scan
magnitude [] = syntax
magnitude (c ∷ s) = scan 0 (c ∷ s)

-- `strconv.ParseInt` cuts a number that is out of range to the nearest `int`.
abbrev signed : Bool → Scan → ℤ
signed negative syntax = pos 0
signed false range = pos (2 ^ 63 - 1)
signed true range = negsuc (2 ^ 63 - 1)
signed false (number n) = if leb (2 ^ 63) n then pos (2 ^ 63 - 1) else pos n
signed true (number n) = if ltb (2 ^ 63) n then negsuc (2 ^ 63 - 1) else sub_ℕ 0 n

atoi : List ℕ → ℤ
unfolding scan
atoi [] = pos 0
atoi (c ∷ s) =
    if eqb c b'-'
    then signed true (magnitude s)
    else if eqb c b'+'
    then signed false (magnitude s)
    else signed false (magnitude (c ∷ s))

-- `n, _ := strconv.Atoi(s)`
unfoldable pub must_int : String → ℤ
unfolding atoi
must_int s = atoi (codes s)

signed-FitsInt : (negative : Bool) (r : Scan) → FitsInt (signed negative r)
signed-FitsInt true (number n) = ground arith
signed-FitsInt false (number n) = ground arith
signed-FitsInt true syntax = omega arith
signed-FitsInt true range = omega arith
signed-FitsInt false syntax = omega arith
signed-FitsInt false range = omega arith

atoi-FitsInt : (s : List ℕ) → FitsInt (atoi s)
unfolding atoi
atoi-FitsInt [] = omega arith
atoi-FitsInt (c ∷ s) = ground (
  arith,
  signed-FitsInt true (magnitude s),
  signed-FitsInt false (magnitude s),
  signed-FitsInt false (magnitude (c ∷ s)),
)

-- Whatever the text, the number read from it is an `int`.
pub must_int-FitsInt : (s : String) → FitsInt (must_int s)
unfolding must_int
must_int-FitsInt s = atoi-FitsInt (codes s)

-- What `scan` reads from the digits of a number: it shifts what it has by so many places.
digit_code : (d : ℕ) → d < 10 → code (digit d) ≡ d + b'0'
digit_code zero h = refl
digit_code (suc zero) h = refl
digit_code (suc (suc zero)) h = refl
digit_code (suc (suc (suc zero))) h = refl
digit_code (suc (suc (suc (suc zero)))) h = refl
digit_code (suc (suc (suc (suc (suc zero))))) h = refl
digit_code (suc (suc (suc (suc (suc (suc zero)))))) h = refl
digit_code (suc (suc (suc (suc (suc (suc (suc zero))))))) h = refl
digit_code (suc (suc (suc (suc (suc (suc (suc (suc zero)))))))) h = refl
digit_code (suc (suc (suc (suc (suc (suc (suc (suc (suc n))))))))) h = omega arith

scan-digit :
    (n d : ℕ) (s : List ℕ)
    → d < 10
    → n * 10 + d < 2 ^ 64
    → scan n (code (digit d) ∷ s) ≡ scan (n * 10 + d) s
unfolding scan
scan-digit n d s h fits =
    rw (digit_code d h)
      (let same : n * 10 + (d + 48 - 48) ≡ n * 10 + d = omega arith in rw same (ground arith))

scan-itoa_loop :
    (fuel n : ℕ) (rest : String)
    → n ≤ fuel
    → n < 2 ^ 64
    → scan 0 (codes (itoa_loop fuel n rest)) ≡ scan n (codes rest)
unfolding itoa_loop
scan-itoa_loop zero n rest h fits =
    scan-digit 0 (n % 10) (codes rest) (omega arith) (omega arith)
    ∙ ap (λ m. scan m (codes rest)) (omega arith)
scan-itoa_loop (suc fuel) n rest h fits = elim (Bool-cases (ltb n 10)) [
  | inl e ↦
      rw (e, itoa_loop)
        (scan-digit 0 n (codes rest) (ltb→lt n 10 e) (omega arith)
          ∙ ap (λ m. scan m (codes rest)) (omega arith))
  | inr e ↦
      let large : 10 ≤ n = ground arith in
      rw (e, itoa_loop)
        (scan-itoa_loop fuel (n / 10) (String.◌∷◌ (digit (n % 10)) rest) (omega arith) (omega arith)
          ∙ scan-digit (n / 10) (n % 10) (codes rest) (omega arith) (omega arith)
          ∙ ap (λ m. scan m (codes rest)) (omega arith))
]

atoi-digit :
    (d : ℕ) (s : List ℕ)
    → d < 10
    → atoi (code (digit d) ∷ s) ≡ signed false (scan 0 (code (digit d) ∷ s))
unfolding atoi
atoi-digit d s h = rw (digit_code d h) (ground arith)

-- The first character of the digits is no sign, so that all of them are scanned.
atoi-itoa_loop :
    (fuel n : ℕ) (rest : String)
    → atoi (codes (itoa_loop fuel n rest)) ≡ signed false (scan 0 (codes (itoa_loop fuel n rest)))
unfolding atoi itoa_loop
atoi-itoa_loop zero n rest = atoi-digit (n % 10) (codes rest) (omega arith)
atoi-itoa_loop (suc fuel) n rest = elim (Bool-cases (ltb n 10)) [
  | inl e ↦ rw (e, itoa_loop) (atoi-digit n (codes rest) (ltb→lt n 10 e))
  | inr e ↦ rw (e, itoa_loop) (atoi-itoa_loop fuel (n / 10) (String.◌∷◌ (digit (n % 10)) rest))
]

-- Reading back what `%d` has printed gives the number, for every `int` that is not negative.
pub must_int-itoa : (n : ℕ) → n < 2 ^ 63 → must_int (itoa n) ≡ pos n
unfolding must_int itoa
must_int-itoa n fits =
    atoi-itoa_loop n n ""
    ∙ ap (signed false) (scan-itoa_loop n n "" (omega arith) (omega arith))
    ∙ unfold scan in ground arith
