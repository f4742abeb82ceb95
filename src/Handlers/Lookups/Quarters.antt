-- ===== src/Handlers/Lookups/Quarters.antt =====
-- The periods on offer, by the number of quarters since the year 0.
use corncrake.Prelude.{
  ℕ, zero, suc, ◌+◌, ◌-◌, ◌*◌, ◌/◌, ◌%◌, ◌≤◌, ◌≡◌, refl, inl, inr, List, [], ◌∷◌, map, arith, ltb,
  Bool-cases,
}
use corncrake.Prelude.Int.{pos}
use corncrake.Http.{Period, periods_data, respond, json_with_count}
use corncrake.Handlers.Lookups.{period, period_loop, get_periods, four_digits, two_digits}
use corncrake.Text.{◌<>◌}
use corncrake.Text.Numbers.{itoa}

-- The quarter with a number: its deadline is the 14th of the month that follows it.
abbrev pub quarter_at : ℕ → Period
quarter_at k = record {
  tax_year = k / 4;
  quarter = k % 4 + 1;
  label = "Q" <> itoa (k % 4 + 1) <> " " <> itoa (k / 4);
  deadline =
      four_digits ((3 * (k + 1)) / 12) <> "-" <> two_digits ((3 * (k + 1)) % 12 + 1) <> "-14";
  status = "OPEN";
}

-- So many numbers from one on downwards.
abbrev pub downwards : ℕ → ℕ → List ℕ
downwards zero k = []
downwards (suc n) k = k ∷ downwards n (k - 1)

period-eq-quarter_at : (y q : ℕ) → 1 ≤ q → q ≤ 4 → period y q ≡ quarter_at (4 * y + (q - 1))
period-eq-quarter_at y q lo hi =
    let year : (4 * y + (q - 1)) / 4 ≡ y = omega arith in
    let quarter : (4 * y + (q - 1)) % 4 + 1 ≡ q = omega arith in
    let due_year : (3 * ((4 * y + (q - 1)) + 1)) / 12 ≡ y + (q * 3 + 1 - 1) / 12 = omega arith in
    let due_month : (3 * ((4 * y + (q - 1)) + 1)) % 12 ≡ (q * 3 + 1 - 1) % 12 = omega arith in
    rw (year, quarter, due_year, due_month) refl

period_loop-eq-map :
    (n y q : ℕ)
    → 1 ≤ q
    → q ≤ 4
    → n ≤ y
    → period_loop n y q ≡ map quarter_at (downwards n (4 * y + (q - 1)))
unfolding period_loop
period_loop-eq-map zero y q lo hi room = refl
period_loop-eq-map (suc n) y q lo hi room = elim (Bool-cases (ltb (q - 1) 1)) [
  | inl first ↦
      let before : 4 * (y - 1) + (4 - 1) ≡ 4 * y + (q - 1) - 1 = ground arith in
      let rest = period_loop-eq-map n (y - 1) 4 (omega arith) (omega arith) (omega arith) in
      rw (first, period-eq-quarter_at y q lo hi, rest, before) refl
  | inr later ↦
      let before : 4 * y + (q - 1 - 1) ≡ 4 * y + (q - 1) - 1 = ground arith in
      let rest = period_loop-eq-map n y (q - 1) (ground arith) (omega arith) (omega arith) in
      rw (later, period-eq-quarter_at y q lo hi, rest, before) refl
]

-- In the month `month` of a year from 5 on, the answer lists the quarter of that month and the four
-- before it, each due on the 14th of the month after its end.
pub get_periods_lem :
    (year month : ℕ)
    → 5 ≤ year
    → 1 ≤ month
    → month ≤ 12
    → let current = 4 * year + (month - 1) / 3 in
      get_periods year month
      ≡ respond (json_with_count 200 (periods_data (map quarter_at (downwards 5 current))) (pos 5))
unfolding get_periods
get_periods_lem year month late lo hi =
    let index : 4 * year + ((month - 1) / 3 + 1 - 1) ≡ 4 * year + (month - 1) / 3 = omega arith in
    let loop = period_loop-eq-map 5 year ((month - 1) / 3 + 1) (omega arith) (omega arith) late in
    rw (loop, index) refl
