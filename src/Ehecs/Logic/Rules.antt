-- ===== src/Ehecs/Logic/Rules.antt =====
-- The business rules of the survey, and that the two validators together enforce them.
use corncrake.Prelude.{
  ℕ, ◌+◌, ◌≡◌, refl, ◌↔◌, ◌⊎◌, Bool, true, false, ◌&&◌, List, [], ◌∷◌, arith, All, All-imp, sym,
  ◌∙◌,
}
use corncrake.Models.{RawMessage}
use corncrake.Ehecs.Types.{
  basic_hours_quarterly_cap, Runtime, IsTotal, Employee, SubmissionBody, Decoded, decoded,
  malformed,
}
use corncrake.Ehecs.Schema.{validate_schema}
use corncrake.Ehecs.Schema.Conforms.{when-eq-nil_iff, append-eq-nil_iff, ConformsEmployee, Conforms}
use corncrake.Ehecs.Schema.Decides.{validate_schema_iff, decoded-injective}
use corncrake.Ehecs.Logic.{
  overtime_without_hours, logic_errors_of, logic_loop, logic_of_decoded, validate_logic,
}

module _ {F : Type 0} (r : Runtime F) where
  -- `x` is at most `y`, for numbers that are no NaN.
  abbrev pub AtMost : F → F → Type 0
  AtMost x y = r.lt y x ≡ false

  pub record Obeys (emp : Employee F) : Type 0 where
    pub overtime :
        (r.lt (r.literal 0) emp.overtime_pay ≡ false)
        ⊎ (r.eq emp.overtime_hours (r.literal 0) ≡ false)
    pub earnings : AtMost emp.overtime_pay emp.gross_earnings
    pub hours : AtMost emp.basic_hours (basic_hours_quarterly_cap r)

  and_false : (a b : Bool) → ((a && b) ≡ false) ↔ ((a ≡ false) ⊎ (b ≡ false))
  and_false a b = ground arith

  Obeys-iff : (i : ℕ) (emp : Employee F) → (logic_errors_of r i emp ≡ []) ↔ Obeys emp
  unfolding logic_errors_of
  Obeys-iff i emp = (
    λ h.
        let (a, h₁) = (when-eq-nil_iff (overtime_without_hours r emp) _ _).0 h in
        let (b, h₂) = (when-eq-nil_iff (r.lt emp.gross_earnings emp.overtime_pay) _ _).0 h₁ in
        record { overtime = (and_false _ _).0 a; earnings = b; hours = ground arith },
    λ o. (when-eq-nil_iff (overtime_without_hours r emp) _ _).1 (
      (and_false _ _).1 o.overtime,
      (when-eq-nil_iff (r.lt emp.gross_earnings emp.overtime_pay) _ _).1
          (o.earnings, rw o.hours refl),
    ),
  )

  logic_loop_iff :
      (i : ℕ) (emps : List (Employee F)) → ((logic_loop r i emps).0 ≡ []) ↔ All Obeys emps
  unfolding logic_loop
  logic_loop_iff i [] = ground arith
  logic_loop_iff i (emp ∷ emps) =
      let (to, from) = append-eq-nil_iff (logic_errors_of r i emp) (logic_loop r (i + 1) emps).0 in
      let (here, back) = Obeys-iff i emp in
      let (rest, again) = logic_loop_iff (i + 1) emps in
      ((λ h. (here (to h).0, rest (to h).1)), (λ h. from (back h.0, again h.1)))

  logic_of_decoded_iff :
      (d : Decoded (SubmissionBody F))
      → ((logic_of_decoded r d).0 ≡ [])
        ↔ ((body : SubmissionBody F) × (d ≡ decoded body) × All Obeys body.employees)
  logic_of_decoded_iff (malformed e) = ((λ h. cc), (λ h. cc h.1))
  logic_of_decoded_iff (decoded body) = (
    λ h. (body, refl, (logic_loop_iff 0 body.employees).0 h),
    λ (b, e, a). (logic_loop_iff 0 body.employees).1 (rw (decoded-injective r e) a),
  )

  -- The logic check reports no error exactly when the body decodes and every employee obeys the
  -- three rules: warnings play no part in it.
  pub validate_logic_iff :
      (raw : RawMessage)
      → ((validate_logic r raw).0 ≡ [])
        ↔ ((body : SubmissionBody F) × (r.unmarshal raw ≡ decoded body) × All Obeys body.employees)
  unfolding validate_logic
  validate_logic_iff raw = logic_of_decoded_iff (r.unmarshal raw)

  -- The published rules, which both checks together are there to enforce.
  pub record MeetsRules (emp : Employee F) : Type 0 where
    pub overtime :
        r.lt (r.literal 0) emp.overtime_pay ≡ true → r.lt (r.literal 0) emp.overtime_hours ≡ true
    pub earnings : AtMost emp.overtime_pay emp.gross_earnings
    pub hours : AtMost emp.basic_hours (basic_hours_quarterly_cap r)

  module _ (total : IsTotal r) where
    MeetsRules-of : (emp : Employee F) → ConformsEmployee r emp → Obeys emp → MeetsRules emp
    MeetsRules-of emp c o = record {
      overtime = λ paid. ground (
        arith,
        total.trichotomy (r.literal 0) emp.overtime_hours,
        total.eq_sym (r.literal 0) emp.overtime_hours,
      );
      earnings = o.earnings;
      hours = o.hours;
    }

    Obeys-of : (emp : Employee F) → MeetsRules emp → Obeys emp
    Obeys-of emp m = record {
      overtime = ground (arith, m.overtime, total.exclusive emp.overtime_hours (r.literal 0));
      earnings = m.earnings;
      hours = m.hours;
    }

    meets_all :
        (emps : List (Employee F))
        → All (ConformsEmployee r) emps
        → All Obeys emps
        → All MeetsRules emps
    meets_all [] c o = tt
    meets_all (emp ∷ emps) (c, cs) (o, os) = (MeetsRules-of emp c o, meets_all emps cs os)

    -- If the comparisons of numbers are those of a total order, both checks pass exactly when the body
    -- decodes to a submission that conforms to the schema and in which every employee meets the
    -- published rules: paid overtime has hours, the gross earnings cover the overtime pay, and the
    -- basic hours stay within 2184. The schema bounds the gross earnings, the basic pay and hours,
    -- the overtime pay and hours and the employer's contribution from below, and no other amount.
    pub validators_iff :
        (raw : RawMessage)
        → ((validate_schema r raw ≡ []) × ((validate_logic r raw).0 ≡ [])) ↔ (
            (body : SubmissionBody F) × (r.unmarshal raw ≡ decoded body)
            × Conforms r body
            × All MeetsRules body.employees)
    validators_iff raw = (
      λ (s, l).
          let (body, e, c) = (validate_schema_iff r raw).0 s in
          let (body', e', o) = (validate_logic_iff raw).0 l in
          let same : body' ≡ body = decoded-injective r (sym e' ∙ e) in
          (body, e, c, meets_all body.employees c.employees (rw same at o)),
      λ (body, e, c, m). (
        (validate_schema_iff r raw).1 (body, e, c),
        (validate_logic_iff raw).1 (body, e, All-imp Obeys-of body.employees m),
      ),
    )
