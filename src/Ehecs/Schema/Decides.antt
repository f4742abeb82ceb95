-- ===== src/Ehecs/Schema/Decides.antt =====
-- The schema validator decides conformance.
use corncrake.Prelude.{
  ℕ, ◌+◌, ◌≤◌, ◌≡◌, refl, ◌↔◌, ◌⊎◌, String, false, not, ◌&&◌, List, [], ◌∷◌, ◌==◌, eq_iff, arith,
  length, All,
}
use corncrake.Prelude.Int.{pos}
use corncrake.Text.{is_blank}
use corncrake.Models.{RawMessage}
use corncrake.Ehecs.Types.{Runtime, Employee, SubmissionBody, Decoded, decoded, malformed}
use corncrake.Ehecs.Ppsn.{match_ppsn, match_ppsn_iff}
use corncrake.Ehecs.Schema.{
  is_employment_type, index, outside, check_amounts, amounts, check_employee, check_employees,
  employee_errors, schema_errors, schema_of_decoded, validate_schema, item_count,
}
use corncrake.Ehecs.Schema.Conforms.{
  when-eq-nil_iff, append-eq-nil_iff, not_iff, blank_iff, employment_type_iff, outside_iff,
  IsAmount, ConformsEmployee, Conforms,
}

module _ {F : Type 0} (r : Runtime F) where
  -- Each check of an employee passes.
  abbrev Passes : Employee F → Type 0
  Passes emp =
      (not (match_ppsn emp.ppsn) ≡ false)
      × (is_blank emp.employment_id ≡ false)
      × (outside (pos 1) (pos 9) emp.occupation_code ≡ false)
      × (not (is_employment_type emp.employment_type) ≡ false)
      × All (λ a. IsAmount r a.0) (amounts r "" emp)

  check_amounts_iff :
      (checks : List (F × String))
      → (check_amounts r checks ≡ []) ↔ All (λ a. IsAmount r a.0) checks
  unfolding check_amounts
  check_amounts_iff [] = ground arith
  check_amounts_iff ((v, f) ∷ checks) =
      let (to, from) = when-eq-nil_iff (r.lt v (r.literal 0)) _ (check_amounts r checks) in
      let (all, back) = check_amounts_iff checks in
      ((λ h. ((to h).0, all (to h).1)), (λ h. from (h.0, back h.1)))

  check_employee_iff : (i : ℕ) (emp : Employee F) → (check_employee r i emp ≡ []) ↔ Passes emp
  unfolding check_employee
  check_employee_iff i emp = (
    λ h.
        let (a, h₁) = (when-eq-nil_iff (not (match_ppsn emp.ppsn)) _ _).0 h in
        let (b, h₂) = (when-eq-nil_iff (is_blank emp.employment_id) _ _).0 h₁ in
        let (c, h₃) = (when-eq-nil_iff (outside (pos 1) (pos 9) emp.occupation_code) _ _).0 h₂ in
        let (d, h₄) = (when-eq-nil_iff (not (is_employment_type emp.employment_type)) _ _).0 h₃ in
        (a, b, c, d, (check_amounts_iff (amounts r (index i) emp)).0 h₄),
    λ p. (when-eq-nil_iff (not (match_ppsn emp.ppsn)) _ _).1 (
      p.0,
      (when-eq-nil_iff (is_blank emp.employment_id) _ _).1 (
        p.1,
        (when-eq-nil_iff (outside (pos 1) (pos 9) emp.occupation_code) _ _).1 (
          p.2,
          (when-eq-nil_iff (not (is_employment_type emp.employment_type)) _ _).1
              (p.3, (check_amounts_iff (amounts r (index i) emp)).1 p.4),
        ),
      ),
    ),
  )

  employee_sound : (emp : Employee F) → Passes emp → ConformsEmployee r emp
  employee_sound emp (a, b, c, d, (e, (f, (g, (h, (j, (k, _))))))) = record {
    ppsn = (match_ppsn_iff emp.ppsn).0 ((not_iff _).0 a);
    employment_id = (blank_iff emp.employment_id).0 b;
    occupation_code = (outside_iff (pos 1) (pos 9) emp.occupation_code).0 c;
    employment_type = (employment_type_iff emp.employment_type).0 ((not_iff _).0 d);
    gross_earnings = e;
    basic_pay = f;
    basic_hours = g;
    overtime_pay = h;
    overtime_hours = j;
    employer_prsi = k;
  }

  employee_complete : (emp : Employee F) → ConformsEmployee r emp → Passes emp
  employee_complete emp c = (
    (not_iff _).1 ((match_ppsn_iff emp.ppsn).1 c.ppsn),
    (blank_iff emp.employment_id).1 c.employment_id,
    (outside_iff (pos 1) (pos 9) emp.occupation_code).1 c.occupation_code,
    (not_iff _).1 ((employment_type_iff emp.employment_type).1 c.employment_type),
    (
      c.gross_earnings,
      (c.basic_pay, (c.basic_hours, (c.overtime_pay, (c.overtime_hours, (c.employer_prsi, tt))))),
    ),
  )

  check_employees_iff :
      (i : ℕ) (emps : List (Employee F))
      → (check_employees r i emps ≡ []) ↔ All (ConformsEmployee r) emps
  unfolding check_employees
  check_employees_iff i [] = ground arith
  check_employees_iff i (emp ∷ emps) =
      let (to, from) =
        append-eq-nil_iff (check_employee r i emp) (check_employees r (i + 1) emps) in
      let (all, back) = check_employees_iff (i + 1) emps in
      let (pass, checked) = check_employee_iff i emp in
      (
        (λ h. (employee_sound emp (pass (to h).0), all (to h).1)),
        (λ h. from (checked (employee_complete emp h.0), back h.1)),
      )

  employee_errors_iff :
      (emps : List (Employee F))
      → (employee_errors r emps ≡ []) ↔ ((1 ≤ length emps) × All (ConformsEmployee r) emps)
  unfolding employee_errors
  employee_errors_iff [] = ((λ h. cc), (λ h. absurd (omega arith)))
  employee_errors_iff (emp ∷ emps) =
      let (to, from) = check_employees_iff 0 (emp ∷ emps) in
      ((λ h. (omega arith, to h)), (λ h. from h.1))

  return_type_iff :
      (t : String)
      → ((not (t == "") && not (t == "ORIGINAL") && not (t == "AMENDED")) ≡ false)
        ↔ (((t ≡ "") ⊎ (t ≡ "ORIGINAL")) ⊎ (t ≡ "AMENDED"))
  return_type_iff t = ground (arith, eq_iff t "", eq_iff t "ORIGINAL", eq_iff t "AMENDED")

  schema_errors_iff : (body : SubmissionBody F) → (schema_errors r body ≡ []) ↔ Conforms r body
  unfolding schema_errors
  schema_errors_iff body = (
    λ h.
        let (a, h₁) = (when-eq-nil_iff (is_blank body.holding_number) _ _).0 h in
        let (b, h₂) = (when-eq-nil_iff (outside (pos 2008) (pos 2099) body.tax_year) _ _).0 h₁ in
        let (c, h₃) = (when-eq-nil_iff (outside (pos 1) (pos 4) body.quarter) _ _).0 h₂ in
        let (d, h₄) = (when-eq-nil_iff _ _ _).0 h₃ in
        let (e, f) = (employee_errors_iff body.employees).0 h₄ in
        record {
          holding_number = (blank_iff body.holding_number).0 a;
          tax_year = (outside_iff (pos 2008) (pos 2099) body.tax_year).0 b;
          quarter = (outside_iff (pos 1) (pos 4) body.quarter).0 c;
          return_type = (return_type_iff body.return_type).0 d;
          some_employee = e;
          employees = f;
        },
    λ c. (when-eq-nil_iff (is_blank body.holding_number) _ _).1 (
      (blank_iff body.holding_number).1 c.holding_number,
      (when-eq-nil_iff (outside (pos 2008) (pos 2099) body.tax_year) _ _).1 (
        (outside_iff (pos 2008) (pos 2099) body.tax_year).1 c.tax_year,
        (when-eq-nil_iff (outside (pos 1) (pos 4) body.quarter) _ _).1 (
          (outside_iff (pos 1) (pos 4) body.quarter).1 c.quarter,
          (when-eq-nil_iff _ _ _).1 (
            (return_type_iff body.return_type).1 c.return_type,
            (employee_errors_iff body.employees).1 (c.some_employee, c.employees),
          ),
        ),
      ),
    ),
  )

  pub decoded-injective : {a b : SubmissionBody F} → decoded a ≡ decoded b → a ≡ b
  decoded-injective e = cc

  decoded_iff :
      (d : Decoded (SubmissionBody F))
      → (schema_of_decoded r d ≡ [])
        ↔ ((body : SubmissionBody F) × (d ≡ decoded body) × Conforms r body)
  decoded_iff (malformed e) = ((λ h. cc), (λ h. cc h.1))
  decoded_iff (decoded body) = (
    λ h. (body, refl, (schema_errors_iff body).0 h),
    λ (b, e, c). (schema_errors_iff body).1 (rw (decoded-injective e) c),
  )

  -- The schema check of a request body reports nothing exactly when the body decodes to a submission
  -- that conforms to the schema.
  pub validate_schema_iff :
      (raw : RawMessage)
      → (validate_schema r raw ≡ [])
        ↔ ((body : SubmissionBody F) × (r.unmarshal raw ≡ decoded body) × Conforms r body)
  unfolding validate_schema
  validate_schema_iff raw = decoded_iff (r.unmarshal raw)

  -- An accepted body has at least one record, and `ItemCount` is the number of its records.
  pub item_count_of_valid :
      (raw : RawMessage)
      → validate_schema r raw ≡ []
      → (body : SubmissionBody F) × (r.unmarshal raw ≡ decoded body)
        × (1 ≤ length body.employees)
        × (item_count r raw ≡ pos (length body.employees))
  unfolding item_count
  item_count_of_valid raw h =
      let (body, e, c) = (validate_schema_iff raw).0 h in (body, e, c.some_employee, rw e refl)
