-- ===== src/Ehecs/Schema.antt =====
-- `ValidateSchema` and `ItemCount` of ehecs.go. The statements that append to `errs` are the parts of
-- a list, in their order.
pub mod Conforms
pub mod Decides
use corncrake.Prelude.{
  ℕ, suc, ◌+◌, String, Bool, true, false, not, ◌&&◌, ◌||◌, List, [], ◌∷◌, ◌++◌, ◌==◌, if◌then◌else◌,
  length,
}
use corncrake.Prelude.Int.{ℤ, pos, ltb_ℤ}
use corncrake.Text.{◌<>◌, is_blank}
use corncrake.Text.Numbers.{itoa, itoa_int}
use corncrake.Models.{RawMessage, ReturnType, ValidationItem}
use corncrake.Ehecs.Types.{
  Runtime, Employee, SubmissionBody, Decoded, decoded, malformed, EmploymentType,
  employment_full_time, employment_part_time, employment_trainee, employment_apprentice,
  employment_other,
}
use corncrake.Ehecs.Ppsn.{match_ppsn}

abbrev pub item : String → String → String → ValidationItem
item code field message = record { code = code; field = field; message = message }

-- `if test { add(…) }`
abbrev pub when : Bool → ValidationItem → List ValidationItem
when test e = if test then e ∷ [] else []

-- The map `validEmploymentTypes`.
abbrev pub is_employment_type : EmploymentType → Bool
is_employment_type t =
    t == employment_full_time
    || t == employment_part_time
    || t == employment_trainee
    || t == employment_apprentice
    || t == employment_other

-- `employees[i]`
abbrev pub index : ℕ → String
index i = "employees[" <> itoa i <> "]"

abbrev pub outside : ℤ → ℤ → ℤ → Bool
outside lo hi x = ltb_ℤ x lo || ltb_ℤ hi x

module _ {F : Type 0} (r : Runtime F) where
  -- The inner loop, over the amounts that must not be negative.
  unfoldable pub check_amounts : List (F × String) → List ValidationItem
  check_amounts [] = []
  check_amounts ((v, f) ∷ checks) =
      when (r.lt v (r.literal 0)) (item "INVALID_VALUE" f (f <> " must be >= 0"))
      ++ check_amounts checks

  abbrev pub amounts : String → Employee F → List (F × String)
  amounts prefix emp =
      (emp.gross_earnings, prefix <> ".grossEarnings")
      ∷ (emp.basic_pay, prefix <> ".basicPay")
      ∷ (emp.basic_hours, prefix <> ".basicHours")
      ∷ (emp.overtime_pay, prefix <> ".overtimePay")
      ∷ (emp.overtime_hours, prefix <> ".overtimeHours")
      ∷ (emp.employer_prsi, prefix <> ".employerPRSI")
      ∷ []

  -- One round of the loop over the employees.
  unfoldable pub check_employee : ℕ → Employee F → List ValidationItem
  unfolding check_amounts
  check_employee i emp =
      let prefix = index i in
      when (not (match_ppsn emp.ppsn)) (
        item "INVALID_FORMAT" (prefix <> ".ppsn") (
          prefix
          <> ".ppsn: must be 7 digits + 1–2 uppercase letters (e.g. 1234567A), got "
          <> r.quote emp.ppsn))
      ++ (when (is_blank emp.employment_id)
            (item "REQUIRED" (prefix <> ".employmentId") (prefix <> ".employmentId is required"))
          ++ (when (outside (pos 1) (pos 9) emp.occupation_code) (
                item "INVALID_VALUE" (prefix <> ".occupationCode") (
                  prefix
                  <> ".occupationCode: must be 1–9 (CSO SOC-2010), got "
                  <> itoa_int emp.occupation_code))
              ++ (when (not (is_employment_type emp.employment_type)) (
                    item "INVALID_VALUE" (prefix <> ".employmentType") (
                      prefix
                      <> ".employmentType: must be FULL_TIME, PART_TIME, TRAINEE, APPRENTICE, or OTHER"))
                  ++ check_amounts (amounts prefix emp))))

  unfoldable pub check_employees : ℕ → List (Employee F) → List ValidationItem
  check_employees i [] = []
  check_employees i (emp ∷ emps) = check_employee i emp ++ check_employees (i + 1) emps

  -- With no employee there is one more error; otherwise the loop's.
  unfoldable pub employee_errors : List (Employee F) → List ValidationItem
  employee_errors [] = item "REQUIRED" "employees" "at least one employee record is required" ∷ []
  employee_errors (emp ∷ emps) = check_employees 0 (emp ∷ emps)

  unfoldable pub schema_errors : SubmissionBody F → List ValidationItem
  schema_errors body =
      when (is_blank body.holding_number)
        (item "REQUIRED" "holdingNumber" "holdingNumber is required")
      ++ (when (outside (pos 2008) (pos 2099) body.tax_year) (
            item "INVALID_VALUE" "taxYear"
              ("taxYear must be 2008–2099, got " <> itoa_int body.tax_year))
          ++ (when (outside (pos 1) (pos 4) body.quarter) (
                item "INVALID_VALUE" "quarter"
                  ("quarter must be 1–4, got " <> itoa_int body.quarter))
              ++ (when
                    (not (body.return_type == "")
                      && not (body.return_type == "ORIGINAL")
                      && not (body.return_type == "AMENDED"))
                    (item "INVALID_VALUE" "returnType" "returnType must be ORIGINAL or AMENDED")
                  ++ employee_errors body.employees)))

  abbrev pub schema_of_decoded : Decoded (SubmissionBody F) → List ValidationItem
  schema_of_decoded (malformed e) =
      item "INVALID_JSON" "" ("request body is not valid EHECS JSON: " <> e) ∷ []
  schema_of_decoded (decoded body) = schema_errors body

  unfoldable pub validate_schema : RawMessage → List ValidationItem
  unfolding schema_errors employee_errors check_employees check_employee check_amounts
  validate_schema raw = schema_of_decoded (r.unmarshal raw)

  abbrev pub count_of_decoded : Decoded (SubmissionBody F) → ℤ
  count_of_decoded (malformed e) = pos 0
  count_of_decoded (decoded body) = pos (length body.employees)

  unfoldable pub item_count : RawMessage → ℤ
  item_count raw = count_of_decoded (r.unmarshal raw)
