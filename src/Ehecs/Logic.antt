-- ===== src/Ehecs/Logic.antt =====
-- `ValidateLogic` of ehecs.go. Its two closures append to two lists, which are computed side by side.
pub mod Rules
use corncrake.Prelude.{
  ℕ, ◌+◌, String, Bool, true, false, ◌&&◌, List, [], ◌∷◌, ◌++◌, ◌==◌, if◌then◌else◌,
}
use corncrake.Text.{◌<>◌}
use corncrake.Models.{RawMessage, ValidationItem}
use corncrake.Ehecs.Types.{
  basic_hours_quarterly_cap, Runtime, Employee, SubmissionBody, Decoded, decoded, malformed,
  employment_full_time,
}
use corncrake.Ehecs.Schema.{item, when, index}

module _ {F : Type 0} (r : Runtime F) where
  abbrev pub label : ℕ → Employee F → String
  label i emp = index i <> " PPSN=" <> emp.ppsn

  -- `emp.OvertimePay > 0 && emp.OvertimeHours == 0`
  abbrev pub overtime_without_hours : Employee F → Bool
  overtime_without_hours emp =
      r.lt (r.literal 0) emp.overtime_pay && r.eq emp.overtime_hours (r.literal 0)

  unfoldable pub logic_errors_of : ℕ → Employee F → List ValidationItem
  logic_errors_of i emp =
      when (overtime_without_hours emp) (
        item "OVERTIME_INCONSISTENCY" (index i <> ".overtimeHours")
          (label i emp <> ": OvertimePay > 0 but OvertimeHours = 0"))
      ++ (when (r.lt emp.gross_earnings emp.overtime_pay) (
            item "EARNINGS_INCONSISTENCY" (index i <> ".grossEarnings") (
              label i emp
              <> ": GrossEarnings ("
              <> r.format 2 emp.gross_earnings
              <> ") < OvertimePay ("
              <> r.format 2 emp.overtime_pay
              <> ")"))
          ++ when (r.lt (basic_hours_quarterly_cap r) emp.basic_hours) (
              item "HOURS_EXCEEDED" (index i <> ".basicHours") (
                label i emp
                <> ": BasicHours ("
                <> r.format 1 emp.basic_hours
                <> ") exceeds quarterly cap of "
                <> r.format 0 (basic_hours_quarterly_cap r))))

  unfoldable pub logic_warnings_of : ℕ → Employee F → List ValidationItem
  logic_warnings_of i emp =
      when (r.eq emp.gross_earnings (r.literal 0)) (
        item "ZERO_EARNINGS" (index i <> ".grossEarnings")
          (label i emp <> ": GrossEarnings is zero — confirm this is intended"))
      ++ when (r.eq emp.employer_prsi (r.literal 0) && emp.employment_type == employment_full_time)
          (item "ZERO_PRSI_FULL_TIME" (index i <> ".employerPRSI")
            (label i emp <> ": EmployerPRSI is zero for a FULL_TIME employee"))

  -- The loop, with what it has appended from employee `i` on.
  unfoldable pub logic_loop : ℕ → List (Employee F) → List ValidationItem × List ValidationItem
  logic_loop i [] = ([], [])
  logic_loop i (emp ∷ emps) =
      let (errors, warnings) = logic_loop (i + 1) emps in
      (logic_errors_of i emp ++ errors, logic_warnings_of i emp ++ warnings)

  abbrev pub logic_of_decoded :
      Decoded (SubmissionBody F) → List ValidationItem × List ValidationItem
  logic_of_decoded (malformed e) = (item "INVALID_JSON" "" e ∷ [], [])
  logic_of_decoded (decoded body) = logic_loop 0 body.employees

  unfoldable pub validate_logic : RawMessage → List ValidationItem × List ValidationItem
  unfolding logic_loop logic_errors_of logic_warnings_of
  validate_logic raw = logic_of_decoded (r.unmarshal raw)
