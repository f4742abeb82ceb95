-- ===== src/Ehecs/Schema/Conforms.antt =====
-- When a body conforms to the schema, said without the validator, and that the validator decides it.
use mathlib.Core.Bool.{false≢true}
use corncrake.Prelude.{
  ℕ, ◌≤◌, ◌≡◌, refl, ◌↔◌, ◌⊎◌, String, Bool, true, false, not, sym, List, [], ◌∷◌, ◌++◌, eq_iff,
  arith, length, is_empty, All,
}
use corncrake.Prelude.Int.{ℤ, pos, ◌≤ℤ◌}
use corncrake.Text.{is_blank, codes, is_space, trim_left}
use corncrake.Models.{ValidationItem}
use corncrake.Ehecs.Types.{
  Runtime, Employee, SubmissionBody, EmploymentType, employment_full_time, employment_part_time,
  employment_trainee, employment_apprentice, employment_other,
}
use corncrake.Ehecs.Ppsn.{IsPpsn}
use corncrake.Ehecs.Schema.{when, is_employment_type, outside}

-- A character that is no space stands somewhere in the text.
abbrev pub HasText : List ℕ → Type 0
HasText [] = ⊥
HasText (c ∷ s) = (is_space c ≡ false) ⊎ HasText s

abbrev pub IsEmploymentType : EmploymentType → Type 0
IsEmploymentType t =
    ((t ≡ employment_full_time) ⊎ (t ≡ employment_part_time))
    ⊎ (((t ≡ employment_trainee) ⊎ (t ≡ employment_apprentice)) ⊎ (t ≡ employment_other))

abbrev pub Between : ℤ → ℤ → ℤ → Type 0
Between lo hi x = (lo ≤ℤ x) × (x ≤ℤ hi)

-- A check adds nothing exactly when its test fails.
pub when-eq-nil_iff :
    (b : Bool) (e : ValidationItem) (rest : List ValidationItem)
    → (when b e ++ rest ≡ []) ↔ ((b ≡ false) × (rest ≡ []))
when-eq-nil_iff true e rest = ((λ h. cc), (λ h. absurd (false≢true (sym h.0))))
when-eq-nil_iff false e rest = ((λ h. (refl, h)), (λ h. h.1))

pub append-eq-nil_iff : (xs ys : List ValidationItem) → (xs ++ ys ≡ []) ↔ ((xs ≡ []) × (ys ≡ []))
append-eq-nil_iff [] ys = ((λ h. (refl, h)), (λ h. h.1))
append-eq-nil_iff (x ∷ xs) ys = ((λ h. cc), (λ h. cc))

pub not_iff : (b : Bool) → (not b ≡ false) ↔ (b ≡ true)
not_iff b = ground arith

trim_left_iff : (cs : List ℕ) → (is_empty (trim_left cs) ≡ false) ↔ HasText cs
trim_left_iff [] = ground arith
trim_left_iff (c ∷ cs) = ground (arith, trim_left_iff cs)

pub blank_iff : (s : String) → (is_blank s ≡ false) ↔ HasText (codes s)
unfolding is_blank
blank_iff s = trim_left_iff (codes s)

pub employment_type_iff : (t : EmploymentType) → (is_employment_type t ≡ true) ↔ IsEmploymentType t
employment_type_iff t = ground (
  arith,
  eq_iff t employment_full_time,
  eq_iff t employment_part_time,
  eq_iff t employment_trainee,
  eq_iff t employment_apprentice,
  eq_iff t employment_other,
)

pub outside_iff : (lo hi x : ℤ) → (outside lo hi x ≡ false) ↔ Between lo hi x
outside_iff lo hi x = ground arith

module _ {F : Type 0} (r : Runtime F) where
  -- Not less than zero.
  abbrev pub IsAmount : F → Type 0
  IsAmount x = r.lt x (r.literal 0) ≡ false

  pub record ConformsEmployee (emp : Employee F) : Type 0 where
    pub ppsn : IsPpsn 7 (codes emp.ppsn)
    pub employment_id : HasText (codes emp.employment_id)
    pub occupation_code : Between (pos 1) (pos 9) emp.occupation_code
    pub employment_type : IsEmploymentType emp.employment_type
    pub gross_earnings : IsAmount emp.gross_earnings
    pub basic_pay : IsAmount emp.basic_pay
    pub basic_hours : IsAmount emp.basic_hours
    pub overtime_pay : IsAmount emp.overtime_pay
    pub overtime_hours : IsAmount emp.overtime_hours
    pub employer_prsi : IsAmount emp.employer_prsi

  pub record Conforms (body : SubmissionBody F) : Type 0 where
    pub holding_number : HasText (codes body.holding_number)
    pub tax_year : Between (pos 2008) (pos 2099) body.tax_year
    pub quarter : Between (pos 1) (pos 4) body.quarter
    pub return_type :
        ((body.return_type ≡ "") ⊎ (body.return_type ≡ "ORIGINAL")) ⊎ (body.return_type ≡ "AMENDED")
    pub some_employee : 1 ≤ length body.employees
    pub employees : All ConformsEmployee body.employees
