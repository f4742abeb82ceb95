-- ===== src/Ehecs/Types.antt =====
-- internal/tenants/ehecs/models.go, and what the tenant uses of Go's `float64`, encoding/json and fmt.
use corncrake.Prelude.{ℕ, ◌≡◌, ◌⊎◌, String, Bool, true, false, List}
use corncrake.Prelude.Int.{ℤ}
use corncrake.Models.{RawMessage, ReturnType}

-- `type EmploymentType string`: any text that a body carries.
abbrev pub EmploymentType : Type 0
EmploymentType = String

abbrev pub employment_full_time : EmploymentType
employment_full_time = "FULL_TIME"

abbrev pub employment_part_time : EmploymentType
employment_part_time = "PART_TIME"

abbrev pub employment_trainee : EmploymentType
employment_trainee = "TRAINEE"

abbrev pub employment_apprentice : EmploymentType
employment_apprentice = "APPRENTICE"

abbrev pub employment_other : EmploymentType
employment_other = "OTHER"

pub record Employee (F : Type 0) : Type 0 where
  pub ppsn : String
  pub employment_id : String
  pub occupation_code : ℤ
  pub employment_type : EmploymentType
  pub gross_earnings : F
  pub basic_pay : F
  pub overtime_pay : F
  pub basic_hours : F
  pub overtime_hours : F
  pub employer_prsi : F
  pub bonuses : F
  pub allowances : F
  pub shift_premiums : F
  pub other_subsidies : F

pub record SubmissionBody (F : Type 0) : Type 0 where
  pub holding_number : String
  pub tax_year : ℤ
  pub quarter : ℤ
  pub return_type : ReturnType
  pub employees : List (Employee F)
  pub contact_email : String
  pub contact_phone : String
  pub comments : String

-- The outcome of `json.Unmarshal`; `malformed` has the text of its error.
pub data Decoded (A : Type 0) : Type 0 where
  decoded : A → Decoded A
  malformed : String → Decoded A

-- The operations on `float64`, on the values that JSON can express: these are no NaN. `literal` is
-- the number of a constant; `format n x` is `%.nf`; `unmarshal` reads a body; `quote` is `%q`.
pub record Runtime (F : Type 0) : Type 0 where
  pub literal : ℕ → F
  pub lt : F → F → Bool
  pub eq : F → F → Bool
  pub format : ℕ → F → String
  pub unmarshal : RawMessage → Decoded (SubmissionBody F)
  pub quote : String → String

-- 168 hours a week, for 13 weeks.
abbrev pub basic_hours_quarterly_cap : {F : Type 0} → Runtime F → F
basic_hours_quarterly_cap r = r.literal 2184

-- The order of the numbers that are no NaN.
pub record IsTotal {F : Type 0} (r : Runtime F) : Type 0 where
  pub trichotomy : (x y : F) → ((r.lt x y ≡ true) ⊎ (r.eq x y ≡ true)) ⊎ (r.lt y x ≡ true)
  pub eq_sym : (x y : F) → r.eq x y ≡ true → r.eq y x ≡ true
  pub exclusive : (x y : F) → r.eq x y ≡ true → r.lt y x ≡ false
