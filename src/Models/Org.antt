-- ===== src/Models/Org.antt =====
-- models/user.py, team.py, employee.py, skill.py and shift.py: people, teams and shifts.
use incident.Prelude.{ℕ, Bool, true, false, Option, Text}

-- `Role` of core/security.py.
pub data Role : Type 0 where
  employee supervisor admin system : Role

unfoldable pub is_employee : Role → Bool
is_employee Role.employee = true
is_employee _ = false

unfoldable pub is_admin : Role → Bool
is_admin Role.admin = true
is_admin _ = false

pub record User : Type 0 where
  pub id : ℕ
  pub email : Text
  pub full_name : Text
  pub role : Role
  pub is_active : Bool

pub record Team : Type 0 where
  pub id : ℕ
  pub name : Text
  pub servicenow_group_id : Option Text
  pub is_active : Bool

pub data Availability : Type 0 where
  available busy on_break offline : Availability

unfoldable pub is_offline : Availability → Bool
is_offline Availability.offline = true
is_offline _ = false

pub record Employee : Type 0 where
  pub id : ℕ
  pub user_id : ℕ
  pub team_id : Option ℕ
  pub employee_code : Option Text
  pub availability_status : Availability
  pub is_present : Bool
  pub is_group_leader : Bool

pub record EmployeeSkill : Type 0 where
  pub employee_id : ℕ
  pub skill_id : ℕ

pub record Shift : Type 0 where
  pub id : ℕ
  pub name : Text
  pub start_time : ℕ
  pub end_time : ℕ
  pub is_overnight : Bool
  pub is_active : Bool

pub record ShiftAssignment : Type 0 where
  pub id : ℕ
  pub shift_id : ℕ
  pub employee_id : ℕ
  pub date : ℕ
  pub is_active : Bool
