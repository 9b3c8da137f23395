-- ===== src/Teams.antt =====
-- services/team_service.py: what a team has to have before it is activated, and the figures of its
-- shift coverage. The clock is converted to the team's zone before the call.
pub mod Activation
use incident.Prelude.{
  ℕ, Bool, true, false, not, ◌&&◌, Option, none, some, List, [], ◌∷◌, ◌++◌, map, ◌==◌, is,
  if◌then◌else◌, select, exists, update, count, length, is_empty, Text, truthy, strip,
}
use incident.Models.{Availability, Team, Employee, Shift, AuditAction}
use incident.Session.{Tables, not_found, bad_request, get_user, get_team}
use incident.Shifts.{Moment, get_active_shift, get_next_shift_for_team}
use incident.Rotation.{is_active_member}
use incident.Actions.{Act, pure, fail, ◌>>=◌, ◌>>◌, query, change, committing, logging}

pub data Violation : Type 0 where
  member_count leader_count uncovered : ℕ → Violation
  name_missing team_missing : Violation

unfoldable pub team_members : Tables → ℕ → List Employee
team_members t team_id =
    select (λ e. is e.team_id team_id && is_active_member (get_user t e.user_id)) t.employees

unfoldable pub has_shift : Tables → Employee → Bool
has_shift t e = exists (λ a. (a.employee_id == e.id) && a.is_active) t.shift_assignments

unfoldable pub leaders : List Employee → ℕ
leaders emps = count (λ e. e.is_group_leader) emps

unfoldable pub uncovered_employees : Tables → List Employee → ℕ
uncovered_employees t emps = count (λ e. not (has_shift t e)) emps

-- A violation where a test fails.
unfoldable pub unless_met : Bool → Violation → List Violation
unless_met b v = if b then [] else v ∷ []

unfoldable pub violations_of : Tables → Team → List Violation
violations_of t team =
    let emps = team_members t team.id in
    unless_met (length emps == 10) (member_count (length emps))
    ++ (unless_met (leaders emps == 1) (leader_count (leaders emps))
        ++ (unless_met (uncovered_employees t emps == 0) (uncovered (uncovered_employees t emps))
            ++ unless_met (truthy (strip team.name)) name_missing))

unfoldable pub violations_found : Tables → Option Team → List Violation
violations_found t none = team_missing ∷ []
violations_found t (some team) = violations_of t team

unfoldable pub validate_team_activation : ℕ → Tables → List Violation
validate_team_activation team_id t = violations_found t (get_team t (some team_id))

unfoldable pub put_team : Bool → Team → Tables → Tables
put_team active team t = record t {
  teams = update (λ m. m.id == team.id) (λ _. record team { is_active = active }) t.teams;
}

unfoldable pub set_active : Bool → AuditAction → Team → Act Team
set_active active action team = do
  change (put_team active team)
  committing
  logging action team.id none
  committing
  pure (record team { is_active = active })

unfoldable pub unless_violated : Team → List Violation → Act Team
unless_violated team [] = set_active true AuditAction.activate_team team
unless_violated team (v ∷ vs) = fail bad_request

unfoldable pub activate_found : Option Team → Act Team
activate_found none = fail not_found
activate_found (some team) = query (validate_team_activation team.id) >>= unless_violated team

unfoldable pub activate_team : ℕ → Act Team
activate_team team_id = query (λ t. get_team t (some team_id)) >>= activate_found

unfoldable pub deactivate_found : Option Team → Act Team
deactivate_found none = fail not_found
deactivate_found (some team) = set_active false AuditAction.deactivate_team team

unfoldable pub deactivate_team : ℕ → Act Team
deactivate_team team_id = query (λ t. get_team t (some team_id)) >>= deactivate_found

pub record Coverage : Type 0 where
  pub active_shift : Option Shift
  pub scheduled : List (Employee × ℕ)
  pub next_shift : Option (Shift × ℕ × List Employee)
  pub total_members : ℕ
  pub present : ℕ
  pub available : ℕ
  pub busy : ℕ
  pub offline : ℕ
  pub violations : List Violation

is_available : Availability → Bool
is_available Availability.available = true
is_available _ = false

is_busy : Availability → Bool
is_busy Availability.busy = true
is_busy _ = false

on_shift : Tables → Option Shift → Employee → Bool
on_shift t none e = false
on_shift t (some shift) e =
    exists (λ a. (a.employee_id == e.id) && ((a.shift_id == shift.id) && a.is_active))
      t.shift_assignments

-- The active assignments, closed incidents' included.
active_workload : Tables → Employee → ℕ
active_workload t e = count (λ a. (a.employee_id == e.id) && a.is_active) t.assignments

with_loads : Tables → List Employee → List (Employee × ℕ)
with_loads t emps = map (λ e. (e, active_workload t e)) emps

unfoldable pub coverage_of : Tables → Moment → Team → Coverage
unfolding is_available is_busy on_shift with_loads active_workload
coverage_of t now team =
    let emps = team_members t team.id in
    record {
      active_shift = get_active_shift t now;
      scheduled = with_loads t (select (on_shift t (get_active_shift t now)) emps);
      next_shift = get_next_shift_for_team t team.id now;
      total_members = length emps;
      present = count (λ e. e.is_present) emps;
      available = count (λ e. e.is_present && is_available e.availability_status) emps;
      busy = count (λ e. e.is_present && is_busy e.availability_status) emps;
      offline = count (λ e. not e.is_present) emps;
      violations = validate_team_activation team.id t;
    }

unfoldable pub coverage_found : Moment → Option Team → Act Coverage
coverage_found now none = fail not_found
coverage_found now (some team) = query (λ t. coverage_of t now team)

unfoldable pub get_team_shift_coverage : ℕ → Moment → Act Coverage
get_team_shift_coverage team_id now = query (λ t. get_team t (some team_id)) >>= coverage_found now
