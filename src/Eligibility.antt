-- ===== src/Eligibility.antt =====
-- services/eligibility.py: the gates through which a scheduled employee becomes a candidate for an
-- incident. The try blocks guard lazy loads; over the tables the loads succeed.
pub mod Gates
pub mod Outcomes
pub mod Presence
use incident.Prelude.{
  ℕ, Bool, true, false, ◌&&◌, ◌||◌, not, Option, none, some, List, [], ◌∷◌, map, ◌==◌, ltb, leb,
  if◌then◌else◌, select, exists, all, is_empty, sort, Text, text_eq, strip, lower, contains,
  or_empty, truthy,
}
use incident.Models.{User, is_employee, Team, Employee, Availability, Shift, IncidentAssignment}
use incident.Session.{Tables, get_user, get_team}
use incident.Shifts.{Moment, get_active_shift, get_shift_employees}
use incident.Workload.{workload}

pub data RejectCode : Type 0 where
  team_mismatch already_assigned_this_incident no_skilled_employee : RejectCode

pub record Rejection : Type 0 where
  pub employee_id : ℕ
  pub code : RejectCode

-- A row of `candidates_evaluated`.
pub record Evaluation : Type 0 where
  pub employee_id : ℕ
  pub active_workload : ℕ
  pub communication_status : Availability
  pub is_present_informational : Bool

pub data Decision : Type 0 where
  no_current_scheduled_coverage scheduled_shift_candidates_found : Decision
  no_eligible_scheduled_employee : Decision

pub record Pipeline : Type 0 where
  pub active_shift : Option Shift
  pub eligible : List Employee
  pub candidates_evaluated : List Evaluation
  pub rejected : List Rejection
  pub decision_priority : Decision

-- What a call asks for: the incident's group, the skills it requires, and the incident, if given.
pub record Request : Type 0 where
  pub assignment_group : Text
  pub required_skills : List ℕ
  pub incident_id : Option ℕ

unfoldable pub is_active_employee : Option User → Bool
is_active_employee none = false
is_active_employee (some u) = u.is_active && is_employee u.role

unfoldable pub group_matches : Text → Option Team → Bool
group_matches group none = false
group_matches group (some team) =
    let ag = lower (strip group) in
    let tm = lower (strip team.name) in
    let sn = lower (strip (or_empty team.servicenow_group_id)) in
    text_eq tm ag || (text_eq sn ag || (contains tm ag || contains ag tm))

-- Gate 1, which an incident without a group passes over.
unfoldable pub in_group : Tables → Text → Employee → Bool
unfolding group_matches
in_group t group e = not (truthy group) || group_matches group (get_team t e.team_id)

-- Gate 2: the ids of those who hold the incident already.
unfoldable pub holds_incident : Tables → Option ℕ → Employee → Bool
holds_incident t none e = false
holds_incident t (some incident_id) e =
    exists (λ a. (a.employee_id == e.id) && ((a.incident_id == incident_id) && a.is_active))
      t.assignments

unfoldable pub has_skill : Tables → ℕ → ℕ → Bool
has_skill t employee_id skill_id =
    exists (λ k. (k.employee_id == employee_id) && (k.skill_id == skill_id)) t.employee_skills

-- `required_skills.issubset(emp_skill_ids)`.
unfoldable pub has_skills : Tables → List ℕ → Employee → Bool
unfolding has_skill
has_skills t required e = all (has_skill t e.id) required

-- What the loop does with one scheduled employee: nothing, a rejection, or a candidate.
pub data Verdict : Type 0 where
  skipped passed : Verdict
  refused : RejectCode → Verdict

unfoldable pub verdict : Tables → Request → Employee → Verdict
unfolding is_active_employee in_group holds_incident
verdict t r e =
    if not (is_active_employee (get_user t e.user_id))
    then skipped
    else if not (in_group t r.assignment_group e)
    then refused RejectCode.team_mismatch
    else if holds_incident t r.incident_id e
    then refused RejectCode.already_assigned_this_incident
    else if not (has_skills t r.required_skills e)
    then refused RejectCode.no_skilled_employee
    else passed

unfoldable pub is_passed : Verdict → Bool
is_passed passed = true
is_passed _ = false

-- What one round adds to the two lists that the loop fills.
unfoldable pub filed :
    Employee → Verdict → List Employee × List Rejection → List Employee × List Rejection
filed e skipped (passing, rejected) = (passing, rejected)
filed e passed (passing, rejected) = (e ∷ passing, rejected)
filed e (refused code) (passing, rejected) =
    (passing, record { employee_id = e.id; code = code } ∷ rejected)

unfoldable pub gate : Tables → Request → List Employee → List Employee × List Rejection
unfolding filed
gate t r [] = ([], [])
gate t r (e ∷ emps) = filed e (verdict t r e) (gate t r emps)

-- `key=lambda e: (workloads.get(e.id, 0), str(e.id))`.
unfoldable pub by_workload : Tables → Employee → Employee → Bool
by_workload t a b =
    ltb (workload t a.id) (workload t b.id)
    || ((workload t a.id == workload t b.id) && leb a.id b.id)

evaluation : Tables → Employee → Evaluation
evaluation t e = record {
  employee_id = e.id;
  active_workload = workload t e.id;
  communication_status = e.availability_status;
  is_present_informational = e.is_present;
}

pipeline_on : Tables → Request → Moment → Option Shift → Pipeline
unfolding evaluation
pipeline_on t r now none = record {
  active_shift = none;
  eligible = [];
  candidates_evaluated = [];
  rejected = [];
  decision_priority = no_current_scheduled_coverage;
}
pipeline_on t r now (some shift) =
    let (passing, rejected) = gate t r (get_shift_employees t shift.id now.date) in
    record {
      active_shift = some shift;
      eligible = sort (by_workload t) passing;
      candidates_evaluated = map (evaluation t) passing;
      rejected = rejected;
      decision_priority =
          if is_empty passing
          then no_eligible_scheduled_employee
          else scheduled_shift_candidates_found;
    }

unfoldable pub evaluate_candidate_pipeline : Tables → Request → Moment → Pipeline
unfolding pipeline_on
evaluate_candidate_pipeline t r now = pipeline_on t r now (get_active_shift t now)

unfoldable pub find_eligible_employees : Tables → Request → Moment → List Employee
unfolding evaluate_candidate_pipeline
find_eligible_employees t r now = (evaluate_candidate_pipeline t r now).eligible
