-- ===== src/Tests/Eligibility.antt =====
-- Runs of the eligibility pipeline, and its theorems at the sample tables.
use incident.Prelude.{
  true, false, none, some, List, [], ◌∷◌, map, Memᴰ, Perm, ◌≡◌, ◌↔◌, refl, codes,
}
use incident.Models.{Employee, Availability, AssignmentStatus, AssignmentType, IncidentAssignment}
use incident.Shifts.{get_active_shift, get_shift_employees}
use incident.Eligibility.{Request, find_eligible_employees, evaluate_candidate_pipeline}
use incident.Eligibility.Gates.{Qualifies, find_eligible_employees_iff}
use incident.Eligibility.Outcomes.{
  Gated, pipeline-Gated, IsAscending, find_eligible_employees-IsAscending,
}
use incident.Eligibility.Presence.{
  KeepsIdentity, rewrite_employees, find_eligible_employees-rewrite,
}
use incident.Tests.{runs, tables, day, morning, employee}

abbrev request : Request
request = record {
  assignment_group = codes " network ";
  required_skills = 9 ∷ [];
  incident_id = some 50;
}

day_on : get_active_shift tables morning ≡ some day
unfolding runs
day_on = refl

skilled_found : find_eligible_employees tables request morning ≡ employee 1 ∷ employee 3 ∷ []
unfolding runs
skilled_found = refl

find_eligible_employees_example :
    Memᴰ (employee 3) (find_eligible_employees tables request morning)
    ↔ (Memᴰ (employee 3) (get_shift_employees tables 1 20) × Qualifies tables request (employee 3))
find_eligible_employees_example =
    find_eligible_employees_iff tables request morning day (employee 3) day_on

pipeline-Gated_example :
    (passing : List Employee) × Gated tables request
      (get_shift_employees tables 1 20)
      passing
      (evaluate_candidate_pipeline tables request morning).rejected
    × Perm (evaluate_candidate_pipeline tables request morning).eligible passing
pipeline-Gated_example = pipeline-Gated tables request morning day day_on

find_eligible-IsAscending_example :
    IsAscending tables (find_eligible_employees tables request morning)
find_eligible-IsAscending_example = find_eligible_employees-IsAscending tables request morning

-- An engineer who has had the incident in its current cycle, but not any longer, is eligible for it.
abbrev released : IncidentAssignment
released = record {
  id = 800;
  incident_id = 50;
  employee_id = 3;
  cycle_number = 1;
  assignment_type = AssignmentType.automatic;
  status = AssignmentStatus.reassigned;
  reason = [];
  assigned_at = 900;
  assigned_by = none;
  is_active = false;
  scheduled_shift_name = none;
  scheduled_start = none;
  team_id = none;
  assignment_cycle_id = none;
  rotation_cycle = none;
  rotation_position = none;
  source_event_id = none;
}

released_found :
    find_eligible_employees (record tables { assignments = released ∷ [] }) request morning
    ≡ employee 1 ∷ employee 3 ∷ []
unfolding runs
released_found = refl

abbrev show_up : Employee → Employee
show_up e = record e { is_present = true; availability_status = Availability.available }

show_up-KeepsIdentity : KeepsIdentity show_up
show_up-KeepsIdentity = record { id = λ e. refl; user_id = λ e. refl; team_id = λ e. refl }

presence_example :
    find_eligible_employees (rewrite_employees show_up tables) request morning
    ≡ map show_up (find_eligible_employees tables request morning)
presence_example =
    find_eligible_employees-rewrite show_up show_up-KeepsIdentity tables request morning
