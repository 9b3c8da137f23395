-- ===== src/Tests/Rotation.antt =====
-- Runs of the rotation, and its theorems at the sample tables.
use incident.Prelude.{
  ℕ, length, exists, ◌+◌, ◌%◌, ◌/◌, Bool, true, false, none, some, [], ◌∷◌, Memᴰ, ◌≡◌, refl,
  get_elem?, count, codes, arith,
}
use incident.Models.{
  all_unique, Employee, Incident, IncidentAssignment, AssignmentType, AssignmentStatus,
}
use incident.Session.{Session, ok, err, integrity_error}
use incident.Rotation.{
  Call, Outcome, active_members, is_active_on, locked_incident, assign_next_rotation_employee,
}
use incident.Rotation.Pointer.{turn, advance_times, advance_times_lem}
use incident.Rotation.Fairness.{pointer, Turns, done, turn_of, Turns-round_robin}
use incident.Rotation.Replays.{assign_next_one_active, assign_next_repeat, assign_next_clash}
use incident.Rotation.Totality.{Succeeds, assign_next-Succeeds, is_of}
use incident.Tests.{runs, tables, session, network, outage, by_id, employee}

abbrev outage_2 : Incident
outage_2 = record outage { id = 51 }

abbrev call : ℕ → Call
call i = record { now = 1000; new_id = i; key = some (codes "k"); assigned_by = none }

abbrev assignment_of : ℕ → ℕ → ℕ → IncidentAssignment
assignment_of new_id incident_id place = record {
  id = new_id;
  incident_id = incident_id;
  employee_id = place;
  cycle_number = 1;
  assignment_type = AssignmentType.rotation;
  status = AssignmentStatus.assigned;
  reason = [];
  assigned_at = 1000;
  assigned_by = none;
  is_active = true;
  scheduled_shift_name = none;
  scheduled_start = none;
  team_id = some 7;
  assignment_cycle_id = none;
  rotation_cycle = some 1;
  rotation_position = some place;
  source_event_id = some (codes "k");
}

abbrev outcome_of : ℕ → ℕ → ℕ → Outcome
outcome_of new_id incident_id place = record {
  idempotent = false;
  assignment = assignment_of new_id incident_id place;
  rotation_position = place;
  rotation_cycle = 1;
  next_employee = some (employee (place + 1));
}

after_first : Session
after_first = (assign_next_rotation_employee by_id (call 900) network outage session).1

after_second : Session
after_second = (assign_next_rotation_employee by_id (call 901) network outage_2 after_first).1

first_call :
    assign_next_rotation_employee by_id (call 900) network outage session
    ≡ (ok (outcome_of 900 50 1), after_first)
unfolding runs after_first
first_call = refl

second_call :
    assign_next_rotation_employee by_id (call 901) network outage_2 after_first
    ≡ (ok (outcome_of 901 51 2), after_second)
unfolding runs after_first after_second
second_call = refl

one_active_example :
    (count (is_active_on (locked_incident tables outage).id) after_first.saved.assignments ≡ 1)
    × Memᴰ (assignment_of 900 50 1) after_first.saved.assignments
    × ◌≡◌ {A = Bool} true true
    × ((assignment_of 900 50 1).incident_id ≡ (locked_incident tables outage).id)
one_active_example =
    assign_next_one_active by_id (call 900) network outage session after_first (outcome_of 900 50 1)
      first_call refl

repeat_example :
    (again : Outcome) × (assign_next_rotation_employee by_id (call 905) network outage after_first
      ≡ (ok again, after_first))
    × (again.assignment ≡ assignment_of 900 50 1)
    × (again.idempotent ≡ true)
repeat_example =
    assign_next_repeat by_id (call 900) network outage session after_first (outcome_of 900 50 1)
      (codes "k") first_call refl refl refl (call 905) refl

two-Turns : Turns by_id network session (1 ∷ 2 ∷ []) after_second
two-Turns =
    turn_of (call 900) outage (outcome_of 900 50 1) first_call refl
      (turn_of (call 901) outage_2 (outcome_of 901 51 2) second_call refl done)

round_robin_example :
    (e : Employee) × (get_elem? (active_members by_id tables 7) ((turn (pointer 7 tables) + 1) % 10)
      ≡ some e)
    × (e.id ≡ 2)
round_robin_example =
    Turns-round_robin by_id network session after_second (1 ∷ 2 ∷ []) two-Turns 1 2 refl

abbrev closed_row : IncidentAssignment
closed_row = record (assignment_of 800 50 1) {
  is_active = false;
  status = AssignmentStatus.reassigned;
  source_event_id = none;
}

abbrev handled : Session
handled = record session { rows = record tables { assignments = closed_row ∷ [] } }

clash_example :
    ((assign_next_rotation_employee by_id (call 900) network outage handled).0
      ≡ err integrity_error)
    × ((assign_next_rotation_employee by_id (call 900) network outage handled).1.saved ≡ tables)
    × ((assign_next_rotation_employee by_id (call 900) network outage handled).1.sent ≡ [])
unfolding runs
clash_example =
    assign_next_clash by_id (call 900) network outage handled (employee 1) closed_row refl refl refl
      (Memᴰ.head refl) refl refl refl

pointer_example :
    ((advance_times 25 (1, 1)).0 ≡ (turn (1, 1) + 25) % 10 + 1)
    × ((advance_times 25 (1, 1)).1 ≡ (turn (1, 1) + 25) / 10 + 1)
pointer_example =
    advance_times_lem 25 (1, 1)
      (record { low = omega arith; high = omega arith; round = omega arith })

ten_members : length (active_members by_id session.rows 7) ≡ 10
unfolding runs
ten_members = refl

all_kept : all_unique session.rows.assignments ≡ true
unfolding runs
all_kept = refl

untouched : exists (is_of 50) session.rows.assignments ≡ false
unfolding runs
untouched = refl

assign_next-Succeeds_example :
    Succeeds (assign_next_rotation_employee by_id (call 900) network outage session)
assign_next-Succeeds_example =
    assign_next-Succeeds by_id (call 900) network outage session ten_members all_kept untouched
