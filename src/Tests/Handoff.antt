-- ===== src/Tests/Handoff.antt =====
-- Runs of the shift hand-off, and its theorems at the sample tables.
use incident.Prelude.{
  find?, exists, ◌+◌, true, false, Option, none, some, [], ◌∷◌, ◌≡◌, refl, codes, min_from,
}
use incident.Models.{
  all_unique, AssignmentStatus, AssignmentType, IncidentAssignment, is_admin, is_offline,
}
use incident.Session.{log, Result, ok, get_employee, get_incident, flush}
use incident.Shifts.{get_employee_shift}
use incident.ServiceNow.{Mode, status, is_guarded, is_prohibited, answer_of, update_incident}
use incident.Strategy.{get_required_skills}
use incident.Sync.{
  send, current_mode, recorded, dispatched, sync_assignment_to_servicenow, with_status, patch_of,
}
use incident.Notices.{added, announced, repeated, create_notification}
use incident.Handoff.Causes.{
  offline, is_closed, is_locked, off_shift_cause, cause_of, successors, successor, name_or,
}
use incident.Actions.{World}
use incident.Handoff.{
  Config, Handover, evaluate, evaluate_active_handoffs, evaluate_each, and_then, execute_handoff,
  handed_incident, hand_to, if_locked, if_needed, is_row, incoming_assignment, notify, notify_all,
  committed_as, followed_up, flushed, of_holder, of_incident, record_of, transferred, orphaned,
}
use incident.Handoff.Transfer.{IsHandedOn, execute_handoff-IsHandedOn}
use incident.Handoff.Totality.{is_held_by, execute_handoff-succeeds}
use incident.Tests.{runs, tables, session, morning, outage, employee}

abbrev held : IncidentAssignment
held = record {
  id = 800;
  incident_id = 50;
  employee_id = 2;
  cycle_number = 1;
  assignment_type = AssignmentType.automatic;
  status = AssignmentStatus.assigned;
  reason = [];
  assigned_at = 900;
  assigned_by = none;
  is_active = true;
  scheduled_shift_name = none;
  scheduled_start = none;
  team_id = none;
  assignment_cycle_id = none;
  rotation_cycle = none;
  rotation_position = none;
  source_event_id = none;
}

abbrev config : Config
config = record {
  client = record {
    config = record {
      automation_mode = Mode.shadow;
      shadow_mode = false;
      dry_run_mode = false;
      stored_mode = none;
    };
    server = λ sent. status 200;
    raises = λ code. false;
  };
  utc_now = 1000;
  assignment_id = λ i. i + 100;
  failure_id = λ i. i + 200;
}

abbrev world : IncidentAssignment → World
world a = record {
  session = record session { rows = record tables { assignments = a ∷ [] } };
  patches = [];
}

handoffs : Unit {0}
unfolding log is_admin is_offline get_employee get_incident flush get_employee_shift is_guarded
    is_prohibited answer_of update_incident get_required_skills send current_mode recorded
    dispatched sync_assignment_to_servicenow with_status patch_of added announced repeated
    create_notification is_closed is_locked off_shift_cause cause_of successors successor name_or
    evaluate evaluate_active_handoffs evaluate_each and_then execute_handoff handed_incident hand_to
    if_locked if_needed is_row incoming_assignment notify notify_all committed_as followed_up
    flushed of_holder of_incident record_of transferred orphaned min_from
handoffs = tt

abbrev result : Result (Option Handover) × World
result = execute_handoff config morning offline held outage (employee 2) (world held)

abbrev handover : Handover
handover = record {
  outgoing = employee 2;
  incoming = employee 1;
  assignment =
      incoming_assignment config offline (codes "Engineer") (codes "Engineer") held outage
        (employee 1);
  cause = offline;
}

handed :
    execute_handoff config morning offline held outage (employee 2) (world held)
    ≡ (ok (some handover), result.1)
unfolding runs handoffs
handed = refl

execute_handoff-IsHandedOn_example :
    IsHandedOn
      (world held).session.rows
      morning
      outage
      (employee 2)
      800
      handover
      result.1.session.saved.assignments
execute_handoff-IsHandedOn_example =
    execute_handoff-IsHandedOn config morning offline held outage (employee 2) (world held) handover
      result.1 handed

row_found : find? (is_row 800) (world held).session.rows.assignments ≡ some held
unfolding runs handoffs
row_found = refl

first_chosen :
    successor
      (world held).session.rows
      (successors (world held).session.rows morning outage (employee 2))
    ≡ some (employee 1)
unfolding runs handoffs
first_chosen = refl

unique_so_far : all_unique (world held).session.rows.assignments ≡ true
unfolding runs handoffs
unique_so_far = refl

never_held : exists (is_held_by 50 1) (world held).session.rows.assignments ≡ false
unfolding runs handoffs
never_held = refl

execute_handoff-succeeds_example :
    (h : Handover) × ((execute_handoff config morning offline held outage
        (employee 2)
        (world held)).0
      ≡ ok (some h))
    × (h.incoming ≡ employee 1)
execute_handoff-succeeds_example =
    execute_handoff-succeeds config morning offline held held outage (employee 2) (employee 1)
      (world held) row_found refl first_chosen unique_so_far never_held
