-- ===== src/Tests.antt =====
-- Small tables on which the operations run, for the tests below this module: a team of ten on a day
-- shift and a night shift, and two incidents.
mod Shifts
mod Eligibility
mod Rotation
mod Strategy
mod Sync
mod Handoff
mod WebSocket
mod RateLimit
mod Engine
mod Incidents
mod Group
mod Webhook
mod Organization
mod Teams
use incident.Prelude.{
  ℕ, ◌+◌, ◌-◌, ◌*◌, zero, suc, Bool, true, false, Option, none, some, List, [], ◌∷◌, ◌++◌, map, leb,
  codes, Text, ◌==◌, select, exists, all, find?, update, count, sort, insert, strip, lower,
  contains, text_eq,
}
use incident.Models.{
  all_unique, clashes, is_employee, is_open, Role, User, Team, Availability, Employee,
  EmployeeSkill, Shift, ShiftAssignment, Incident, IncidentState, Priority, SyncStatus,
}
use incident.Session.{Tables, Session, commit, get_user, get_team, get_incident, put_incident}
use incident.Shifts.{
  Moment, is_within_shift, get_active_shift, get_shift_employees, scheduled, scheduled_in_team,
  first_staffed, get_current_scheduled_employees_for_team, get_next_shift_for_team,
}
use incident.Eligibility.{verdict, filed, gate, find_eligible_employees, has_skills, by_workload}
use incident.Workload.{workload}
use incident.Rotation.{
  new_rotation, or_create, get_or_create_rotation, active_members, is_active_member,
  existing_assignment, or_number, advance, in_range, new_assignment, moved_rotation,
  assigned_incident, written, dispatch, committed, assign_selected, already, assign_unless,
  assign_locked, locked_incident, assign_next_rotation_employee,
}

abbrev pub ids : List ℕ
ids = 1 ∷ 2 ∷ 3 ∷ 4 ∷ 5 ∷ 6 ∷ 7 ∷ 8 ∷ 9 ∷ 10 ∷ []

abbrev pub user : ℕ → User
user i = record {
  id = 100 + i;
  email = codes "e@x";
  full_name = codes "Engineer";
  role = Role.employee;
  is_active = true;
}

abbrev pub employee : ℕ → Employee
employee i = record {
  id = i;
  user_id = 100 + i;
  team_id = some 7;
  employee_code = none;
  availability_status = Availability.offline;
  is_present = false;
  is_group_leader = false;
}

abbrev pub network : Team
network = record { id = 7; name = codes "Network"; servicenow_group_id = none; is_active = true }

abbrev pub day : Shift
day = record {
  id = 1;
  name = codes "Day";
  start_time = 21600;
  end_time = 64800;
  is_overnight = false;
  is_active = true;
}

abbrev pub night : Shift
night = record {
  id = 2;
  name = codes "Night";
  start_time = 64800;
  end_time = 21600;
  is_overnight = true;
  is_active = true;
}

abbrev pub on_day : ℕ → ShiftAssignment
on_day i = record { id = i; shift_id = 1; employee_id = i; date = 20; is_active = true }

abbrev pub outage : Incident
outage = record {
  id = 50;
  incident_number = codes "INC1";
  servicenow_sys_id = none;
  priority = Priority.p2;
  assignment_group = some (codes "Network");
  assigned_to = none;
  state = IncidentState.new;
  current_cycle = 1;
  work_notes = [];
  work_instructions = none;
  sync_status = SyncStatus.synced;
}

abbrev pub tables : Tables
tables = record {
  users = map user ids;
  teams = network ∷ [];
  employees = map employee ids;
  employee_skills =
      record { employee_id = 1; skill_id = 9 } ∷ record { employee_id = 3; skill_id = 9 } ∷ [];
  shifts = day ∷ night ∷ [];
  shift_assignments = map on_day (1 ∷ 2 ∷ 3 ∷ []);
  incidents = outage ∷ record outage { id = 51 } ∷ [];
  required_skills = [];
  assignments = [];
  rotations = [];
  cycles = [];
  notifications = [];
  audit_logs = [];
  sync_failures = [];
  integration_events = [];
}

abbrev pub session : Session
session = record { rows = tables; saved = tables; sent = [] }

-- Ten in the morning and eleven at night, on day 20.
abbrev pub morning : Moment
morning = record { date = 20; time = 36000 }

abbrev pub late : Moment
late = record { date = 20; time = 82800 }

abbrev pub by_id : Employee → Employee → Bool
by_id a b = leb a.id b.id

-- Opens what a run computes with.
pub runs : Unit {0}
unfolding select exists all find? update count sort strip lower contains text_eq all_unique
    is_employee is_open commit get_user get_team get_incident put_incident is_within_shift
    get_active_shift get_shift_employees scheduled scheduled_in_team first_staffed
    get_current_scheduled_employees_for_team get_next_shift_for_team verdict filed gate
    find_eligible_employees has_skills by_workload workload new_rotation or_create
    get_or_create_rotation active_members is_active_member existing_assignment or_number advance
    in_range new_assignment moved_rotation assigned_incident written dispatch committed
    assign_selected already assign_unless assign_locked locked_incident
    assign_next_rotation_employee
runs = tt
