-- ===== src/Rotation.antt =====
-- services/rotation_service.py: the persistent rotation that hands each incident of a team to one of
-- its ten members. `by_code` is the database's ORDER BY employee_code, id, whose collation is not
-- the program's. The hook for exhausted test mocks is off, and incidents are persistent.
pub mod Pointer
pub mod Locks
pub mod Writes
pub mod Fairness
pub mod Replays
pub mod Totality
use incident.Prelude.{
  ℕ, ◌+◌, ◌-◌, Bool, true, false, not, ◌&&◌, ◌||◌, Option, none, some, get_or, List, [], ◌∷◌, ◌++◌,
  map, ◌==◌, ltb, leb, is, if◌then◌else◌, select, find?, update, sort, length, get_elem?, Text,
  text_eq, truthy,
}
use incident.Models.{
  User, is_employee, Team, Employee, Incident, IncidentState, IncidentAssignment, AssignmentType,
  AssignmentStatus, TeamRotation, Notification, NotificationType,
}
use incident.Session.{
  Tables, Session, Error, Result, ok, err, value_error, index_error, commit, get_user, get_incident,
  put_incident, EventType, Dispatch, to_user, to_team, team_workboard_updated, my_work_updated,
}

-- The arguments of a call besides the team and the incident: the clock's reading, the identifier
-- drawn for the new row, the idempotency key and the user who assigns.
pub record Call : Type 0 where
  pub now : ℕ
  pub new_id : ℕ
  pub key : Option Text
  pub assigned_by : Option ℕ

pub record Outcome : Type 0 where
  pub idempotent : Bool
  pub assignment : IncidentAssignment
  pub rotation_position : ℕ
  pub rotation_cycle : ℕ
  pub next_employee : Option Employee

unfoldable pub new_rotation : ℕ → TeamRotation
new_rotation team_id = record {
  team_id = team_id;
  current_position = 1;
  cycle_number = 1;
  last_assigned_employee_id = none;
  last_incident_id = none;
  last_idempotency_key = none;
  updated_at = none;
}

abbrev pub find_rotation : ℕ → Tables → Option TeamRotation
find_rotation team_id t = find? (λ r. r.team_id == team_id) t.rotations

unfoldable pub or_create : ℕ → Tables → Option TeamRotation → TeamRotation × Tables
or_create team_id t (some r) = (r, t)
or_create team_id t none =
    (new_rotation team_id, record t { rotations = t.rotations ++ new_rotation team_id ∷ [] })

unfoldable pub get_or_create_rotation : ℕ → Tables → TeamRotation × Tables
get_or_create_rotation team_id t = or_create team_id t (find_rotation team_id t)

unfoldable pub is_active_member : Option User → Bool
is_active_member none = false
is_active_member (some u) = u.is_active && is_employee u.role

unfoldable pub active_members : (Employee → Employee → Bool) → Tables → ℕ → List Employee
active_members by_code t team_id =
    sort by_code
      (select (λ e. is e.team_id team_id && is_active_member (get_user t e.user_id)) t.employees)

unfoldable pub locked_incident : Tables → Incident → Incident
locked_incident t inc = get_or (get_incident t inc.id) inc

abbrev pub is_event : ℕ → Text → IncidentAssignment → Bool
is_event incident_id key a =
    (a.incident_id == incident_id)
    && (a.is_active && elim a.source_event_id [ none ↦ false | some k ↦ text_eq k key ])

-- The active assignment that the same event has made already.
unfoldable pub existing_assignment : Option Text → ℕ → Tables → Option IncidentAssignment
existing_assignment none incident_id t = none
existing_assignment (some key) incident_id t =
    let found = find? (is_event incident_id key) t.assignments in if truthy key then found else none

-- Python's `o or n` on a nullable number.
unfoldable pub or_number : Option ℕ → ℕ → ℕ
or_number none n = n
or_number (some m) n = if m == 0 then n else m

-- "1..10 -> 1 on wrap-around, cycle increments".
unfoldable pub advance : ℕ × ℕ → ℕ × ℕ
advance (position, cycle) = if leb 10 position then (1, cycle + 1) else (position + 1, cycle)

unfoldable pub in_range : TeamRotation → ℕ × ℕ
in_range r = (
  (if ltb r.current_position 1 || ltb 10 r.current_position then 1 else r.current_position),
  (if ltb r.cycle_number 1 then 1 else r.cycle_number),
)

abbrev pub is_active_on : ℕ → IncidentAssignment → Bool
is_active_on incident_id a = (a.incident_id == incident_id) && a.is_active

abbrev pub as_reassigned : IncidentAssignment → IncidentAssignment
as_reassigned a = record a { is_active = false; status = AssignmentStatus.reassigned }

unfoldable pub new_assignment : Call → Team → Incident → Employee → ℕ × ℕ → IncidentAssignment
new_assignment c team inc e (position, cycle) = record {
  id = c.new_id;
  incident_id = inc.id;
  employee_id = e.id;
  cycle_number = 1;
  assignment_type = AssignmentType.rotation;
  status = AssignmentStatus.assigned;
  reason = [];
  assigned_at = c.now;
  assigned_by = c.assigned_by;
  is_active = true;
  scheduled_shift_name = none;
  scheduled_start = none;
  team_id = some team.id;
  assignment_cycle_id = none;
  rotation_cycle = some cycle;
  rotation_position = some position;
  source_event_id = c.key;
}

assignee_name : Tables → Employee → Option Text
assignee_name t e = elim (get_user t e.user_id) [
  | some u ↦ some u.full_name
  | none ↦ e.employee_code
]

unfoldable pub moved_rotation : Call → Incident → Employee → TeamRotation → TeamRotation
moved_rotation c inc e r =
    let (next_position, next_cycle) = advance (in_range r) in
    record r {
      current_position = next_position;
      cycle_number = next_cycle;
      last_assigned_employee_id = some e.id;
      last_incident_id = some inc.id;
      last_idempotency_key = c.key;
      updated_at = some c.now;
    }

unfoldable pub assigned_incident : Tables → Team → Employee → Incident → Incident
unfolding assignee_name
assigned_incident t team e inc = record inc {
  state = IncidentState.assigned;
  assigned_to = assignee_name t e;
  assignment_group = some team.name;
}

-- Steps 5 to 8: what is written before the commit.
unfoldable pub written : Call → Team → Incident → Employee → TeamRotation → Tables → Tables
written c team inc e r t =
    put_incident
      (record t {
        assignments =
            update (is_active_on inc.id) as_reassigned t.assignments
            ++ new_assignment c team inc e (in_range r) ∷ [];
        rotations =
            update (λ x. x.team_id == r.team_id) (λ _. moved_rotation c inc e r) t.rotations;
      })
      (assigned_incident t team e inc)

notice : NotificationType → Option ℕ → ℕ → ℕ → Notification
notice type assignment_id incident_id user_id = record {
  user_id = user_id;
  type = type;
  incident_id = some incident_id;
  assignment_id = assignment_id;
}

-- Team notices go to all members; the personal notice and event go to the selected one.
unfoldable pub dispatch :
    Team → List Employee → Employee → Incident → IncidentAssignment → Session → Session
unfolding notice
dispatch team members selected inc a s = record s {
  rows = record s.rows {
    notifications =
        s.rows.notifications
        ++ (map (λ m. notice NotificationType.team_notice none inc.id m.user_id) members
            ++ notice NotificationType.incident_assigned (some a.id) inc.id selected.user_id ∷ []);
  };
  sent =
      s.sent
      ++ to_team team.id team_workboard_updated ∷ to_user selected.user_id my_work_updated ∷ [];
}

unfoldable pub committed :
    Call
    → Team
    → Incident
    → List Employee
    → Employee
    → TeamRotation
    → Result (Unit {0}) × Session
    → Result Outcome × Session
committed c team inc members e r (err x, s) = (err x, s)
committed c team inc members e r (ok _, s) =
    let a = new_assignment c team inc e (in_range r) in
    (
      ok (record {
        idempotent = false;
        assignment = a;
        rotation_position = (in_range r).0;
        rotation_cycle = (in_range r).1;
        next_employee = get_elem? members ((advance (in_range r)).0 - 1);
      }),
      dispatch team members e (assigned_incident s.rows team e inc) a s,
    )

unfoldable pub assign_selected :
    Call
    → Team
    → Incident
    → List Employee
    → TeamRotation
    → Option Employee
    → Session
    → Result Outcome × Session
assign_selected c team inc members r none s = (err index_error, s)
assign_selected c team inc members r (some e) s =
    committed c team inc members e r (commit (record s { rows = written c team inc e r s.rows }))

unfoldable pub already : TeamRotation → IncidentAssignment → Outcome
already r a = record {
  idempotent = true;
  assignment = a;
  rotation_position = or_number a.rotation_position r.current_position;
  rotation_cycle = or_number a.rotation_cycle r.cycle_number;
  next_employee = none;
}

unfoldable pub assign_unless :
    Call
    → Team
    → Incident
    → List Employee
    → TeamRotation
    → Option IncidentAssignment
    → Session
    → Result Outcome × Session
assign_unless c team inc members r (some a) s = (ok (already r a), s)
assign_unless c team inc members r none s =
    assign_selected c team inc members r (get_elem? members ((in_range r).0 - 1)) s

unfoldable pub assign_locked :
    Call
    → Team
    → Incident
    → List Employee
    → TeamRotation × Tables
    → Session
    → Result Outcome × Session
assign_locked c team inc members (r, t) s =
    assign_unless c team inc members r (existing_assignment c.key inc.id t) (record s { rows = t })

unfoldable pub assign_next_rotation_employee :
    (Employee → Employee → Bool) → Call → Team → Incident → Session → Result Outcome × Session
assign_next_rotation_employee by_code c team incident s =
    let members = active_members by_code s.rows team.id in
    if not (length members == 10)
    then (err value_error, s)
    else assign_locked c team (locked_incident s.rows incident) members
        (get_or_create_rotation team.id s.rows) s
