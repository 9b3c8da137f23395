-- ===== src/Engine/Assign.antt =====
-- services/assignment_engine.py, `_create_assignment`: the incident goes to one selected employee.
use incident.Prelude.{
  ℕ, suc, Bool, true, false, Option, none, some, ◌∷◌, [], ◌++◌, ◌==◌, if◌then◌else◌, select, Text,
  codes, truthy,
}
use incident.Models.{
  User, Employee, Incident, IncidentState, SyncStatus, IncidentAssignment, AssignmentType,
  AssignmentStatus, AuditAction, NotificationType,
}
use incident.Session.{
  Tables, Result, ok, err, not_found, integrity_error, scalar_one_or_none, get_user, get_employee,
  put_incident, to_user, to_team, to_admins, to_all, my_work_updated, group_activity_event,
  incident_updated,
}
use incident.Workload.{workload}
use incident.Strategy.{Strategy}
use incident.Rotation.{locked_incident, is_active_on}
use incident.Notices.{create_notification}
use incident.Sync.{sync_assignment_to_servicenow, with_status}
use incident.Engine.Settings.{Engine, instructed}
use incident.Engine.Repetition.{digits, or_one}
use incident.Actions.{
  Act, pure, fail, ◌>>=◌, ◌>>◌, query, change, flushing, committing, rolling_back, emit, logging,
  in_session, with_patches, recovering, raising,
}

-- The one active assignment of an incident; two of them raise.
unfoldable pub active_assignment : ℕ → Tables → Result (Option IncidentAssignment)
active_assignment incident_id t =
    scalar_one_or_none (select (is_active_on incident_id) t.assignments)

-- `emp_code or "engineer"`.
unfoldable pub code_or : Text → Option Text → Text
code_or name none = name
code_or name (some code) = if truthy code then code else name

unfoldable pub locked_name : Option User → Text
locked_name none = codes "Unknown Employee"
locked_name (some u) = u.full_name

unfoldable pub decision_reason : Engine → Strategy → Option Text → ℕ → Text
decision_reason c strategy code load =
    codes "Deterministic schedule-driven assignment to "
    ++ code_or (codes "engineer") code
    ++ codes " via "
    ++ c.strategy_word strategy
    ++ codes " strategy ("
    ++ (if load == 0 then codes "PRIORITY_1" else codes "PRIORITY_2")
    ++ codes "). Active workload: "
    ++ digits (suc load) load
    ++ codes "."

unfoldable pub created : Engine → Bool → Strategy → Incident → Employee → ℕ → IncidentAssignment
created c is_live strategy inc e load = record {
  id = c.assignment_id;
  incident_id = inc.id;
  employee_id = e.id;
  cycle_number = or_one inc.current_cycle;
  assignment_type = if is_live then AssignmentType.live else AssignmentType.automatic;
  status = AssignmentStatus.assigned;
  reason = decision_reason c strategy e.employee_code load;
  assigned_at = c.utc_now;
  assigned_by = none;
  is_active = true;
  scheduled_shift_name = none;
  scheduled_start = none;
  team_id = e.team_id;
  assignment_cycle_id = none;
  rotation_cycle = none;
  rotation_position = none;
  source_event_id = none;
}

unfoldable pub assigned_to_name : Engine → Option ℕ → Text → Incident → Incident
assigned_to_name c team_id name inc = record inc {
  state = IncidentState.assigned;
  assigned_to = some name;
  work_instructions = instructed c team_id inc.work_instructions;
}

unfoldable pub add_assignment : IncidentAssignment → Incident → Tables → Tables
add_assignment a inc t = put_incident (record t { assignments = t.assignments ++ a ∷ [] }) inc

-- What has won the race for the incident, if the flush fails.
unfoldable pub winner_or : Option IncidentAssignment → Act IncidentAssignment
winner_or (some a) = pure a
winner_or none = fail integrity_error

unfoldable pub lost_race : Incident → Act IncidentAssignment
lost_race inc = do
  rolling_back
  winner ← query (active_assignment inc.id)
  row ← raising winner
  winner_or row

unfoldable pub sync_live : Engine → Bool → Incident → Option User → Act (Unit {0})
sync_live c false inc user = pure tt
sync_live c true inc user =
    recovering
      (with_patches (
        sync_assignment_to_servicenow (codes "Assigned Engineer") c.client c.utc_now c.failure_id
          inc user))
      (change (with_status SyncStatus.sync_failed inc))

unfoldable pub log_decision : Bool → ℕ → ℕ → Act (Unit {0})
log_decision true incident_id employee_id = do
  logging AuditAction.auto_assignment_decision incident_id (some employee_id)
  logging AuditAction.live_assignment incident_id (some employee_id)
log_decision false incident_id employee_id = do
  logging AuditAction.auto_assignment_decision incident_id (some employee_id)
  logging AuditAction.auto_assign incident_id (some employee_id)
  logging AuditAction.auto_assign_success incident_id (some employee_id)

unfoldable pub tell_team_of : Option ℕ → Act (Unit {0})
tell_team_of none = pure tt
tell_team_of (some team_id) = emit (to_team team_id group_activity_event)

-- From the ServiceNow mutation on.
unfoldable pub finish :
    Engine → Bool → Incident → Employee → Option User → IncidentAssignment → Act IncidentAssignment
finish c is_live inc e user a = do
  sync_live c is_live inc user
  log_decision is_live inc.id e.id
  in_session
      (create_notification NotificationType.incident_assigned (some inc.id) (some a.id) e.user_id)
  committing
  emit (to_all incident_updated)
  emit (to_user e.user_id my_work_updated)
  tell_team_of e.team_id
  emit (to_admins group_activity_event)
  pure a

-- The flush after the row is added, with the incident assigned, decides the race.
unfoldable pub if_flushed :
    Engine
    → Bool
    → Incident
    → Employee
    → Option User
    → IncidentAssignment
    → Result (Unit {0})
    → Act IncidentAssignment
if_flushed c is_live inc e user a (ok _) = finish c is_live inc e user a
if_flushed c is_live inc e user a (err _) = lost_race inc

-- `await self.db.flush()` in a try block.
unfoldable pub flush_result : Act (Result (Unit {0}))
flush_result = recovering (flushing >> pure (ok tt)) (pure (err integrity_error))

unfoldable pub assign_employee :
    Engine → Bool → Strategy → Incident → Option Employee → Act IncidentAssignment
assign_employee c is_live strategy inc none = fail not_found
assign_employee c is_live strategy inc (some e) = do
  user ← query (λ t. get_user t e.user_id)
  load ← query (λ t. workload t e.id)
  let a : IncidentAssignment = created c is_live strategy inc e load
  let inc' : Incident = assigned_to_name c e.team_id (locked_name user) inc
  change (add_assignment a inc')
  flushed ← flush_result
  if_flushed c is_live inc' e user a flushed

unfoldable pub unless_assigned :
    Option IncidentAssignment → Act IncidentAssignment → Act IncidentAssignment
unless_assigned (some a) rest = pure a
unless_assigned none rest = rest

unfoldable pub create_assignment :
    Engine → Incident → Employee → Strategy → Bool → Act IncidentAssignment
create_assignment c inc e strategy is_live = do
  locked ← query (λ t. locked_incident t inc)
  existing ← query (active_assignment locked.id)
  row ← raising existing
  unless_assigned row
      (query (λ t. get_employee t e.id) >>= assign_employee c is_live strategy locked)
