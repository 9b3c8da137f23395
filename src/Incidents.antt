-- ===== src/Incidents.antt =====
-- api/incidents.py: who may act on an incident, and what acknowledging, starting and completing it do.
-- A path parameter is a UUID or the incident's number; the answer is left out, but for its status.
pub mod Authorization
pub mod Access
pub mod Lifecycle
use incident.Prelude.{
  ℕ, Bool, true, false, ◌&&◌, not, Option, none, some, List, [], ◌∷◌, ◌++◌, ◌==◌, is, leb,
  if◌then◌else◌, select, find?, update, min_from, reverse, Text, text_eq, truthy, codes, or_empty,
}
use incident.Models.{
  Role, User, Employee, Team, Incident, IncidentState, IncidentAssignment, AssignmentType,
  AssignmentStatus, AuditLog, AuditAction,
}
use incident.Session.{
  Tables, Result, not_found, forbidden, scalar_one_or_none, get_incident, put_incident, to_user,
  to_team, to_admins, to_all, my_work_updated, incident_updated, incident_completed,
  group_activity_event,
}
use incident.Actions.{
  Act, pure, fail, ◌>>=◌, ◌>>◌, query, change, flushing, committing, emit, logging, raising,
}
use incident.Incidents.Authorization.{
  Caller, Reference, is_done, profile_of, verify_assignment_access,
}

-- `_get_incident_team_id`.
unfoldable pub team_id_of_group : Option Incident → Tables → Result (Option Team)
team_id_of_group none t = scalar_one_or_none []
team_id_of_group (some inc) t =
    if truthy (or_empty inc.assignment_group)
    then scalar_one_or_none (select (λ m. text_eq m.name (or_empty inc.assignment_group)) t.teams)
    else scalar_one_or_none []

team_of_profile : Option Employee → Option ℕ
team_of_profile none = none
team_of_profile (some e) = e.team_id

unfoldable pub or_own_team : User → Option Team → Act (Option ℕ)
unfolding team_of_profile
or_own_team u (some m) = pure (some m.id)
or_own_team u none = query (profile_of u.id) >>= raising >>= λ e. pure (team_of_profile e)

unfoldable pub get_incident_team_id : Option Incident → User → Act (Option ℕ)
get_incident_team_id inc u = query (team_id_of_group inc) >>= raising >>= or_own_team u

unfoldable pub to_team_if : Option ℕ → Act (Unit {0})
to_team_if none = pure tt
to_team_if (some i) = emit (to_team i group_activity_event)

unfoldable pub tell_groups : Option Incident → User → Act (Unit {0})
tell_groups inc u = do
  team ← get_incident_team_id inc u
  to_team_if team
  emit (to_admins group_activity_event)

unfoldable pub put_assignment : IncidentAssignment → Tables → Tables
put_assignment a t = record t { assignments = update (λ x. x.id == a.id) (λ _. a) t.assignments }

unfoldable pub put_state : Option Incident → IncidentState → Tables → Tables
put_state none state t = t
put_state (some inc) state t = put_incident t (record inc { state = state })

unfoldable pub tell_progress : Option Incident → User → Act (Unit {0})
tell_progress inc u = do
  emit (to_all incident_updated)
  emit (to_user u.id my_work_updated)
  tell_groups inc u

unfoldable pub is_acknowledged : AssignmentStatus → Bool
is_acknowledged AssignmentStatus.acknowledged = true
is_acknowledged _ = false

unfoldable pub is_acknowledged_state : IncidentState → Bool
is_acknowledged_state IncidentState.acknowledged = true
is_acknowledged_state _ = false

unfoldable pub is_settled : Option Incident → Bool
is_settled none = true
is_settled (some inc) = is_acknowledged_state inc.state

unfoldable pub acknowledged : IncidentAssignment → IncidentAssignment
acknowledged a = record a { status = AssignmentStatus.acknowledged }

unfoldable pub acknowledge_found : Caller → IncidentAssignment → Option Incident → Act (Unit {0})
acknowledge_found c a inc =
    if is_acknowledged a.status
    then (if is_settled inc
        then pure tt
        else (change (put_state inc IncidentState.acknowledged) >> committing))
    else (do
      change (λ t. put_state inc IncidentState.acknowledged (put_assignment (acknowledged a) t))
      logging AuditAction.incident_acknowledged a.incident_id none
      committing
      tell_progress inc c.user)

unfoldable pub acknowledge_incident : Caller → Reference → Act (Unit {0})
acknowledge_incident c ref = do
  a ← verify_assignment_access c ref
  inc ← query (λ t. get_incident t a.incident_id)
  acknowledge_found c a inc

unfoldable pub started : IncidentAssignment → IncidentAssignment
started a = record a { status = AssignmentStatus.in_progress }

unfoldable pub start_found : Caller → IncidentAssignment → Option Incident → Act (Unit {0})
start_found c a inc = do
  change (put_state inc IncidentState.in_progress)
  logging AuditAction.incident_started a.incident_id none
  committing
  tell_progress inc c.user

unfoldable pub start_incident : Caller → Reference → Act (Unit {0})
start_incident c ref = do
  a ← verify_assignment_access c ref
  change (put_assignment (started a))
  inc ← query (λ t. get_incident t a.incident_id)
  start_found c a inc

unfoldable pub finished : IncidentAssignment → IncidentAssignment
finished a = record a { status = AssignmentStatus.completed; is_active = false }

unfoldable pub complete_found : Caller → IncidentAssignment → Option Incident → Act (Unit {0})
complete_found c a inc = do
  change (put_state inc IncidentState.resolved)
  logging AuditAction.incident_completed a.incident_id none
  committing
  emit (to_all incident_updated)
  emit (to_all incident_completed)
  emit (to_all my_work_updated)
  tell_groups inc c.user

unfoldable pub complete_unless : Caller → IncidentAssignment → Act (Unit {0})
complete_unless c a = if is_done a.status then pure tt else (do
  change (put_assignment (finished a))
  inc ← query (λ t. get_incident t a.incident_id)
  complete_found c a inc)

unfoldable pub complete_incident : Caller → Reference → Act (Unit {0})
complete_incident c ref = verify_assignment_access c ref >>= complete_unless c
