-- ===== src/Session.antt =====
-- The AsyncSession of backend/app/core/database.py that every service writes through: the rows as the
-- session sees them, the rows that are committed, and what has gone out over the websockets.
-- A flush sends pending rows to the database, which enforces the unique indexes; a commit flushes
-- and makes the rows durable; a rollback returns to the committed rows.
use incident.Prelude.{
  ℕ, Option, none, some, List, [], ◌∷◌, ◌++◌, ◌==◌, if◌then◌else◌, find?, update,
}
use incident.Models.{
  User, Team, Employee, EmployeeSkill, Shift, ShiftAssignment, Incident, IncidentRequiredSkill,
  IncidentAssignment, all_unique, TeamRotation, AssignmentCycle, Notification, AuditLog,
  AuditAction, SyncFailure, IntegrationEvent,
}

pub record Tables : Type 0 where
  pub users : List User
  pub teams : List Team
  pub employees : List Employee
  pub employee_skills : List EmployeeSkill
  pub shifts : List Shift
  pub shift_assignments : List ShiftAssignment
  pub incidents : List Incident
  pub required_skills : List IncidentRequiredSkill
  pub assignments : List IncidentAssignment
  pub rotations : List TeamRotation
  pub cycles : List AssignmentCycle
  pub notifications : List Notification
  pub audit_logs : List AuditLog
  pub sync_failures : List SyncFailure
  pub integration_events : List IntegrationEvent

-- The events of websocket/manager.py that the modelled services send.
pub data EventType : Type 0 where
  team_workboard_updated my_work_updated incident_updated group_activity_event : EventType
  coverage_exception notification_created group_notice_created : EventType
  incident_completed : EventType

pub data Dispatch : Type 0 where
  to_user to_team : ℕ → EventType → Dispatch
  to_admins to_all : EventType → Dispatch

pub record Session : Type 0 where
  pub rows : Tables
  pub saved : Tables
  pub sent : List Dispatch

-- The exceptions that the services raise or let through.
pub data Error : Type 0 where
  value_error index_error zero_division integrity_error not_found multiple_results runtime_error :
      Error
  forbidden unauthorized payload_too_large misconfigured bad_request : Error

pub data Result {ℓ} (A : Type ℓ) : Type ℓ where
  ok : A → Result A
  err : Error → Result A

-- A query that should yield at most one row, and raises if it yields more.
unfoldable pub scalar_one_or_none {ℓ} : {A : Type ℓ} → List A → Result (Option A)
scalar_one_or_none [] = ok none
scalar_one_or_none (a ∷ []) = ok (some a)
scalar_one_or_none (a ∷ b ∷ rows) = err multiple_results

unfoldable pub flush : Session → Result (Unit {0})
flush s = if all_unique s.rows.assignments then ok tt else err integrity_error

-- A failed flush leaves nothing to commit: the session has to be rolled back.
unfoldable pub commit : Session → Result (Unit {0}) × Session
commit s =
    if all_unique s.rows.assignments
    then (ok tt, record s { saved = s.rows })
    else (err integrity_error, s)

unfoldable pub rollback : Session → Session
rollback s = record s { rows = s.saved }

-- `db.get(User, id)` and the like: a primary key names at most one row.
unfoldable pub get_user : Tables → ℕ → Option User
get_user t i = find? (λ u. u.id == i) t.users

unfoldable pub get_employee : Tables → ℕ → Option Employee
get_employee t i = find? (λ e. e.id == i) t.employees

unfoldable pub get_team : Tables → Option ℕ → Option Team
get_team t none = none
get_team t (some i) = find? (λ m. m.id == i) t.teams

unfoldable pub get_incident : Tables → ℕ → Option Incident
get_incident t i = find? (λ n. n.id == i) t.incidents

-- An object of the session is written back to its row.
unfoldable pub put_incident : Tables → Incident → Tables
put_incident t inc = record t { incidents = update (λ n. n.id == inc.id) (λ _. inc) t.incidents }

unfoldable pub log : AuditAction → ℕ → Option ℕ → Tables → Tables
log action entity employee t = record t {
  audit_logs =
      t.audit_logs ++ record { action = action; entity_id = entity; employee = employee } ∷ [];
}
