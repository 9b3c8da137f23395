-- ===== src/Incidents/Authorization.antt =====
-- api/incidents.py, `_verify_assignment_access`: the assignment that a user may act on. A path
-- parameter is a UUID or the incident's number.
use incident.Prelude.{
  ℕ, Bool, true, false, ◌&&◌, Option, none, some, List, [], ◌∷◌, ◌++◌, ◌==◌, is, leb, if◌then◌else◌,
  select, find?, min_from, reverse, Text, text_eq, codes,
}
use incident.Models.{
  Role, User, Employee, Incident, IncidentAssignment, AssignmentType, AssignmentStatus, AuditAction,
}
use incident.Session.{
  Tables, Result, not_found, forbidden, scalar_one_or_none, get_incident, put_incident,
}
use incident.Actions.{Act, pure, fail, ◌>>=◌, ◌>>◌, query, change, flushing, raising}

-- The user, and what a row that the call adds is given.
pub record Caller : Type 0 where
  pub user : User
  pub new_id : ℕ
  pub utc_now : ℕ

pub data Reference : Type 0 where
  by_uuid : ℕ → Reference
  by_number : Text → Reference

unfoldable pub is_privileged : Role → Bool
is_privileged Role.admin = true
is_privileged Role.supervisor = true
is_privileged _ = false

unfoldable pub id_or_missing : Option Incident → Act ℕ
id_or_missing none = fail not_found
id_or_missing (some inc) = pure inc.id

unfoldable pub resolve : Reference → Act ℕ
resolve (by_uuid i) = pure i
resolve (by_number s) =
    query (λ t. scalar_one_or_none (select (λ n. text_eq n.incident_number s) t.incidents))
    >>= raising
    >>= id_or_missing

unfoldable pub profile_of : ℕ → Tables → Result (Option Employee)
profile_of user_id t = scalar_one_or_none (select (λ e. e.user_id == user_id) t.employees)

unfoldable pub or_forbidden : Option Employee → Act (Option Employee)
or_forbidden none = fail forbidden
or_forbidden (some e) = pure (some e)

-- The employee whose rows alone count; none for administrators and supervisors.
unfoldable pub scope_of : User → Act (Option Employee)
scope_of u =
    if is_privileged u.role then pure none else query (profile_of u.id) >>= raising >>= or_forbidden

unfoldable pub in_scope : ℕ → Option Employee → IncidentAssignment → Bool
in_scope incident_id none a = a.incident_id == incident_id
in_scope incident_id (some e) a = (a.incident_id == incident_id) && (a.employee_id == e.id)

newer : IncidentAssignment → IncidentAssignment → Bool
newer a b = leb b.assigned_at a.assigned_at

-- ORDER BY assigned_at DESC, and the first row.
unfoldable pub latest : List IncidentAssignment → Option IncidentAssignment
unfolding newer
latest [] = none
latest (a ∷ rows) = some (min_from newer a rows)

unfoldable pub is_done : AssignmentStatus → Bool
is_done AssignmentStatus.completed = true
is_done _ = false

unfoldable pub if_done : Option IncidentAssignment → Option IncidentAssignment
if_done none = none
if_done (some a) = if is_done a.status then some a else none

unfoldable pub or_done :
    Option IncidentAssignment → Option IncidentAssignment → Option IncidentAssignment
or_done (some a) o = some a
or_done none o = if_done o

-- An active assignment in scope, or else the latest one if it is completed.
unfoldable pub accessible : ℕ → Option Employee → Tables → Option IncidentAssignment
accessible incident_id scope t =
    or_done (find? (λ a. in_scope incident_id scope a && a.is_active) t.assignments)
      (latest (select (in_scope incident_id scope) t.assignments))

is_shadow_assign : AuditAction → Bool
is_shadow_assign AuditAction.shadow_assign = true
is_shadow_assign _ = false

-- Whether the newest SHADOW_ASSIGN entry of the incident recommends the employee.
unfoldable pub is_recommended : ℕ → ℕ → Tables → Bool
unfolding is_shadow_assign
is_recommended incident_id employee_id t =
    elim (find? (λ l. is_shadow_assign l.action && (l.entity_id == incident_id))
      (reverse t.audit_logs)) [ none ↦ false | some l ↦ is l.employee employee_id ]

unfoldable pub shadow_assignment : Caller → ℕ → ℕ → IncidentAssignment
shadow_assignment c incident_id employee_id = record {
  id = c.new_id;
  incident_id = incident_id;
  employee_id = employee_id;
  cycle_number = 1;
  assignment_type = AssignmentType.shadow;
  status = AssignmentStatus.assigned;
  reason = codes "Shadow candidate accepted assignment";
  assigned_at = c.utc_now;
  assigned_by = none;
  is_active = true;
  scheduled_shift_name = none;
  scheduled_start = none;
  team_id = none;
  assignment_cycle_id = none;
  rotation_cycle = none;
  rotation_position = none;
  source_event_id = none;
}

unfoldable pub accept_shadow : Caller → Employee → Incident → Bool → Act IncidentAssignment
accept_shadow c e inc false = fail not_found
accept_shadow c e inc true = do
  let a : IncidentAssignment = shadow_assignment c inc.id e.id
  change (λ t.
      put_incident (record t { assignments = t.assignments ++ a ∷ [] })
        (record inc { assigned_to = some c.user.full_name }))
  flushing
  pure a

unfoldable pub if_shadow : Caller → Employee → Option Incident → Act IncidentAssignment
if_shadow c e none = fail not_found
if_shadow c e (some inc) = query (is_recommended inc.id e.id) >>= accept_shadow c e inc

unfoldable pub or_shadow :
    Caller → ℕ → Option Employee → Option IncidentAssignment → Act IncidentAssignment
or_shadow c incident_id scope (some a) = pure a
or_shadow c incident_id none none = fail not_found
or_shadow c incident_id (some e) none = query (λ t. get_incident t incident_id) >>= if_shadow c e

unfoldable pub check_holder : Option Employee → IncidentAssignment → Act IncidentAssignment
check_holder none a = pure a
check_holder (some e) a = if a.employee_id == e.id then pure a else fail forbidden

unfoldable pub verify_assignment_access : Caller → Reference → Act IncidentAssignment
verify_assignment_access c ref = do
  incident_id ← resolve ref
  scope ← scope_of c.user
  found ← query (accessible incident_id scope)
  a ← or_shadow c incident_id scope found
  check_holder scope a
