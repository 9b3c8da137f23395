-- ===== src/Engine/Group.antt =====
-- services/assignment_engine.py, `assign_group`: one assignment for each of the ten members of a team.
-- The hook for exhausted test mocks is off, and incidents are persistent.
use incident.Prelude.{
  ℕ, Bool, true, false, ◌&&◌, not, Option, none, some, List, [], ◌∷◌, ◌++◌, ◌==◌, ltb,
  if◌then◌else◌, select, find?, update, length, Text, text_eq, codes,
}
use incident.Models.{
  Team, Employee, Incident, IncidentState, IncidentAssignment, AssignmentType, AssignmentStatus,
  AssignmentCycle, CycleStatus, AuditAction, NotificationType,
}
use incident.Session.{
  Tables, to_user, to_team, to_all, my_work_updated, group_activity_event, incident_updated,
  value_error, put_incident,
}
use incident.Rotation.{active_members, locked_incident, or_number}
use incident.Notices.{create_notification}
use incident.Engine.Settings.{Engine, instructed}
use incident.Actions.{
  Act, pure, fail, ◌>>=◌, ◌>>◌, query, change, flushing, committing, rolling_back, emit, logging,
  catching, in_session,
}
use incident.Engine.Repetition.{
  GroupOutcome, cycle_id_of, cycle_str, or_one, repeated_cycle, repeated_rows,
}

abbrev pub is_older : ℕ → ℕ → IncidentAssignment → Bool
is_older incident_id cycle a =
    (a.incident_id == incident_id) && (a.is_active && ltb a.cycle_number cycle)

abbrev pub as_completed : IncidentAssignment → IncidentAssignment
as_completed a = record a { is_active = false; status = AssignmentStatus.completed }

unfoldable pub close_older : ℕ → ℕ → Tables → Tables
close_older incident_id cycle t = record t {
  assignments = update (is_older incident_id cycle) as_completed t.assignments;
}

unfoldable pub distinct_ids : List ℕ → List ℕ
distinct_ids [] = []
distinct_ids (i ∷ ids) = i ∷ select (λ j. not (j == i)) (distinct_ids ids)

unfoldable pub employee_ids : List Employee → List ℕ
employee_ids [] = []
employee_ids (e ∷ emps) = e.id ∷ employee_ids emps

unfoldable pub holder_ids : List IncidentAssignment → List ℕ
holder_ids [] = []
holder_ids (a ∷ rows) = a.employee_id ∷ holder_ids rows

unfoldable pub new_cycle : Incident → Team → ℕ → Text → Option Text → AssignmentCycle
new_cycle inc team cycle id key = record {
  id = id;
  incident_id = inc.id;
  team_id = team.id;
  cycle_number = cycle;
  status = CycleStatus.in_progress;
  total_members = 10;
  assigned_count = 0;
  idempotency_key = key;
  completed_at = none;
}

unfoldable pub unless_known : AssignmentCycle → Option AssignmentCycle → Act (Unit {0})
unless_known x (some y) = pure tt
unless_known x none = do change (λ t. record t { cycles = t.cycles ++ x ∷ [] }); flushing

unfoldable pub member_assignment :
    Engine → Incident → Team → ℕ → Text → Employee → IncidentAssignment
member_assignment c inc team cycle id e = record {
  id = c.member_assignment_id e.id;
  incident_id = inc.id;
  employee_id = e.id;
  cycle_number = cycle;
  assignment_type = AssignmentType.group;
  status = AssignmentStatus.assigned;
  reason = codes "Group assignment to " ++ team.name ++ codes " (" ++ cycle_str cycle ++ codes ")";
  assigned_at = c.utc_now;
  assigned_by = none;
  is_active = true;
  scheduled_shift_name = none;
  scheduled_start = none;
  team_id = some team.id;
  assignment_cycle_id = some id;
  rotation_cycle = none;
  rotation_position = none;
  source_event_id = none;
}

-- A row of the cycle that is there already is taken up again; its status stays as it is.
abbrev pub taken_up : Text → IncidentAssignment → IncidentAssignment
taken_up id a = record a { is_active = true; assignment_cycle_id = some id }

abbrev pub is_member_row : ℕ → ℕ → ℕ → IncidentAssignment → Bool
is_member_row incident_id cycle employee_id a =
    (a.incident_id == incident_id) && ((a.employee_id == employee_id) && (a.cycle_number == cycle))

unfoldable pub take_member :
    Engine
    → Incident
    → Team
    → ℕ
    → Text
    → Employee
    → Option IncidentAssignment
    → Act IncidentAssignment
take_member c inc team cycle id e (some a) = do
  change (λ t. record t { assignments = update (λ x. x.id == a.id) (taken_up id) t.assignments })
  pure (taken_up id a)
take_member c inc team cycle id e none = do
  let new : IncidentAssignment = member_assignment c inc team cycle id e
  change (λ t. record t { assignments = t.assignments ++ new ∷ [] })
  pure new

unfoldable pub take_members :
    Engine → Incident → Team → ℕ → Text → List Employee → Act (List IncidentAssignment)
take_members c inc team cycle id [] = pure []
take_members c inc team cycle id (e ∷ emps) = do
  existing ← query (λ t. find? (is_member_row inc.id cycle e.id) t.assignments)
  a ← take_member c inc team cycle id e existing
  rows ← take_members c inc team cycle id emps
  pure (a ∷ rows)

unfoldable pub completed_cycle : Engine → Text → AssignmentCycle → AssignmentCycle
completed_cycle c id x =
    if text_eq x.id id
    then record x {
      status = CycleStatus.completed;
      assigned_count = 10;
      completed_at = some c.utc_now;
    }
    else x

unfoldable pub update_cycles : Engine → Text → List AssignmentCycle → List AssignmentCycle
update_cycles c id [] = []
update_cycles c id (x ∷ rows) = completed_cycle c id x ∷ update_cycles c id rows

unfoldable pub group_incident : Engine → Incident → Team → ℕ → Incident
group_incident c inc team cycle = record inc {
  state = IncidentState.assigned;
  assigned_to = some (team.name ++ codes " (All 10 Members)");
  assignment_group = some team.name;
  current_cycle = cycle;
  work_instructions = instructed c (some team.id) inc.work_instructions;
}

unfoldable pub complete_cycle : Engine → Incident → Team → ℕ → Text → Tables → Tables
complete_cycle c inc team cycle id t =
    put_incident (record t { cycles = update_cycles c id t.cycles })
      (group_incident c inc team cycle)

unfoldable pub tell_members : ℕ → List Employee → List IncidentAssignment → Act (Unit {0})
tell_members incident_id (e ∷ emps) (a ∷ rows) = do
  catching
      (in_session (
          create_notification NotificationType.incident_assigned (some incident_id) (some a.id)
            e.user_id)
        >> emit (to_user e.user_id my_work_updated))
      tt
  tell_members incident_id emps rows
tell_members incident_id _ _ = pure tt

unfoldable pub tell_group : Team → ℕ → List Employee → List IncidentAssignment → Act (Unit {0})
tell_group team incident_id members rows = do
  tell_members incident_id members rows
  emit (to_team team.id group_activity_event)
  emit (to_all incident_updated)
  catching (logging AuditAction.group_assignment_completed incident_id none) tt

-- Steps 9 to 11.
unfoldable pub seal_members :
    Engine → Incident → Team → ℕ → Text → List Employee → List IncidentAssignment → Act GroupOutcome
seal_members c inc team cycle id members rows = do
  flushing
  if (length rows == 10) && (length (distinct_ids (holder_ids rows)) == 10)
      then pure tt
      else (rolling_back >> fail value_error)
  change (complete_cycle c inc team cycle id)
  committing
  tell_group team inc.id members rows
  pure (record { idempotent = false; cycle_id = id; assignments = rows })

-- Steps 7 to 11, for the members of the team.
unfoldable pub assign_members :
    Engine → Incident → Team → ℕ → Text → Option Text → List Employee → Act GroupOutcome
assign_members c inc team cycle id key members = do
  known ← query (λ t. find? (λ x. text_eq x.id id) t.cycles)
  unless_known (new_cycle inc team cycle id key) known
  rows ← take_members c inc team cycle id members
  seal_members c inc team cycle id members rows

-- Steps 4 and 5.
unfoldable pub if_valid :
    Engine → Incident → Team → ℕ → Text → Option Text → List Employee → Act GroupOutcome
if_valid c inc team cycle id key members =
    if (length members == 10) && (length (distinct_ids (employee_ids members)) == 10)
    then assign_members c inc team cycle id key members
    else fail value_error

unfoldable pub assign_cycle : Engine → Incident → Team → ℕ → Text → Option Text → Act GroupOutcome
assign_cycle c inc team cycle id key = do
  flushing
  change (close_older inc.id cycle)
  members ← query (λ t. active_members c.by_code t team.id)
  if_valid c inc team cycle id key members

unfoldable pub unless_repeated : Option GroupOutcome → Act GroupOutcome → Act GroupOutcome
unless_repeated (some out) rest = pure out
unless_repeated none rest = rest

unfoldable pub assign_group : Engine → Incident → Team → Option ℕ → Option Text → Act GroupOutcome
assign_group c inc team cycle_number key = do
  locked ← query (λ t. locked_incident t inc)
  let cycle : ℕ = or_number cycle_number (or_one locked.current_cycle)
  let id : Text = cycle_id_of locked cycle
  first ← catching (query (repeated_cycle locked.id id key)) none
  second ← catching (query (repeated_rows locked.id id cycle)) none
  unless_repeated first (unless_repeated second (assign_cycle c locked team cycle id key))
