-- ===== src/Ingest.antt =====
-- services/incident_service.py: an incident from ServiceNow is found by its sys_id or its number, and
-- updated, or else created. What the task catalogue and the random choice give for a team are a
-- parameter, as is the identifier of a new row.
pub mod Lookup
use incident.Prelude.{
  ℕ, Bool, true, false, ◌||◌, Option, none, some, List, [], ◌∷◌, ◌++◌, if◌then◌else◌, select, Text,
  text_eq, truthy, or_empty,
}
use incident.Models.{Team, Incident, SyncStatus}
use incident.Session.{Tables, Result, ok, err, scalar_one_or_none, put_incident}
use incident.Mapper.{Payload, Mapped, to_incident, or_text}
use incident.Actions.{Act, pure, ◌>>=◌, ◌>>◌, query, change, flushing, raising}
use incident.Engine.Settings.{is_group}

pub record Intake : Type 0 where
  pub incident_id : ℕ
  pub generated_number : Text
  pub task : Team → Option Text
  pub ilike : Text → Text → Bool

unfoldable pub has_sys_id : Text → Incident → Bool
has_sys_id sys_id n = elim n.servicenow_sys_id [ none ↦ false | some s ↦ text_eq s sys_id ]

unfoldable pub has_number : Text → Incident → Bool
has_number number n = text_eq n.incident_number number

-- At most one row with a key that is not empty.
unfoldable pub find_by : (Text → Incident → Bool) → Text → Tables → Result (Option Incident)
find_by p key t =
    if truthy key then scalar_one_or_none (select (p key) t.incidents) else scalar_one_or_none []

unfoldable pub or_by_number : Text → Option Incident → Act (Option Incident)
or_by_number number (some n) = pure (some n)
or_by_number number none = query (find_by has_number number) >>= raising

unfoldable pub find_existing : Payload → Act (Option Incident)
find_existing p = query (find_by has_sys_id p.sys_id) >>= raising >>= or_by_number p.number

task_of : Intake → Option Team → Option Text
task_of c none = none
task_of c (some m) = c.task m

unfoldable pub resolve_task_instructions : Intake → Text → Act (Option Text)
unfolding task_of
resolve_task_instructions c group =
    if truthy group
    then (query
          (λ t. scalar_one_or_none (select (λ m. is_group group m || c.ilike group m.name) t.teams))
        >>= raising
        >>= λ m. pure (task_of c m))
    else pure none

-- The payload's instructions, or the incident's, or else those of the catalogue.
unfoldable pub instructions_of :
    Intake → Option Text → Option Text → Option Text → Act (Option Text)
instructions_of c sent had group =
    if truthy (or_empty sent)
    then pure sent
    else if truthy (or_empty had)
    then pure had
    else if truthy (or_empty group)
    then resolve_task_instructions c (or_empty group)
    else pure had

unfoldable pub updated_incident : Mapped → Option Text → Incident → Incident
updated_incident m instructions n = record n {
  priority = m.priority;
  assignment_group = or_text m.assignment_group n.assignment_group;
  state = m.state;
  work_instructions = instructions;
  work_notes = or_empty (or_text m.work_notes (some n.work_notes));
}

unfoldable pub update_incident : Intake → Incident → Payload → Act Incident
update_incident c n p = do
  let m : Mapped = to_incident p
  instructions ←
      instructions_of c m.work_instructions n.work_instructions
        (or_text m.assignment_group n.assignment_group)
  change (λ t. put_incident t (updated_incident m instructions n))
  flushing
  pure (updated_incident m instructions n)

unfoldable pub new_incident : Intake → Mapped → Option Text → Incident
new_incident c m instructions = record {
  id = c.incident_id;
  incident_number = if truthy m.incident_number then m.incident_number else c.generated_number;
  servicenow_sys_id = some m.servicenow_sys_id;
  priority = m.priority;
  assignment_group = m.assignment_group;
  assigned_to = m.assigned_to;
  state = m.state;
  current_cycle = 1;
  work_notes = or_empty m.work_notes;
  work_instructions = instructions;
  sync_status = SyncStatus.synced;
}

unfoldable pub create_incident : Intake → Payload → Act Incident
create_incident c p = do
  let m : Mapped = to_incident p
  instructions ← instructions_of c m.work_instructions none m.assignment_group
  change (λ t. record t { incidents = t.incidents ++ new_incident c m instructions ∷ [] })
  flushing
  pure (new_incident c m instructions)

unfoldable pub update_or_create : Intake → Payload → Option Incident → Act (Incident × Bool)
update_or_create c p (some n) = update_incident c n p >>= λ x. pure (x, false)
update_or_create c p none = create_incident c p >>= λ x. pure (x, true)

unfoldable pub create_or_update_from_servicenow : Intake → Payload → Act (Incident × Bool)
create_or_update_from_servicenow c p = find_existing p >>= update_or_create c p
