-- ===== src/Mapper.antt =====
-- integrations/servicenow/mapper.py: what ServiceNow sends, as the program's incident has it. A
-- reference is a dict; any other value stands for its `str`. Columns that the model leaves out are
-- left out here.
use incident.Prelude.{
  Option, none, some, List, [], ◌∷◌, if◌then◌else◌, Text, text_eq, truthy, codes, strip, or_empty,
}
use incident.Models.{IncidentState, Priority}

pub data Value : Type 0 where
  plain : Text → Value
  reference : (display_value name value : Option Text) → Value

-- `ServiceNowIncidentPayload` of schemas/servicenow.py, which ignores any other key.
pub record Payload : Type 0 where
  pub sys_id : Text
  pub number : Text
  pub priority : Option Text
  pub state : Option Text
  pub assignment_group : Option Value
  pub assigned_to : Option Value
  pub work_notes : Option Text
  pub u_work_notes : Option Text
  pub u_work_instructions : Option Text

pub record Mapped : Type 0 where
  pub incident_number : Text
  pub servicenow_sys_id : Text
  pub priority : Priority
  pub assignment_group : Option Text
  pub assigned_to : Option Text
  pub state : IncidentState
  pub work_notes : Option Text
  pub work_instructions : Option Text

-- `o or p` on texts.
unfoldable pub or_text : Option Text → Option Text → Option Text
or_text none p = p
or_text (some s) p = if truthy s then some s else p

unfoldable pub extract_display_value : Option Value → Option Text
extract_display_value none = none
extract_display_value (some (plain s)) = some s
extract_display_value (some (reference display_value name value)) =
    or_text display_value (or_text name value)

-- `dict.get(key, default)`.
unfoldable pub get_text {ℓ} : {A : Type ℓ} → Text → A → List (Text × A) → A
get_text key default [] = default
get_text key default ((k, v) ∷ rows) =
    let rest = get_text key default rows in if text_eq k key then v else rest

abbrev pub priority_map_to_app : List (Text × Priority)
priority_map_to_app =
    (codes "1", Priority.p1)
    ∷ (codes "2", Priority.p2)
    ∷ (codes "3", Priority.p3)
    ∷ (codes "4", Priority.p4)
    ∷ (codes "1 - Critical", Priority.p1)
    ∷ (codes "2 - High", Priority.p2)
    ∷ (codes "3 - Moderate", Priority.p3)
    ∷ (codes "4 - Low", Priority.p4)
    ∷ []

abbrev pub state_map_to_app : List (Text × IncidentState)
state_map_to_app =
    (codes "1", IncidentState.new)
    ∷ (codes "2", IncidentState.in_progress)
    ∷ (codes "3", IncidentState.on_hold)
    ∷ (codes "6", IncidentState.resolved)
    ∷ (codes "7", IncidentState.closed)
    ∷ (codes "8", IncidentState.canceled)
    ∷ (codes "New", IncidentState.new)
    ∷ (codes "In Progress", IncidentState.in_progress)
    ∷ (codes "Resolved", IncidentState.resolved)
    ∷ (codes "Closed", IncidentState.closed)
    ∷ []

unfoldable pub map_priority : Option Text → Priority
map_priority o =
    if truthy (or_empty o)
    then get_text (strip (or_empty o)) Priority.p3 priority_map_to_app
    else Priority.p3

unfoldable pub map_state : Option Text → IncidentState
map_state o =
    if truthy (or_empty o)
    then get_text (strip (or_empty o)) IncidentState.new state_map_to_app
    else IncidentState.new

unfoldable pub to_incident : Payload → Mapped
to_incident p = record {
  incident_number = p.number;
  servicenow_sys_id = p.sys_id;
  priority = map_priority p.priority;
  assignment_group = extract_display_value p.assignment_group;
  assigned_to = extract_display_value p.assigned_to;
  state = map_state p.state;
  work_notes = or_text p.work_notes p.u_work_notes;
  work_instructions = or_text p.u_work_instructions none;
}
