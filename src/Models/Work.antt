-- ===== src/Models/Work.antt =====
-- models/incident.py, assignment.py, team_rotation.py and assignment_cycle.py: the work itself.
use incident.Prelude.{
  ℕ, Bool, true, false, Option, some, ◌==◌, ◌&&◌, ◌||◌, not, List, [], ◌∷◌, exists, Text, text_eq,
}

pub data IncidentState : Type 0 where
  new assigned acknowledged in_progress on_hold resolved closed canceled completed : IncidentState
  unassigned queued_for_next_shift sunday_holiday_hold : IncidentState

pub data Priority : Type 0 where
  p1 p2 p3 p4 : Priority

pub data SyncStatus : Type 0 where
  pending synced sync_failed : SyncStatus

pub record Incident : Type 0 where
  pub id : ℕ
  pub incident_number : Text
  pub servicenow_sys_id : Option Text
  pub priority : Priority
  pub assignment_group : Option Text
  pub assigned_to : Option Text
  pub state : IncidentState
  pub current_cycle : ℕ
  pub work_notes : Text
  pub work_instructions : Option Text
  pub sync_status : SyncStatus

pub record IncidentRequiredSkill : Type 0 where
  pub incident_id : ℕ
  pub skill_id : ℕ

pub data AssignmentType : Type 0 where
  automatic live rotation group manual shadow : AssignmentType

pub data AssignmentStatus : Type 0 where
  assigned acknowledged in_progress completed reassigned queued_for_next_shift : AssignmentStatus

-- `status.in_(['ASSIGNED', 'ACKNOWLEDGED', 'IN_PROGRESS'])`.
unfoldable pub is_open : AssignmentStatus → Bool
is_open AssignmentStatus.assigned = true
is_open AssignmentStatus.acknowledged = true
is_open AssignmentStatus.in_progress = true
is_open _ = false

pub record IncidentAssignment : Type 0 where
  pub id : ℕ
  pub incident_id : ℕ
  pub employee_id : ℕ
  pub cycle_number : ℕ
  pub assignment_type : AssignmentType
  pub status : AssignmentStatus
  pub reason : Text
  pub assigned_at : ℕ
  pub assigned_by : Option ℕ
  pub is_active : Bool
  pub scheduled_shift_name : Option Text
  pub scheduled_start : Option ℕ
  pub team_id : Option ℕ
  pub assignment_cycle_id : Option Text
  pub rotation_cycle : Option ℕ
  pub rotation_position : Option ℕ
  pub source_event_id : Option Text

unfoldable pub same_cycle_id : Option Text → Option Text → Bool
same_cycle_id (some a) (some b) = text_eq a b
same_cycle_id _ _ = false

-- Two rows that one of the unique indexes `uq_incident_emp_cycle`, `uq_cycle_emp` and
-- `uq_active_incident_emp_assignment` keeps apart.
unfoldable pub clashes : IncidentAssignment → IncidentAssignment → Bool
unfolding same_cycle_id
clashes a b =
    (a.employee_id == b.employee_id)
    && ((a.incident_id == b.incident_id)
          && ((a.cycle_number == b.cycle_number) || (a.is_active && b.is_active))
        || same_cycle_id a.assignment_cycle_id b.assignment_cycle_id)

unfoldable pub all_unique : List IncidentAssignment → Bool
unfolding clashes
all_unique [] = true
all_unique (a ∷ rows) = not (exists (clashes a) rows) && all_unique rows

pub record TeamRotation : Type 0 where
  pub team_id : ℕ
  pub current_position : ℕ
  pub cycle_number : ℕ
  pub last_assigned_employee_id : Option ℕ
  pub last_incident_id : Option ℕ
  pub last_idempotency_key : Option Text
  pub updated_at : Option ℕ

pub data CycleStatus : Type 0 where
  in_progress completed : CycleStatus

pub record AssignmentCycle : Type 0 where
  pub id : Text
  pub incident_id : ℕ
  pub team_id : ℕ
  pub cycle_number : ℕ
  pub status : CycleStatus
  pub total_members : ℕ
  pub assigned_count : ℕ
  pub idempotency_key : Option Text
  pub completed_at : Option ℕ
