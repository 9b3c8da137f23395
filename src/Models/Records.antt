-- ===== src/Models/Records.antt =====
-- models/notification.py, audit.py and integration.py: what the operations leave on record.
use incident.Prelude.{ℕ, Option, Text}
use incident.Models.Work.{IncidentState}

pub data NotificationType : Type 0 where
  team_notice group_notice incident_assigned incident_reassigned : NotificationType
  system system_notification : NotificationType

pub record Notification : Type 0 where
  pub user_id : ℕ
  pub type : NotificationType
  pub incident_id : Option ℕ
  pub assignment_id : Option ℕ

pub data AuditAction : Type 0 where
  auto_assign_skipped sunday_holiday_hold dry_run shadow_assign auto_assignment_decision :
      AuditAction
  live_assignment auto_assign auto_assign_success auto_assign_failed coverage_exception :
      AuditAction
  pilot_group_filtered pilot_capacity_reached shift_handoff group_assignment_completed : AuditAction
  group_notice_created send_group_notice : AuditAction
  incident_acknowledged incident_started incident_completed : AuditAction
  activate_team deactivate_team : AuditAction

-- An audit row: the action, the incident or the team, and the employee that it names, if any.
pub record AuditLog : Type 0 where
  pub action : AuditAction
  pub entity_id : ℕ
  pub employee : Option ℕ

pub data EventStatus : Type 0 where
  received processed failed : EventStatus

-- What has come in from ServiceNow; a failure's row has no idempotency key.
pub record IntegrationEvent : Type 0 where
  pub id : ℕ
  pub idempotency_key : Option Text
  pub incident_number : Text
  pub status : EventStatus

pub data SyncOperation : Type 0 where
  update_assignment update_status group_notice_email email_delivery : SyncOperation

-- What an update of ServiceNow sets.
pub data Field : Type 0 where
  assigned_to : Option Text → Field
  state : Option IncidentState → Field

pub data FailureStatus : Type 0 where
  pending retrying resolved dead_letter failed : FailureStatus

pub record SyncFailure : Type 0 where
  pub id : ℕ
  pub incident_id : Option ℕ
  pub operation : SyncOperation
  pub payload : Option Field
  pub retry_count : ℕ
  pub max_retries : ℕ
  pub next_retry_at : Option ℕ
  pub status : FailureStatus
  pub created_at : ℕ
  pub resolved_at : Option ℕ
