-- ===== src/GroupNotice.antt =====
-- services/group_notice_service.py, `send_to_team`: a notice to every active member of a team. Where
-- a mail raises is a parameter; its failure is put on record under an identifier of its own.
use incident.Prelude.{
  ℕ, Bool, false, ◌&&◌, Option, none, some, List, [], ◌∷◌, ◌++◌, is, if◌then◌else◌, select,
}
use incident.Models.{
  User, Team, Employee, AuditAction, FailureStatus, Notification, NotificationType, SyncFailure,
  SyncOperation,
}
use incident.Session.{Tables, to_user, group_notice_created, get_user, get_team}
use incident.Actions.{Act, pure, ◌>>=◌, ◌>>◌, query, change, emit, logging, catching}

pub record Mail : Type 0 where
  pub now : ℕ
  pub raises : User → Bool
  pub failure_id : ℕ → ℕ

unfoldable pub is_active_user : Option User → Bool
is_active_user none = false
is_active_user (some u) = u.is_active

-- SELECT employees JOIN users WHERE team_id = ... AND users.is_active.
unfoldable pub active_team : Tables → ℕ → List Employee
active_team t team_id =
    select (λ e. is e.team_id team_id && is_active_user (get_user t e.user_id)) t.employees

unfoldable pub notice_row : Option ℕ → User → Notification
notice_row incident_id u = record {
  user_id = u.id;
  type = NotificationType.group_notice;
  incident_id = incident_id;
  assignment_id = none;
}

-- The payload, a dictionary of texts, which nothing reads for this operation, is left out.
unfoldable pub mail_failure : Mail → User → SyncFailure
mail_failure mail u = record {
  id = mail.failure_id u.id;
  incident_id = none;
  operation = SyncOperation.group_notice_email;
  payload = none;
  retry_count = 0;
  max_retries = 3;
  next_retry_at = none;
  status = FailureStatus.pending;
  created_at = mail.now;
  resolved_at = none;
}

unfoldable pub send_email : Mail → User → Act (Unit {0})
send_email mail u =
    if mail.raises u
    then change (λ t. record t { sync_failures = t.sync_failures ++ mail_failure mail u ∷ [] })
    else pure tt

unfoldable pub notify_member : Mail → Option ℕ → Option User → Act (Unit {0})
notify_member mail incident_id none = pure tt
notify_member mail incident_id (some u) = do
  change (λ t. record t { notifications = t.notifications ++ notice_row incident_id u ∷ [] })
  emit (to_user u.id group_notice_created)
  send_email mail u

unfoldable pub notify_members : Mail → Option ℕ → List Employee → Act (Unit {0})
notify_members mail incident_id [] = pure tt
notify_members mail incident_id (e ∷ emps) = do
  user ← query (λ t. get_user t e.user_id)
  notify_member mail incident_id user
  notify_members mail incident_id emps

unfoldable pub send_to : Mail → ℕ → Option ℕ → List Employee → Act (Unit {0})
send_to mail team_id incident_id [] = pure tt
send_to mail team_id incident_id (e ∷ emps) = do
  notify_members mail incident_id (e ∷ emps)
  catching
      (logging AuditAction.group_notice_created team_id none
        >> logging AuditAction.send_group_notice team_id none)
      tt

unfoldable pub if_team : Mail → Option ℕ → Option Team → Act (Unit {0})
if_team mail incident_id none = pure tt
if_team mail incident_id (some team) = do
  emps ← query (λ t. active_team t team.id)
  send_to mail team.id incident_id emps

unfoldable pub send_to_team : Mail → ℕ → Option ℕ → Act (Unit {0})
send_to_team mail team_id incident_id = do
  team ← query (λ t. get_team t (some team_id))
  if_team mail incident_id team
