-- ===== src/Notices.antt =====
-- services/notification_service.py, `create_notification`: one notice to one user. The e-mail that
-- follows it reads only, and never raises.
use incident.Prelude.{
  ℕ, Bool, true, false, ◌&&◌, Option, none, some, List, [], ◌∷◌, ◌++◌, ◌==◌, is, select,
}
use incident.Models.{Notification, NotificationType}
use incident.Session.{
  Session, to_user, notification_created, Result, ok, err, multiple_results, flush,
}

same_type : NotificationType → NotificationType → Bool
same_type NotificationType.team_notice NotificationType.team_notice = true
same_type NotificationType.group_notice NotificationType.group_notice = true
same_type NotificationType.incident_assigned NotificationType.incident_assigned = true
same_type NotificationType.incident_reassigned NotificationType.incident_reassigned = true
same_type NotificationType.system NotificationType.system = true
same_type NotificationType.system_notification NotificationType.system_notification = true
same_type _ _ = false

-- The notices that an assignment-linked one would repeat.
unfoldable pub repeated : NotificationType → ℕ → Option ℕ → List Notification → List Notification
unfolding same_type
repeated type user_id none rows = []
repeated type user_id (some assignment_id) rows =
    select
      (λ n. is n.assignment_id assignment_id && ((n.user_id == user_id) && same_type n.type type))
      rows

-- The notice is in the session before the flush, whether or not the flush succeeds.
unfoldable pub announced : ℕ → Session → Result (Unit {0}) → Result (Unit {0}) × Session
announced user_id s (err e) = (err e, s)
announced user_id s (ok _) =
    (ok tt, record s { sent = s.sent ++ to_user user_id notification_created ∷ [] })

unfoldable pub added : Notification → Session → List Notification → Result (Unit {0}) × Session
unfolding announced
added n s [] =
    let s' = record s { rows = record s.rows { notifications = s.rows.notifications ++ n ∷ [] } } in
    announced n.user_id s' (flush s')
added n s (m ∷ []) = (ok tt, s)
added n s (m ∷ l ∷ rows) = (err multiple_results, s)

unfoldable pub create_notification :
    NotificationType → Option ℕ → Option ℕ → ℕ → Session → Result (Unit {0}) × Session
create_notification type incident_id assignment_id user_id s =
    added
      (record {
        user_id = user_id;
        type = type;
        incident_id = incident_id;
        assignment_id = assignment_id;
      })
      s (repeated type user_id assignment_id s.rows.notifications)
