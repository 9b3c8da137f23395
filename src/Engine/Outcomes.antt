-- ===== src/Engine/Outcomes.antt =====
-- services/assignment_engine.py: the notice of an arrival, and the ends of a run that assigns nobody.
use incident.Prelude.{
  ℕ, Bool, ◌&&◌, ◌||◌, not, Option, none, some, List, [], ◌∷◌, if◌then◌else◌, select, Text, text_eq,
  truthy, codes, strip, lower, contains, or_empty,
}
use incident.Models.{
  User, is_admin, Team, Incident, IncidentState, IncidentAssignment, AuditAction, NotificationType,
}
use incident.Session.{
  Tables, put_incident, to_team, to_admins, to_all, group_activity_event, incident_updated,
  coverage_exception,
}
use incident.Notices.{create_notification}
use incident.GroupNotice.{send_to_team}
use incident.Engine.Settings.{Engine, team_of_group}
use incident.Actions.{
  Act, pure, ◌>>=◌, ◌>>◌, query, change, committing, emit, logging, catching, in_session,
}

-- What a run returns.
abbrev pub Decided : Type 0
Decided = Option IncidentAssignment

unfoldable pub tell_arrival : Engine → ℕ → Option Team → Act (Unit {0})
tell_arrival c incident_id none = pure tt
tell_arrival c incident_id (some team) = send_to_team c.mail team.id (some incident_id)

abbrev pub find_team : Engine → Incident → Act (Option Team)
find_team c inc = query (λ t. team_of_group c t inc.assignment_group)

unfoldable pub send_group_arrival_notice : Engine → Incident → Act (Unit {0})
send_group_arrival_notice c inc =
    if truthy (or_empty inc.assignment_group)
    then catching (find_team c inc >>= tell_arrival c inc.id) tt
    else pure tt

-- The incident is not for the pilot's group.
unfoldable pub is_filtered : Text → Text → Bool
is_filtered pilot group =
    let clean_pilot = strip (lower pilot) in
    let clean_inc = strip (lower group) in
    truthy clean_pilot
    && (not (text_eq clean_pilot (codes "all") || text_eq clean_pilot (codes "*"))
        && (truthy clean_inc
            && (not (contains clean_pilot clean_inc) && not (contains clean_inc clean_pilot))))

unfoldable pub log_none : AuditAction → ℕ → Option ℕ → Act Decided
log_none action incident_id employee = do logging action incident_id employee; pure none

unfoldable pub hold_incident : Incident → Act Decided
hold_incident inc = do
  change (λ t. put_incident t (record inc { state = IncidentState.sunday_holiday_hold }))
  logging AuditAction.sunday_holiday_hold inc.id none
  committing
  pure none

unfoldable pub unassigned : Incident → Tables → Tables
unassigned inc t = put_incident t (record inc { state = IncidentState.unassigned })

unfoldable pub coverage_to_team : Option Team → Act (Unit {0})
coverage_to_team none = pure tt
coverage_to_team (some team) = emit (to_team team.id coverage_exception)

unfoldable pub handle_coverage_exception : Engine → Incident → Act Decided
handle_coverage_exception c inc = do
  team ← catching (find_team c inc) none
  change (unassigned inc)
  logging AuditAction.coverage_exception inc.id none
  logging AuditAction.auto_assignment_decision inc.id none
  coverage_to_team team
  emit (to_admins coverage_exception)
  committing
  pure none

unfoldable pub notify_admins : ℕ → List User → Act (Unit {0})
notify_admins incident_id [] = pure tt
notify_admins incident_id (u ∷ us) = do
  in_session (create_notification NotificationType.system_notification (some incident_id) none u.id)
  notify_admins incident_id us

unfoldable pub tell_unassigned : Engine → Incident → Option Team → List User → Act Decided
tell_unassigned c inc team admins = do
  notify_admins inc.id admins
  catching (tell_arrival c inc.id team) tt
  emit (to_all incident_updated)
  emit (to_admins group_activity_event)
  committing
  pure none

unfoldable pub active_admins : Tables → List User
active_admins t = select (λ u. is_admin u.role && u.is_active) t.users

unfoldable pub leave_unassigned : Engine → Incident → Option Team → Act Decided
leave_unassigned c inc team = do
  change (unassigned inc)
  logging AuditAction.auto_assignment_decision inc.id none
  logging AuditAction.auto_assign_failed inc.id none
  query active_admins >>= tell_unassigned c inc team

unfoldable pub handle_no_eligible : Engine → Incident → Act Decided
handle_no_eligible c inc = catching (find_team c inc) none >>= leave_unassigned c inc
