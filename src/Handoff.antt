-- ===== src/Handoff.antt =====
-- services/handoff_service.py: incidents whose holder is off duty go to somebody on the shift. A fresh
-- identifier is a function of the row that is handed on.
pub mod Causes
pub mod Writes
pub mod Transfer
pub mod Policies
pub mod Totality
use incident.Prelude.{
  ℕ, Bool, true, false, ◌&&◌, ◌||◌, not, Option, none, some, List, [], ◌∷◌, ◌++◌, ◌==◌, leb,
  if◌then◌else◌, select, find?, update, min_from, Text, codes, contains, strip, or_empty,
}
use incident.Models.{
  User, is_admin, Employee, Shift, ShiftAssignment, is_offline, Incident, IncidentState,
  IncidentAssignment, AssignmentType, AssignmentStatus, AuditAction, NotificationType,
}
use incident.Session.{
  Tables, Session, Result, ok, err, flush, commit, get_user, get_employee, get_incident,
  put_incident, log,
}
use incident.Shifts.{Moment}
use incident.ServiceNow.{Patch}
use incident.Sync.{Client, sync_assignment_to_servicenow}
use incident.Handoff.Causes.{
  Cause, offline, off_shift, is_closed, is_locked, cause_of, cause_text, name_or, successors,
  successor,
}
use incident.Actions.{World}
use incident.Notices.{create_notification}

pub record Config : Type 0 where
  pub client : Client
  pub utc_now : ℕ
  pub assignment_id : ℕ → ℕ
  pub failure_id : ℕ → ℕ

pub record Handover : Type 0 where
  pub outgoing : Employee
  pub incoming : Employee
  pub assignment : IncidentAssignment
  pub cause : Cause

abbrev pub handed_on : IncidentAssignment → IncidentAssignment
handed_on a = record a { is_active = false; status = AssignmentStatus.reassigned }

unfoldable pub incoming_assignment :
    Config → Cause → Text → Text → IncidentAssignment → Incident → Employee → IncidentAssignment
incoming_assignment c cause from_name to_name a inc e = record {
  id = c.assignment_id a.id;
  incident_id = inc.id;
  employee_id = e.id;
  cycle_number = 1;
  assignment_type = AssignmentType.automatic;
  status = AssignmentStatus.assigned;
  reason =
      cause_text cause
      ++ codes ". Transferred from "
      ++ from_name
      ++ codes " to "
      ++ to_name
      ++ codes ".";
  assigned_at = c.utc_now;
  assigned_by = none;
  is_active = true;
  scheduled_shift_name = none;
  scheduled_start = none;
  team_id = none;
  assignment_cycle_id = none;
  rotation_cycle = none;
  rotation_position = none;
  source_event_id = none;
}

unfoldable pub handed_incident : Text → Text → Incident → Incident
handed_incident from_name to_name inc = record inc {
  assigned_to = some to_name;
  state = IncidentState.assigned;
  work_notes = strip (
      inc.work_notes
      ++ codes "\n[IncidentFlow] Automated Shift Handoff: Transferred from "
      ++ from_name
      ++ codes " to "
      ++ to_name
      ++ codes " due to shift transition.");
}

unfoldable pub is_row : ℕ → IncidentAssignment → Bool
is_row id x = x.id == id

-- Steps 1 to 3.
unfoldable pub transferred : Incident → IncidentAssignment → IncidentAssignment → Tables → Tables
transferred inc old new t =
    put_incident
      (record t { assignments = update (is_row old.id) handed_on t.assignments ++ new ∷ [] }) inc

-- Errors of a notice are caught.
unfoldable pub notify : NotificationType → ℕ → Option User → Session → Session
notify type incident_id none s = s
notify type incident_id (some u) s = (create_notification type (some incident_id) none u.id s).1

unfoldable pub notify_all : NotificationType → ℕ → List User → Session → Session
notify_all type incident_id [] s = s
notify_all type incident_id (u ∷ us) s =
    notify_all type incident_id us (notify type incident_id (some u) s)

unfoldable pub committed_as :
    Option Handover → Result (Unit {0}) × Session → List Patch → Result (Option Handover) × World
committed_as out (err e, s) patches = (err e, record { session = s; patches = patches })
committed_as out (ok _, s) patches = (ok out, record { session = s; patches = patches })

-- Nobody can take over: the administrators are told.
unfoldable pub orphaned : Incident → World → Result (Option Handover) × World
orphaned inc w =
    let admins = select (λ u. is_admin u.role && u.is_active) w.session.rows.users in
    committed_as none (commit (notify_all NotificationType.system inc.id admins w.session))
      w.patches

-- Steps 4 to 6 and the commit.
unfoldable pub followed_up : Config → Handover → Incident → World → Result (Option Handover) × World
followed_up c h inc w =
    let t = log AuditAction.shift_handoff inc.id (some h.incoming.id) w.session.rows in
    let incoming_user = get_user t h.incoming.user_id in
    let (_, s, patches) =
      sync_assignment_to_servicenow (codes "Assigned Engineer") c.client c.utc_now
        (c.failure_id h.assignment.id) inc incoming_user w.patches
        (record w.session { rows = t }) in
    let s' = notify NotificationType.incident_reassigned inc.id (get_user t h.outgoing.user_id) s in
    committed_as (some h)
      (commit (notify NotificationType.incident_assigned inc.id incoming_user s')) patches

unfoldable pub flushed :
    Config → Handover → Incident → World → Result (Unit {0}) → Result (Option Handover) × World
flushed c h inc w (err e) = (err e, w)
flushed c h inc w (ok _) = followed_up c h inc w

unfoldable pub hand_to :
    Config
    → Cause
    → IncidentAssignment
    → Incident
    → Employee
    → Option Employee
    → World
    → Result (Option Handover) × World
hand_to c cause a inc e none w = orphaned inc w
hand_to c cause a inc e (some x) w =
    let t = w.session.rows in
    let from_name = name_or (codes "Previous Engineer") (get_user t e.user_id) in
    let to_name = name_or (codes "Incoming Engineer") (get_user t x.user_id) in
    let new = incoming_assignment c cause from_name to_name a inc x in
    let inc' = handed_incident from_name to_name inc in
    let s : Session = record w.session { rows = transferred inc' a new t } in
    flushed c (record { outgoing = e; incoming = x; assignment = new; cause = cause }) inc'
      (record w { session = s }) (flush s)

unfoldable pub if_locked :
    Option IncidentAssignment
    → Config
    → Moment
    → Cause
    → Incident
    → Employee
    → World
    → Result (Option Handover) × World
if_locked none c now cause inc e w = (ok none, w)
if_locked (some a) c now cause inc e w =
    if not a.is_active
    then (ok none, w)
    else (let t = w.session.rows in
        hand_to c cause a inc e (successor t (successors t now inc e)) w)

unfoldable pub execute_handoff :
    Config
    → Moment
    → Cause
    → IncidentAssignment
    → Incident
    → Employee
    → World
    → Result (Option Handover) × World
execute_handoff c now cause a inc e w =
    if_locked (find? (is_row a.id) w.session.rows.assignments) c now cause inc e w

unfoldable pub if_needed :
    Result (Option Cause)
    → Config
    → Moment
    → IncidentAssignment
    → Incident
    → Employee
    → World
    → Result (Option Handover) × World
if_needed (err x) c now a inc e w = (err x, w)
if_needed (ok none) c now a inc e w = (ok none, w)
if_needed (ok (some cause)) c now a inc e w = execute_handoff c now cause a inc e w

unfoldable pub of_holder :
    Option Employee
    → Config
    → Moment
    → IncidentAssignment
    → Incident
    → World
    → Result (Option Handover) × World
of_holder none c now a inc w = (ok none, w)
of_holder (some e) c now a inc w =
    if is_locked a then (ok none, w) else if_needed (cause_of w.session.rows now e) c now a inc e w

unfoldable pub of_incident :
    Option Incident
    → Config
    → Moment
    → IncidentAssignment
    → World
    → Result (Option Handover) × World
of_incident none c now a w = (ok none, w)
of_incident (some inc) c now a w =
    if is_closed inc.state
    then (ok none, w)
    else of_holder (get_employee w.session.rows a.employee_id) c now a inc w

-- The body of the loop.
unfoldable pub evaluate :
    Config → Moment → IncidentAssignment → World → Result (Option Handover) × World
evaluate c now a w = of_incident (get_incident w.session.rows a.incident_id) c now a w

unfoldable pub record_of : Option Handover → List Handover
record_of none = []
record_of (some h) = h ∷ []

unfoldable pub and_then :
    Result (Option Handover) × World
    → (Option Handover → World → Result (List Handover) × World)
    → Result (List Handover) × World
and_then (err x, w) next = (err x, w)
and_then (ok h, w) next = next h w

unfoldable pub evaluate_each :
    Config
    → Moment
    → List IncidentAssignment
    → List Handover
    → World
    → Result (List Handover) × World
evaluate_each c now [] hs w = (ok hs, w)
evaluate_each c now (a ∷ rows) hs w =
    and_then (evaluate c now a w) (λ h w'. evaluate_each c now rows (hs ++ record_of h) w')

unfoldable pub evaluate_active_handoffs : Config → Moment → World → Result (List Handover) × World
evaluate_active_handoffs c now w =
    evaluate_each c now (select (λ a. a.is_active) w.session.rows.assignments) [] w
