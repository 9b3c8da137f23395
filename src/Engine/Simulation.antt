-- ===== src/Engine/Simulation.antt =====
-- services/assignment_engine.py: what the engine leaves alone where it only simulates.
pub mod Notices
pub mod Flow
use incident.Prelude.{
  ℕ, Bool, true, false, ◌&&◌, ◌||◌, not, Option, none, some, List, [], ◌∷◌, ◌++◌, ◌==◌, is, ◌≡◌,
  ◌≢◌, ◌∙◌, refl, sym, ap, Bool-split, if◌then◌else◌, exists, select, truthy, or_empty,
}
use incident.Models.{
  User, Employee, Team, Incident, Shift, IncidentAssignment, TeamRotation, AssignmentCycle,
  AuditAction, Notification, NotificationType, all_unique,
}
use incident.Session.{Tables, Session, Dispatch, Result, ok, err, flush, commit, log, put_incident}
use incident.ServiceNow.{Patch}
use incident.Notices.{create_notification, added, announced, repeated}
use incident.GroupNotice.{
  Mail, mail_failure, send_email, notify_member, notify_members, send_to, if_team, send_to_team,
  notice_row,
}
use incident.Actions.{
  World, Act, pure, in_session, change, query, raising, emit, logging, committing, flushing, ◌>>◌,
  catching,
}
use incident.Actions.Keeps.{
  Keeps, pure-Keeps, fail-Keeps, bind-Keeps, seq-Keeps, catching-Keeps, query-Keeps, flushing-Keeps,
}

-- The work that is given out: the assignments with the rotations and cycles.
abbrev pub work_of : Tables → List IncidentAssignment × List TeamRotation × List AssignmentCycle
work_of t = (t.assignments, t.rotations, t.cycles)

-- With it what has been sent to ServiceNow.
abbrev pub work :
    World → (List IncidentAssignment × List TeamRotation × List AssignmentCycle) × List Patch
work w = (work_of w.session.rows, w.patches)

pub raising-Keeps : {A : Type 0} (r : Result A) → Keeps work (raising r)
unfolding raising
raising-Keeps r w = refl

pub change-Keeps :
    (f : Tables → Tables) → ((t : Tables) → work_of (f t) ≡ work_of t) → Keeps work (change f)
unfolding change
change-Keeps f h w = ap (λ x. (x, w.patches)) (h w.session.rows)

pub emit-Keeps : (d : Dispatch) → Keeps work (emit d)
unfolding emit
emit-Keeps d w = refl

pub logging-Keeps :
    (action : AuditAction) (entity : ℕ) (employee : Option ℕ)
    → Keeps work (logging action entity employee)
unfolding logging log
logging-Keeps action entity employee =
    seq-Keeps work _ _ (change-Keeps (log action entity employee) (λ t. refl)) (flushing-Keeps work)

pub in_session-Keeps :
    {A : Type 0} (f : Session → Result A × Session)
    → ((s : Session) → work_of (f s).1.rows ≡ work_of s.rows)
    → Keeps work (in_session f)
unfolding in_session
in_session-Keeps f h w = ap (λ x. (x, w.patches)) (h w.session)

commit-work : (s : Session) → work_of (commit s).1.rows ≡ work_of s.rows
unfolding commit
commit-work s = Bool-split (all_unique s.rows.assignments) (λ e. rw e refl) (λ e. rw e refl)

pub committing-Keeps : Keeps work committing
unfolding committing
committing-Keeps = in_session-Keeps commit commit-work

announced-work :
    (user_id : ℕ) (s : Session) (r : Result (Unit {0}))
    → work_of (announced user_id s r).1.rows ≡ work_of s.rows
unfolding announced
announced-work user_id s (ok x) = refl
announced-work user_id s (err e) = refl

added-work :
    (n : Notification) (s : Session) (rows : List Notification)
    → work_of (added n s rows).1.rows ≡ work_of s.rows
unfolding added
added-work n s [] = announced-work n.user_id _ _
added-work n s (m ∷ []) = refl
added-work n s (m ∷ l ∷ rows) = refl

pub create_notification-Keeps :
    (type : NotificationType) (incident_id assignment_id : Option ℕ) (user_id : ℕ)
    → Keeps work (in_session (create_notification type incident_id assignment_id user_id))
unfolding create_notification
create_notification-Keeps type incident_id assignment_id user_id =
    in_session-Keeps (create_notification type incident_id assignment_id user_id)
      (λ s. added-work _ s (repeated type user_id assignment_id s.rows.notifications))
