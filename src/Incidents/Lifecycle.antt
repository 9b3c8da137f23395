-- ===== src/Incidents/Lifecycle.antt =====
-- api/incidents.py: acknowledging, starting and completing as one machine over an assignment and its
-- incident.
pub mod Rows
use incident.Prelude.{
  ℕ, Bool, true, false, Option, none, some, List, [], ◌∷◌, ◌==◌, ◌≡◌, ◌∙◌, refl, sym, ap,
  Bool-split, if◌then◌else◌, find?, update, find?-update, ==-refl, arith,
}
use incident.Models.{
  User, Team, Incident, IncidentState, IncidentAssignment, AssignmentStatus, AuditAction,
  all_unique,
}
use incident.Session.{
  Tables, Session, Dispatch, Error, Result, ok, err, flush, commit, log, get_incident, put_incident,
}
use incident.Actions.{
  World, Act, continue, query, change, in_session, committing, emit, logging, pure, raising, ◌>>=◌,
  ◌>>◌,
}
use incident.Actions.Keeps.{Keeps, pure-Keeps, bind-Keeps, seq-Keeps, query-Keeps, flushing-Keeps}
use incident.Engine.Flow.{query_ok}
use incident.Incidents.Access.{get_incident-id}
use incident.Incidents.{
  acknowledge_incident, acknowledge_found, acknowledged, is_acknowledged, is_acknowledged_state,
  is_settled, start_incident, start_found, started, complete_incident, complete_unless,
  complete_found, finished, tell_progress, tell_groups, to_team_if, get_incident_team_id,
  or_own_team, put_assignment, put_state,
}
use incident.Incidents.Authorization.{Caller, Reference, is_done, verify_assignment_access}

pub data Operation : Type 0 where
  acknowledge start complete : Operation

unfoldable pub call : Operation → Caller → Reference → Act (Unit {0})
call acknowledge c ref = acknowledge_incident c ref
call start c ref = start_incident c ref
call complete c ref = complete_incident c ref

-- The abstract machine: where the work on an incident stands, for its holder and for the others.
pub record Phase : Type 0 where
  pub status : AssignmentStatus
  pub is_active : Bool
  pub state : IncidentState

unfoldable pub step : Operation → Phase → Phase
step acknowledge p = record p {
  status = AssignmentStatus.acknowledged;
  state = IncidentState.acknowledged;
}
step start p = record p { status = AssignmentStatus.in_progress; state = IncidentState.in_progress }
step complete p = if is_done p.status then p else record {
  status = AssignmentStatus.completed;
  is_active = false;
  state = IncidentState.resolved;
}

unfoldable pub phase : IncidentAssignment → Incident → Phase
phase a inc = record { status = a.status; is_active = a.is_active; state = inc.state }

unfoldable pub phase_of : Option IncidentAssignment → Option Incident → Option Phase
phase_of (some a) (some inc) = some (phase a inc)
phase_of _ _ = none

-- The abstraction: the rows of the two.
unfoldable pub view : ℕ → ℕ → Tables → Option Phase
view assignment_id incident_id t =
    phase_of (find? (λ x. x.id == assignment_id) t.assignments) (get_incident t incident_id)

module _ (i j : ℕ) where
  abbrev pub shown : World → Option Phase
  shown w = view i j w.session.rows

  pub change-Keeps :
      (f : Tables → Tables) → ((t : Tables) → view i j (f t) ≡ view i j t) → Keeps shown (change f)
  unfolding change
  change-Keeps f h w = h w.session.rows

  pub emit-Keeps : (d : Dispatch) → Keeps shown (emit d)
  unfolding emit
  emit-Keeps d w = refl

  pub logging-Keeps :
      (action : AuditAction) (entity : ℕ) (employee : Option ℕ)
      → Keeps shown (logging action entity employee)
  unfolding logging log view get_incident
  logging-Keeps action entity employee =
      seq-Keeps shown _ _ (change-Keeps (log action entity employee) (λ t. refl))
        (flushing-Keeps shown)

  pub committing-Keeps : Keeps shown committing
  unfolding committing in_session commit
  committing-Keeps w =
      Bool-split (all_unique w.session.rows.assignments) (λ e. rw e refl) (λ e. rw e refl)

  pub raising-Keeps : {A : Type 0} (r : Result A) → Keeps shown (raising r)
  unfolding raising
  raising-Keeps r w = refl

  pub or_own_team-Keeps : (u : User) (o : Option Team) → Keeps shown (or_own_team u o)
  unfolding or_own_team
  or_own_team-Keeps u (some m) = pure-Keeps shown _
  or_own_team-Keeps u none =
      bind-Keeps shown _ _ (bind-Keeps shown _ _ (query-Keeps shown _) raising-Keeps)
        (λ e. pure-Keeps shown _)

  pub to_team_if-Keeps : (o : Option ℕ) → Keeps shown (to_team_if o)
  unfolding to_team_if
  to_team_if-Keeps none = pure-Keeps shown tt
  to_team_if-Keeps (some t) = emit-Keeps _

  pub tell_groups-Keeps : (inc : Option Incident) (u : User) → Keeps shown (tell_groups inc u)
  unfolding tell_groups get_incident_team_id
  tell_groups-Keeps inc u =
      bind-Keeps shown _ _
        (bind-Keeps shown _ _ (bind-Keeps shown _ _ (query-Keeps shown _) raising-Keeps)
          (or_own_team-Keeps u))
        (λ team. seq-Keeps shown _ _ (to_team_if-Keeps team) (emit-Keeps _))

  pub tell_progress-Keeps : (inc : Option Incident) (u : User) → Keeps shown (tell_progress inc u)
  unfolding tell_progress
  tell_progress-Keeps inc u =
      seq-Keeps shown _ _ (emit-Keeps _)
        (seq-Keeps shown _ _ (emit-Keeps _) (tell_groups-Keeps inc u))
