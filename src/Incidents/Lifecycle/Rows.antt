-- ===== src/Incidents/Lifecycle/Rows.antt =====
-- api/incidents.py: the rows of an assignment and of its incident, when an operation is through.
use incident.Prelude.{
  ℕ, Bool, true, false, Option, some, ◌==◌, ◌≡◌, ◌∙◌, refl, ap, Bool-split, find?, find?-update,
  ==-refl,
}
use incident.Models.{Incident, IncidentState, IncidentAssignment, AssignmentStatus}
use incident.Session.{Tables, ok, flush, get_incident, put_incident}
use incident.Actions.{World, Act, continue, query, change, pure, ◌>>=◌, ◌>>◌}
use incident.Actions.Keeps.{Keeps, seq-Keeps}
use incident.Engine.Flow.{query_ok}
use incident.Incidents.Access.{get_incident-id}
use incident.Incidents.{
  acknowledge_incident, acknowledge_found, acknowledged, is_acknowledged, is_acknowledged_state,
  is_settled, start_incident, start_found, started, complete_incident, complete_unless,
  complete_found, finished, put_assignment, put_state,
}
use incident.Incidents.Authorization.{Caller, Reference, is_done, verify_assignment_access}
use incident.Incidents.Lifecycle.{
  Operation, acknowledge, start, complete, call, Phase, step, phase, phase_of, view, shown,
  logging-Keeps, committing-Keeps, emit-Keeps, tell_groups-Keeps, tell_progress-Keeps,
}

view-put_state :
    (i : ℕ) (inc inc' : Incident) (s : IncidentState) (t : Tables)
    → get_incident t inc.id ≡ some inc'
    → view i inc.id (put_state (some inc) s t)
      ≡ phase_of (find? (λ x. x.id == i) t.assignments) (some (record inc { state = s }))
unfolding view put_state put_incident get_incident
view-put_state i inc inc' s t h =
    rw
      (find?-update (λ (x : Incident). x.id == inc.id) (record inc { state = s }) t.incidents
        (==-refl inc.id) h)
      refl

is_acknowledged→eq :
    (s : AssignmentStatus) → is_acknowledged s ≡ true → s ≡ AssignmentStatus.acknowledged
unfolding is_acknowledged
is_acknowledged→eq AssignmentStatus.acknowledged h = refl
is_acknowledged→eq AssignmentStatus.assigned h = cc
is_acknowledged→eq AssignmentStatus.in_progress h = cc
is_acknowledged→eq AssignmentStatus.completed h = cc
is_acknowledged→eq AssignmentStatus.reassigned h = cc
is_acknowledged→eq AssignmentStatus.queued_for_next_shift h = cc

is_acknowledged_state→eq :
    (s : IncidentState) → is_acknowledged_state s ≡ true → s ≡ IncidentState.acknowledged
unfolding is_acknowledged_state
is_acknowledged_state→eq IncidentState.acknowledged h = refl
is_acknowledged_state→eq IncidentState.new h = cc
is_acknowledged_state→eq IncidentState.assigned h = cc
is_acknowledged_state→eq IncidentState.in_progress h = cc
is_acknowledged_state→eq IncidentState.on_hold h = cc
is_acknowledged_state→eq IncidentState.resolved h = cc
is_acknowledged_state→eq IncidentState.closed h = cc
is_acknowledged_state→eq IncidentState.canceled h = cc
is_acknowledged_state→eq IncidentState.completed h = cc
is_acknowledged_state→eq IncidentState.unassigned h = cc
is_acknowledged_state→eq IncidentState.queued_for_next_shift h = cc
is_acknowledged_state→eq IncidentState.sunday_holiday_hold h = cc

at_phase :
    (p q : Phase) → p.status ≡ q.status → p.is_active ≡ q.is_active → p.state ≡ q.state → p ≡ q
at_phase p q h k l = cc

module _ (c : Caller) (a : IncidentAssignment) (inc : Incident) (w : World)
    (row : find? (λ x. x.id == a.id) w.session.rows.assignments ≡ some a)
    (its : get_incident w.session.rows inc.id ≡ some inc) where
  abbrev Shows : Phase → World → Type 0
  Shows p w' = view a.id inc.id w'.session.rows ≡ some p

  Shows-now : Shows (phase a inc) w
  unfolding view phase_of
  Shows-now = rw (row, its) refl

  abbrev moved : AssignmentStatus → Bool → IncidentAssignment
  moved st act = record a { status = st; is_active = act }

  both_put :
      (st : AssignmentStatus) (act : Bool) (s : IncidentState)
      → view a.id inc.id (put_state (some inc) s (put_assignment (moved st act) w.session.rows))
        ≡ some (record { status = st; is_active = act; state = s })
  unfolding phase_of put_assignment get_incident phase
  both_put st act s =
      view-put_state a.id inc inc s (put_assignment (moved st act) w.session.rows) its
      ∙ rw
          (find?-update (λ (x : IncidentAssignment). x.id == a.id) (moved st act)
            w.session.rows.assignments (==-refl a.id) row)
          refl

  -- What follows a change of the two rows shows nothing else.
  after_change :
      (p : Phase) (f : Tables → Tables) (m : Act (Unit {0}))
      → view a.id inc.id (f w.session.rows) ≡ some p
      → Keeps (shown a.id inc.id) m
      → Shows p ((change f >> m) w).1
  unfolding change ◌>>=◌
  after_change p f m h k = k _ ∙ h

  acknowledge_found-Shows :
      Shows (step acknowledge (phase a inc)) (acknowledge_found c a (some inc) w).1
  unfolding acknowledge_found step phase is_settled acknowledged pure phase_of
  acknowledge_found-Shows =
      Bool-split (is_acknowledged a.status)
        (λ e.
          Bool-split (is_acknowledged_state inc.state)
            (λ d.
              rw (e, d)
                (Shows-now
                  ∙ ap some (
                      at_phase _ _ (is_acknowledged→eq a.status e) refl
                        (is_acknowledged_state→eq inc.state d))))
            (λ d.
              rw (e, d)
                (after_change _ _ _
                  (view-put_state a.id inc inc IncidentState.acknowledged w.session.rows its
                    ∙ rw row (ap some (at_phase _ _ (is_acknowledged→eq a.status e) refl refl)))
                  (committing-Keeps a.id inc.id))))
        (λ e. rw e (
          after_change _ _ _
            (both_put AssignmentStatus.acknowledged a.is_active IncidentState.acknowledged)
            (seq-Keeps _ _ _ (logging-Keeps a.id inc.id _ _ _) (
              seq-Keeps _ _ _ (committing-Keeps a.id inc.id)
                (tell_progress-Keeps a.id inc.id _ _)))))

  written_world : AssignmentStatus → Bool → World
  written_world st act = record w {
    session = record w.session { rows = put_assignment (moved st act) w.session.rows };
  }

  module _ (st : AssignmentStatus) (act : Bool) (s : IncidentState)
      (clean : flush (written_world st act).session ≡ ok tt) (j : ℕ)
      (at_j : get_incident w.session.rows j ≡ some inc) where
    -- A row is changed, the incident is read, and then changed too.
    write_both :
        (found : Option Incident → Act (Unit {0})) (rest : Act (Unit {0}))
        → found (some inc) ≡ (change (put_state (some inc) s) >> rest)
        → Keeps (shown a.id inc.id) rest
        → Shows
            (record { status = st; is_active = act; state = s })
            ((change (put_assignment (moved st act)) >> (query (λ t. get_incident t j) >>= found))
              w).1
    unfolding change ◌>>=◌ written_world put_assignment get_incident
    write_both found rest e k =
        ap (λ r. view a.id inc.id (continue r found).1.session.rows)
          (query_ok (λ t. get_incident t j) (written_world st act) clean)
        ∙ ap (λ o. view a.id inc.id (found o (written_world st act)).1.session.rows) at_j
        ∙ ap (λ m. view a.id inc.id (m (written_world st act)).1.session.rows) e
        ∙ (k _ ∙ both_put st act s)

  start-Shows :
      (j : ℕ)
      → get_incident w.session.rows j ≡ some inc
      → flush (written_world AssignmentStatus.in_progress a.is_active).session ≡ ok tt
      → Shows
          (step start (phase a inc))
          ((change (put_assignment (started a))
              >> (query (λ t. get_incident t j) >>= start_found c a))
            w).1
  unfolding step phase started start_found
  start-Shows j at_j clean =
      write_both AssignmentStatus.in_progress a.is_active IncidentState.in_progress clean j at_j
        (start_found c a) _ refl
        (seq-Keeps _ _ _ (logging-Keeps a.id inc.id _ _ _)
          (seq-Keeps _ _ _ (committing-Keeps a.id inc.id) (tell_progress-Keeps a.id inc.id _ _)))

  complete-Shows :
      get_incident w.session.rows a.incident_id ≡ some inc
      → flush (written_world AssignmentStatus.completed false).session ≡ ok tt
      → Shows (step complete (phase a inc)) (complete_unless c a w).1
  unfolding step phase finished complete_found complete_unless pure
  complete-Shows at_a clean =
      Bool-split (is_done a.status) (λ d. rw d Shows-now)
        (λ d. rw d (
          write_both AssignmentStatus.completed false IncidentState.resolved clean a.incident_id
            at_a (complete_found c a) _ refl
            (seq-Keeps _ _ _ (logging-Keeps a.id inc.id _ _ _) (
              seq-Keeps _ _ _ (committing-Keeps a.id inc.id) (
                seq-Keeps _ _ _ (emit-Keeps a.id inc.id _) (
                  seq-Keeps _ _ _ (emit-Keeps a.id inc.id _) (
                    seq-Keeps _ _ _ (emit-Keeps a.id inc.id _)
                      (tell_groups-Keeps a.id inc.id _ _))))))))

refetched :
    (w : World) (a : IncidentAssignment) (inc : Incident)
    → get_incident w.session.rows a.incident_id ≡ some inc
    → get_incident w.session.rows inc.id ≡ some inc
refetched w a inc h =
    ap (get_incident w.session.rows) (get_incident-id w.session.rows a.incident_id inc h) ∙ h

-- What an operation makes of the row.
unfoldable pub moved_by : Operation → IncidentAssignment → IncidentAssignment
moved_by acknowledge a = acknowledged a
moved_by start a = started a
moved_by complete a = finished a

-- Once the caller has been given access to the assignment, with its row and its incident there and
-- the unique indexes allowing the row as it becomes, acknowledging, starting and completing do to
-- the two rows what the abstract machine does to their phase, also where the call fails later on.
pub call-Refines :
    (op : Operation) (c : Caller) (ref : Reference) (w w' : World) (a : IncidentAssignment)
    (inc : Incident)
    → verify_assignment_access c ref w ≡ (ok a, w')
    → find? (λ x. x.id == a.id) w'.session.rows.assignments ≡ some a
    → get_incident w'.session.rows a.incident_id ≡ some inc
    → flush w'.session ≡ ok tt
    → flush (record w'.session { rows = put_assignment (moved_by op a) w'.session.rows }) ≡ ok tt
    → view a.id inc.id (call op c ref w).1.session.rows ≡ some (step op (phase a inc))
unfolding call moved_by acknowledge_incident start_incident complete_incident ◌>>=◌ acknowledged
    started finished written_world
call-Refines acknowledge c ref w w' a inc access row its ready clean =
    rw (access, query_ok (λ t. get_incident t a.incident_id) w' ready, its)
      (acknowledge_found-Shows c a inc w' row (refetched w' a inc its))
call-Refines start c ref w w' a inc access row its ready clean =
    rw access (start-Shows c a inc w' row (refetched w' a inc its) a.incident_id its clean)
call-Refines complete c ref w w' a inc access row its ready clean =
    rw access (complete-Shows c a inc w' row (refetched w' a inc its) its clean)
