-- ===== src/Handoff/Totality.antt =====
-- When a hand-off is carried out.
use incident.Prelude.{
  ℕ, Bool, true, false, not, ◌&&◌, Option, none, some, List, [], ◌∷◌, ◌++◌, ◌==◌, ◌≡◌, ◌∙◌, refl,
  ap, arith, Bool-split, exists, update, find?,
}
use incident.Models.{Employee, Incident, IncidentAssignment, all_unique, clashes, same_cycle_id}
use incident.Session.{Session, ok, flush, commit, put_incident, log}
use incident.ServiceNow.{Patch}
use incident.Shifts.{Moment}
use incident.Rotation.Totality.{same_cycle_id-none, exists-append}
use incident.Handoff.Causes.{Cause, successors, successor}
use incident.Handoff.Writes.{notify-Keeps, sync_assignment-Keeps}
use incident.Actions.{World}
use incident.Handoff.{
  Config, Handover, handed_on, transferred, handed_incident, incoming_assignment, committed_as,
  followed_up, flushed, hand_to, if_locked, execute_handoff, is_row,
}

-- The one who takes over has an assignment of the incident.
abbrev pub is_held_by : ℕ → ℕ → IncidentAssignment → Bool
is_held_by incident_id employee_id a =
    (a.incident_id == incident_id) && (a.employee_id == employee_id)

clashes-handed : (a y : IncidentAssignment) → clashes a y ≡ false → clashes a (handed_on y) ≡ false
unfolding clashes
clashes-handed a y h = ground arith

handed-clashes : (a y : IncidentAssignment) → clashes a y ≡ false → clashes (handed_on a) y ≡ false
unfolding clashes
handed-clashes a y h = ground arith

exists-handed :
    (id : ℕ) (a : IncidentAssignment) (rows : List IncidentAssignment)
    → exists (clashes a) rows ≡ false
    → exists (clashes a) (update (is_row id) handed_on rows) ≡ false
unfolding exists update
exists-handed id a [] h = refl
exists-handed id a (y ∷ rows) h =
    let rest = exists-handed id a rows (ground arith) in
    let here : clashes a y ≡ false = ground arith in
    Bool-split (is_row id y) (λ t. rw t (rw (clashes-handed a y here) rest))
      (λ f. rw f (rw here rest))

handed-exists :
    (a : IncidentAssignment) (rows : List IncidentAssignment)
    → exists (clashes a) rows ≡ false
    → exists (clashes (handed_on a)) rows ≡ false
unfolding exists
handed-exists a [] h = refl
handed-exists a (y ∷ rows) h =
    let here : clashes a y ≡ false = ground arith in
    rw (handed-clashes a y here) (handed-exists a rows (ground arith))

all_unique-handed :
    (id : ℕ) (rows : List IncidentAssignment)
    → all_unique rows ≡ true
    → all_unique (update (is_row id) handed_on rows) ≡ true
unfolding all_unique update
all_unique-handed id [] h = refl
all_unique-handed id (a ∷ rows) h =
    let apart : exists (clashes a) rows ≡ false = ground arith in
    let rest = all_unique-handed id rows (ground arith) in
    let kept = exists-handed id a rows apart in
    Bool-split (is_row id a)
      (λ t. rw t (rw (handed-exists a (update (is_row id) handed_on rows) kept) rest))
      (λ f. rw f (rw kept rest))

held-handed :
    (id i e : ℕ) (rows : List IncidentAssignment)
    → exists (is_held_by i e) rows ≡ false
    → exists (is_held_by i e) (update (is_row id) handed_on rows) ≡ false
unfolding exists update
held-handed id i e [] h = refl
held-handed id i e (a ∷ rows) h =
    let rest = held-handed id i e rows (ground arith) in
    let here : is_held_by i e a ≡ false = ground arith in
    Bool-split (is_row id a) (λ t. rw t (rw here rest)) (λ f. rw f (rw here rest))

clashes-held :
    (a new : IncidentAssignment)
    → is_held_by new.incident_id new.employee_id a ≡ false
    → new.assignment_cycle_id ≡ none
    → clashes a new ≡ false
unfolding clashes
clashes-held a new h k =
    let apart : same_cycle_id a.assignment_cycle_id new.assignment_cycle_id ≡ false =
      ap (same_cycle_id a.assignment_cycle_id) k ∙ same_cycle_id-none a.assignment_cycle_id in
    ground (arith, apart, h)

all_unique-taken :
    (rows : List IncidentAssignment) (new : IncidentAssignment)
    → all_unique rows ≡ true
    → exists (is_held_by new.incident_id new.employee_id) rows ≡ false
    → new.assignment_cycle_id ≡ none
    → all_unique (rows ++ new ∷ []) ≡ true
unfolding all_unique exists
all_unique-taken [] new u h k = refl
all_unique-taken (x ∷ rows) new u h k =
    let rest = all_unique-taken rows new (ground arith) (ground arith) k in
    let apart =
      exists-append (clashes x) rows new (ground arith) (clashes-held x new (ground arith) k) in
    ground (arith, rest, apart)

committed_as-ok :
    (out : Option Handover) (s : Session) (sent : List Patch)
    → all_unique s.rows.assignments ≡ true
    → (committed_as out (commit s) sent).0 ≡ ok out
unfolding committed_as commit
committed_as-ok out s sent h = rw h refl

followed_up-ok :
    (c : Config) (x : Handover) (inc : Incident) (w : World)
    → all_unique w.session.rows.assignments ≡ true
    → (followed_up c x inc w).0 ≡ ok (some x)
unfolding followed_up log
followed_up-ok c x inc w h = committed_as-ok (some x) _ _ (
    ap all_unique
      (notify-Keeps _ _ _ _ ∙ notify-Keeps _ _ _ _ ∙ sync_assignment-Keeps _ _ _ _ _ _ _ _)
    ∙ h)

flushed-ok :
    (c : Config) (x : Handover) (inc : Incident) (w : World)
    → all_unique w.session.rows.assignments ≡ true
    → (flushed c x inc w (flush w.session)).0 ≡ ok (some x)
unfolding flushed flush
flushed-ok c x inc w h = rw h (followed_up-ok c x inc w h)

hand_to-ok :
    (c : Config) (cause : Cause) (a : IncidentAssignment) (inc : Incident) (e x : Employee)
    (w : World)
    → all_unique w.session.rows.assignments ≡ true
    → exists (is_held_by inc.id x.id) w.session.rows.assignments ≡ false
    → (h : Handover) × ((hand_to c cause a inc e (some x) w).0 ≡ ok (some h)) × (h.incoming ≡ x)
unfolding hand_to transferred put_incident handed_incident incoming_assignment
hand_to-ok c cause a inc e x w u free =
    let rows = w.session.rows.assignments in
    (
      _,
      flushed-ok c _ _ _ (
          all_unique-taken (update (is_row a.id) handed_on rows) _ (all_unique-handed a.id rows u)
            (held-handed a.id inc.id x.id rows free) refl),
      refl,
    )

-- An active assignment is handed on to the candidate with the least to do, as long as the unique
-- indexes are kept so far and the candidate has never had an assignment of the incident.
pub execute_handoff-succeeds :
    (c : Config) (now : Moment) (cause : Cause) (a b : IncidentAssignment) (inc : Incident)
    (e x : Employee) (w : World)
    → find? (is_row a.id) w.session.rows.assignments ≡ some b
    → b.is_active ≡ true
    → successor w.session.rows (successors w.session.rows now inc e) ≡ some x
    → all_unique w.session.rows.assignments ≡ true
    → exists (is_held_by inc.id x.id) w.session.rows.assignments ≡ false
    → (h : Handover) × ((execute_handoff c now cause a inc e w).0 ≡ ok (some h)) × (h.incoming ≡ x)
unfolding execute_handoff if_locked
execute_handoff-succeeds c now cause a b inc e x w found active chosen u free =
    let on : not b.is_active ≡ false = ap not active in
    rw found (rw on (rw chosen (hand_to-ok c cause b inc e x w u free)))
