-- ===== src/Rotation/Totality.antt =====
-- When a rotation assignment goes through.
use incident.Prelude.{
  ℕ, ◌-◌, Bool, true, false, Option, none, some, List, [], ◌∷◌, ◌++◌, ◌==◌, ==_iff, ◌≡◌, ◌∙◌, refl,
  ap, arith, Bool-split, length, get_elem?_total, exists, update, find?-none_of, truthy, Text,
}
use incident.Models.{
  Team, Employee, Incident, IncidentAssignment, TeamRotation, all_unique, clashes, same_cycle_id,
}
use incident.Session.{Tables, Session, Result, ok, commit, put_incident}
use incident.Rotation.Locks.{locked_incident-id}
use incident.Rotation.{
  Call, Outcome, active_members, get_or_create_rotation, or_create, find_rotation,
  existing_assignment, is_event, is_active_on, as_reassigned, new_assignment, in_range, written,
  locked_incident, committed, assign_selected, assign_unless, assign_locked,
  assign_next_rotation_employee,
}
use incident.Rotation.Pointer.{in_range-IsPointer}

-- No row is of the incident.
abbrev pub is_of : ℕ → IncidentAssignment → Bool
is_of incident_id a = a.incident_id == incident_id

update-untouched :
    (id : ℕ) (rows : List IncidentAssignment)
    → exists (is_of id) rows ≡ false
    → update (is_active_on id) as_reassigned rows ≡ rows
unfolding update exists
update-untouched id [] h = refl
update-untouched id (x ∷ rows) h =
    let apart : is_active_on id x ≡ false = ground arith in
    rw apart (ap (λ l. x ∷ l) (update-untouched id rows (ground arith)))

pub same_cycle_id-none : (o : Option Text) → same_cycle_id o none ≡ false
unfolding same_cycle_id
same_cycle_id-none none = refl
same_cycle_id-none (some k) = refl

clashes-none :
    (a new : IncidentAssignment)
    → is_of new.incident_id a ≡ false
    → new.assignment_cycle_id ≡ none
    → clashes a new ≡ false
unfolding clashes
clashes-none a new h k =
    let apart : same_cycle_id a.assignment_cycle_id new.assignment_cycle_id ≡ false =
      ap (same_cycle_id a.assignment_cycle_id) k ∙ same_cycle_id-none a.assignment_cycle_id in
    ground (arith, apart, h)

pub exists-append :
    (p : IncidentAssignment → Bool) (rows : List IncidentAssignment) (new : IncidentAssignment)
    → exists p rows ≡ false
    → p new ≡ false
    → exists p (rows ++ new ∷ []) ≡ false
unfolding exists
exists-append p [] new h k = ground arith
exists-append p (x ∷ rows) new h k = ground (arith, exists-append p rows new)

all_unique-append :
    (rows : List IncidentAssignment) (new : IncidentAssignment)
    → all_unique rows ≡ true
    → exists (is_of new.incident_id) rows ≡ false
    → new.assignment_cycle_id ≡ none
    → all_unique (rows ++ new ∷ []) ≡ true
unfolding all_unique exists
all_unique-append [] new u h k = refl
all_unique-append (x ∷ rows) new u h k =
    let rest = all_unique-append rows new (ground arith) (ground arith) k in
    let apart =
      exists-append (clashes x) rows new (ground arith) (clashes-none x new (ground arith) k) in
    ground (arith, rest, apart)

or_create-assignments :
    (team_id : ℕ) (t : Tables) (o : Option TeamRotation)
    → (or_create team_id t o).1.assignments ≡ t.assignments
unfolding or_create
or_create-assignments team_id t none = refl
or_create-assignments team_id t (some r) = refl

no_event :
    (id : ℕ) (k : Text) (rows : List IncidentAssignment)
    → exists (is_of id) rows ≡ false
    → exists (is_event id k) rows ≡ false
unfolding exists
no_event id k [] h = refl
no_event id k (x ∷ rows) h =
    let apart : is_of id x ≡ false = ground arith in rw apart (no_event id k rows (ground arith))

existing-none :
    (key : Option Text) (id : ℕ) (t : Tables)
    → exists (is_of id) t.assignments ≡ false
    → existing_assignment key id t ≡ none
unfolding existing_assignment
existing-none none id t h = refl
existing-none (some k) id t h =
    let found = find?-none_of (is_event id k) t.assignments (no_event id k t.assignments h) in
    Bool-split (truthy k) (λ y. rw y found) (λ n. rw n refl)

-- A successful outcome that is no repetition.
pub Succeeds : Result Outcome × Session → Type 0
Succeeds r = (out : Outcome) × (r.0 ≡ ok out) × (out.idempotent ≡ false)

module _ (c : Call) (team : Team) (inc : Incident) (members : List Employee) where
  committed-Succeeds :
      (e : Employee) (r : TeamRotation) (s : Session)
      → all_unique s.rows.assignments ≡ true
      → Succeeds (committed c team inc members e r (commit s))
  unfolding committed commit Succeeds
  committed-Succeeds e r s h = rw h (_, refl, refl)

  selected-Succeeds :
      (e : Employee) (r : TeamRotation) (s : Session)
      → all_unique s.rows.assignments ≡ true
      → exists (is_of inc.id) s.rows.assignments ≡ false
      → Succeeds (assign_selected c team inc members r (some e) s)
  unfolding assign_selected written put_incident new_assignment
  selected-Succeeds e r s u h = committed-Succeeds e r _ (
      rw (update-untouched inc.id s.rows.assignments h)
        (all_unique-append s.rows.assignments _ u h refl))

  unless-Succeeds :
      (r : TeamRotation) (s : Session)
      → length members ≡ 10
      → all_unique s.rows.assignments ≡ true
      → exists (is_of inc.id) s.rows.assignments ≡ false
      → Succeeds (assign_unless c team inc members r none s)
  unfolding assign_unless
  unless-Succeeds r s ten u h =
      let p = in_range-IsPointer r in
      let (e, at) =
        get_elem?_total members ((in_range r).0 - 1) (omega (arith, p.low, p.high, ten)) in
      rw at (selected-Succeeds e r s u h)

  locked-Succeeds :
      (r : TeamRotation) (t : Tables) (s : Session)
      → length members ≡ 10
      → all_unique t.assignments ≡ true
      → exists (is_of inc.id) t.assignments ≡ false
      → Succeeds (assign_locked c team inc members (r, t) s)
  unfolding assign_locked
  locked-Succeeds r t s ten u h =
      rw (existing-none c.key inc.id t h) (unless-Succeeds r (record s { rows = t }) ten u h)

-- A team of ten gets an incident that has no assignment rows: with the unique indexes kept so far,
-- the call succeeds with a new assignment.
pub assign_next-Succeeds :
    (by_code : Employee → Employee → Bool) (c : Call) (team : Team) (inc : Incident) (s : Session)
    → length (active_members by_code s.rows team.id) ≡ 10
    → all_unique s.rows.assignments ≡ true
    → exists (is_of inc.id) s.rows.assignments ≡ false
    → Succeeds (assign_next_rotation_employee by_code c team inc s)
unfolding assign_next_rotation_employee get_or_create_rotation
assign_next-Succeeds by_code c team inc s ten u h =
    let members = active_members by_code s.rows team.id in
    let inc' = locked_incident s.rows inc in
    let made = or_create team.id s.rows (find_rotation team.id s.rows) in
    let same = or_create-assignments team.id s.rows (find_rotation team.id s.rows) in
    let size : (length members == 10) ≡ true = (==_iff (length members) 10).1 ten in
    rw size (
      locked-Succeeds c team inc' members made.0 made.1 s ten (ap all_unique same ∙ u) (
        ap (exists (is_of inc'.id)) same
        ∙ ap (λ i. exists (is_of i) s.rows.assignments) (locked_incident-id s.rows inc)
        ∙ h))
