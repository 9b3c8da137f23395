-- ===== src/Rotation/Replays.antt =====
-- One active assignment, repeated events, and an incident that comes round to the same employee.
use incident.Prelude.{
  ℕ, ◌-◌, Bool, true, false, none, some, List, [], ◌∷◌, ◌++◌, ◌≡◌, ◌∙◌, refl, ap, sym, arith, Memᴰ,
  mem-append_right, length, get_elem?, count, find?-append_none, find?-update-none, exists,
  exists_of_mem, mem-update, update, if◌then◌else◌, Text, text_eq_refl, truthy,
}
use incident.Models.{
  Team, Employee, Incident, IncidentAssignment, TeamRotation, clashes, all_unique,
}
use incident.Session.{Tables, Session, ok, err, integrity_error, commit, put_incident}
use incident.Rotation.Locks.{locked_incident-id}
use incident.Rotation.{
  Call, Outcome, active_members, get_or_create_rotation, or_create, existing_assignment,
  is_active_on, is_event, as_reassigned, new_assignment, moved_rotation, in_range, written,
  locked_incident, assign_selected, committed, assign_unless, assign_locked, already,
  assign_next_rotation_employee,
}
use incident.Rotation.Writes.{IsFresh, assign_next-IsFresh, active-written}
use incident.Rotation.Fairness.{find-after, members-after}

-- After a successful call that is no repetition, the committed rows hold the new assignment, for
-- the member at the pointer, and no other active assignment of the incident.
pub assign_next_one_active :
    (by_code : Employee → Employee → Bool) (c : Call) (team : Team) (inc : Incident)
    (s s' : Session) (out : Outcome)
    → assign_next_rotation_employee by_code c team inc s ≡ (ok out, s')
    → out.idempotent ≡ false
    → (count (is_active_on (locked_incident s.rows inc).id) s'.saved.assignments ≡ 1)
      × Memᴰ out.assignment s'.saved.assignments
      × (out.assignment.is_active ≡ true)
      × (out.assignment.incident_id ≡ (locked_incident s.rows inc).id)
unfolding new_assignment
assign_next_one_active by_code c team inc s s' out run new =
    let f = assign_next-IsFresh by_code c team inc s out s' run new in
    let inc' : Incident = locked_incident s.rows inc in
    let r : TeamRotation = (get_or_create_rotation team.id s.rows).0 in
    let t : Tables = (get_or_create_rotation team.id s.rows).1 in
    (
      ap (λ (u : Tables). count (is_active_on inc'.id) u.assignments) f.saved
          ∙ active-written c team inc' f.selected r t,
      rw (f.saved, f.row)
          (unfold written put_incident in
            mem-append_right (update (is_active_on inc'.id) as_reassigned t.assignments)
              (Memᴰ.head refl)),
      ap (λ a. a.is_active) f.row,
      ap (λ a. a.incident_id) f.row,
    )

module _ (by_code : Employee → Employee → Bool) (c : Call) (team : Team) (inc : Incident)
    (s s' : Session) (out : Outcome) (key : Text)
    (run : assign_next_rotation_employee by_code c team inc s ≡ (ok out, s'))
    (new : out.idempotent ≡ false) (keyed : c.key ≡ some key) (real : truthy key ≡ true) where
  fresh : IsFresh by_code c team inc s out s'
  fresh = assign_next-IsFresh by_code c team inc s out s' run new

  abbrev inc' : Incident
  inc' = locked_incident s.rows inc

  abbrev rot : TeamRotation
  rot = (get_or_create_rotation team.id s.rows).0

  abbrev t' : Tables
  t' = (get_or_create_rotation team.id s.rows).1

  rows-assignments :
      s'.rows.assignments
      ≡ update (is_active_on inc'.id) as_reassigned t'.assignments
        ++ new_assignment c team inc' fresh.selected (in_range rot) ∷ []
  unfolding written put_incident
  rows-assignments =
      ap (λ (t : Tables). t.assignments) fresh.rows ∙ ap (λ (t : Tables). t.assignments) fresh.saved

  -- The row of the event is found again.
  found_again :
      existing_assignment (some key) inc.id s'.rows
      ≡ some (new_assignment c team inc' fresh.selected (in_range rot))
  unfolding existing_assignment new_assignment
  found_again =
      rw (real, rows-assignments)
        (find?-append_none (is_event inc.id key)
          (update (is_active_on inc'.id) as_reassigned t'.assignments)
          (new_assignment c team inc' fresh.selected (in_range rot))
          (find?-update-none (is_event inc.id key) (is_active_on inc'.id) as_reassigned
            t'.assignments (λ a h. ground arith)
            (λ a h. ground (arith, locked_incident-id s.rows inc)))
          (rw (keyed, text_eq_refl) (ground (arith, locked_incident-id s.rows inc))))

  rotation_again :
      get_or_create_rotation team.id s'.rows ≡ (moved_rotation c inc' fresh.selected rot, s'.rows)
  unfolding get_or_create_rotation or_create
  rotation_again = ap (or_create team.id s'.rows) (find-after by_code c team inc s out s' fresh)

  -- A second call with the key of a call that has succeeded returns the same assignment and leaves
  -- the session, its pending rows, committed rows and sent events, as it was.
  pub assign_next_repeat :
      (c' : Call)
      → c'.key ≡ some key
      → (again : Outcome) × (assign_next_rotation_employee by_code c' team inc s' ≡ (ok again, s'))
        × (again.assignment ≡ out.assignment)
        × (again.idempotent ≡ true)
  unfolding assign_next_rotation_employee assign_locked assign_unless already fresh
  assign_next_repeat c' same = (
    already (moved_rotation c inc' fresh.selected rot)
        (new_assignment c team inc' fresh.selected (in_range rot)),
    rw
        (
          members-after by_code c team inc s out s' fresh,
          fresh.members,
          locked_incident-id s'.rows inc,
          rotation_again,
          same,
          found_again,
        )
        refl,
    sym fresh.row,
    refl,
  )

-- The older row of the same incident and employee clashes, also once it has been closed.
old-clashes :
    (c : Call) (team : Team) (inc : Incident) (e : Employee) (p : ℕ × ℕ) (a : IncidentAssignment)
    → a.incident_id ≡ inc.id
    → a.employee_id ≡ e.id
    → a.cycle_number ≡ 1
    → clashes (if is_active_on inc.id a then as_reassigned a else a) (new_assignment c team inc e p)
      ≡ true
unfolding clashes new_assignment
old-clashes c team inc e p a h k l = ground arith

-- A new row that clashes with an older one is refused by the unique indexes.
all_unique-clash :
    (a b : IncidentAssignment) {rows : List IncidentAssignment}
    → Memᴰ a rows
    → clashes a b ≡ true
    → all_unique (rows ++ b ∷ []) ≡ false
unfolding all_unique
all_unique-clash a b (Memᴰ.head {x = x} {xs = rows} e) h =
    let hit : exists (clashes x) (rows ++ b ∷ []) ≡ true =
      exists_of_mem (clashes x) (mem-append_right rows (Memᴰ.head refl))
        (ap (λ y. clashes y b) (sym e) ∙ h) in
    rw hit refl
all_unique-clash a b (Memᴰ.tail {x = x} {xs = rows} m) h = ground (arith, all_unique-clash a b m h)

module _ (by_code : Employee → Employee → Bool) (c : Call) (team : Team) (inc : Incident)
    (s : Session) where
  -- In a team of ten, an incident that already has an assignment row of cycle 1 for the member at the
  -- pointer, however long closed, cannot be assigned by the rotation for an event that is no repetition:
  -- the unique index on incident, employee and cycle refuses the new row, whose cycle is always 1, and
  -- nothing is committed.
  pub assign_next_clash :
      (e : Employee) (a : IncidentAssignment)
      → length (active_members by_code s.rows team.id) ≡ 10
      → get_elem?
          (active_members by_code s.rows team.id)
          ((in_range (get_or_create_rotation team.id s.rows).0).0 - 1)
        ≡ some e
      → existing_assignment c.key inc.id (get_or_create_rotation team.id s.rows).1 ≡ none
      → Memᴰ a (get_or_create_rotation team.id s.rows).1.assignments
      → a.incident_id ≡ inc.id
      → a.employee_id ≡ e.id
      → a.cycle_number ≡ 1
      → ((assign_next_rotation_employee by_code c team inc s).0 ≡ err integrity_error)
        × ((assign_next_rotation_employee by_code c team inc s).1.saved ≡ s.saved)
        × ((assign_next_rotation_employee by_code c team inc s).1.sent ≡ s.sent)
  unfolding assign_next_rotation_employee assign_locked assign_unless assign_selected committed
      commit
  assign_next_clash e a ten at_pointer none_yet m incident employee cycle =
      rw (ten, none', at_pointer, refused) (refl, refl, refl)
    where
      r : TeamRotation
      r = (get_or_create_rotation team.id s.rows).0

      t : Tables
      t = (get_or_create_rotation team.id s.rows).1

      inc' : Incident
      inc' = locked_incident s.rows inc

      none' : existing_assignment c.key inc'.id t ≡ none
      none' = ap (λ i. existing_assignment c.key i t) (locked_incident-id s.rows inc) ∙ none_yet

      refused : all_unique (written c team inc' e r t).assignments ≡ false
      refused =
          unfold written put_incident in
          all_unique-clash _ (new_assignment c team inc' e (in_range r))
            (mem-update (is_active_on inc'.id) as_reassigned m)
            (old-clashes c team inc' e (in_range r) a
              (incident ∙ sym (locked_incident-id s.rows inc)) employee cycle)
