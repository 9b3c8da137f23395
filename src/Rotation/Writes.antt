-- ===== src/Rotation/Writes.antt =====
-- What a rotation assignment writes.
use incident.Prelude.{
  ◌-◌, Bool, true, false, Option, none, some, List, ◌≡◌, ◌∙◌, refl, ap, sym, subst, arith, length,
  get_elem?, count, count-append, count-update_clear, Bool-cases, Bool-split, Option-split, inl,
  inr, ◌==◌, update,
}
use incident.Models.{Team, Employee, Incident, IncidentAssignment, TeamRotation, all_unique}
use incident.Session.{Tables, Session, Result, ok, err, commit, put_incident}
use incident.Rotation.{
  advance, assigned_incident, Call, Outcome, active_members, get_or_create_rotation,
  existing_assignment, is_active_on, as_reassigned, new_assignment, in_range, written,
  locked_incident, dispatch, committed, assign_selected, assign_unless, assign_locked,
  assign_next_rotation_employee, already,
}

-- The rows after a fresh assignment hold exactly one active assignment of the incident.
pub active-written :
    (c : Call) (team : Team) (inc : Incident) (e : Employee) (r : TeamRotation) (t : Tables)
    → count (is_active_on inc.id) (written c team inc e r t).assignments ≡ 1
unfolding written put_incident new_assignment count
active-written c team inc e r t =
    count-append (is_active_on inc.id) (update (is_active_on inc.id) as_reassigned t.assignments) _
    ∙ ground (
      arith,
      count-update_clear (is_active_on inc.id) (is_active_on inc.id) as_reassigned t.assignments
          (λ a h. ground arith) (λ a h. h),
    )

-- What a successful call that is no repetition leaves: the selected member stands at the pointer,
-- the rows of `written` are committed, and the notices are added after the commit.
pub record IsFresh (by_code : Employee → Employee → Bool) (c : Call) (team : Team) (inc : Incident)
    (s : Session) (out : Outcome) (s' : Session) : Type 0 where
  pub members : length (active_members by_code s.rows team.id) ≡ 10
  pub selected : Employee
  pub at_pointer :
      get_elem?
        (active_members by_code s.rows team.id)
        ((in_range (get_or_create_rotation team.id s.rows).0).0 - 1)
      ≡ some selected
  pub row :
      out.assignment
      ≡ new_assignment c team
          (locked_incident s.rows inc)
          selected
          (in_range (get_or_create_rotation team.id s.rows).0)
  pub saved :
      s'.saved
      ≡ written c team
          (locked_incident s.rows inc)
          selected
          (get_or_create_rotation team.id s.rows).0
          (get_or_create_rotation team.id s.rows).1
  pub rows : s'.rows ≡ record s'.saved { notifications = s'.rows.notifications }

abbrev is_repeat : Result Outcome → Bool
is_repeat (ok out) = out.idempotent
is_repeat (err x) = false

module _ (by_code : Employee → Employee → Bool) (c : Call) (team : Team) (inc : Incident)
    (s : Session) (out : Outcome) (s' : Session) where
  abbrev mems : List Employee
  mems = active_members by_code s.rows team.id

  abbrev inc' : Incident
  inc' = locked_incident s.rows inc

  abbrev rot : TeamRotation
  rot = (get_or_create_rotation team.id s.rows).0

  abbrev t' : Tables
  t' = (get_or_create_rotation team.id s.rows).1

  abbrev fresh : Employee → Outcome
  fresh x = record {
    idempotent = false;
    assignment = new_assignment c team inc' x (in_range rot);
    rotation_position = (in_range rot).0;
    rotation_cycle = (in_range rot).1;
    next_employee = get_elem? mems ((advance (in_range rot)).0 - 1);
  }

  abbrev wrote : Employee → Tables
  wrote x = written c team inc' x rot t'

  abbrev sent : Employee → Session
  sent x =
      dispatch team mems x (assigned_incident (wrote x) team x inc')
        (new_assignment c team inc' x (in_range rot)) (record s { rows = wrote x; saved = wrote x })

  fresh_of_selected :
      length mems ≡ 10
      → (o : Option Employee) → get_elem? mems ((in_range rot).0 - 1) ≡ o
      → assign_selected c team inc' mems rot o (record s { rows = t' }) ≡ (ok out, s')
      → IsFresh by_code c team inc s out s'
  unfolding assign_selected committed commit dispatch
  fresh_of_selected ten none e h = ground arith
  fresh_of_selected ten (some x) e h =
      elim (Bool-cases (all_unique (written c team inc' x rot t').assignments)) [
        | inl unique ↦
            let h' : ◌≡◌ {A = Result Outcome × Session} (ok (fresh x), sent x) (ok out, s') =
              rw unique at h in
            record {
              members = ten;
              selected = x;
              at_pointer = e;
              row = cc;
              saved = sym (ap (λ q. q.1.saved) h');
              rows =
                  subst
                    (λ (q : Session).
                      q.rows ≡ record q.saved { notifications = q.rows.notifications })
                    (ap (λ q. q.1) h') refl;
            }
        | inr clash ↦ ground arith
      ]

  already-idempotent :
      (a : IncidentAssignment)
      → ◌≡◌ {A = Result Outcome × Session} (ok (already rot a), record s { rows = t' }) (ok out, s')
      → out.idempotent ≡ true
  unfolding already
  already-idempotent a h = sym (ap (λ (q : Result Outcome × Session). is_repeat q.0) h)

  fresh_of_unless :
      length mems ≡ 10
      → (o : Option IncidentAssignment)
      → assign_unless c team inc' mems rot o (record s { rows = t' }) ≡ (ok out, s')
      → out.idempotent ≡ false
      → IsFresh by_code c team inc s out s'
  unfolding assign_unless
  fresh_of_unless ten o h new =
      Option-split o
        (λ e. fresh_of_selected ten (get_elem? mems ((in_range rot).0 - 1)) refl (rw e at h))
        (λ a e. cc (already-idempotent a (rw e at h), new))

  pub assign_next-IsFresh :
      assign_next_rotation_employee by_code c team inc s ≡ (ok out, s')
      → out.idempotent ≡ false
      → IsFresh by_code c team inc s out s'
  unfolding assign_next_rotation_employee assign_locked
  assign_next-IsFresh h new =
      Bool-split (length mems == 10)
        (λ ten.
          fresh_of_unless (ground arith) (existing_assignment c.key inc'.id t') (rw ten at h) new)
        (λ other. cc (rw other at h))
