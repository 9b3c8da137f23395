-- ===== src/Rotation/Fairness.antt =====
-- Consecutive assignments of a team go round its members in order.
use native.Mathlib.Nat.{add-zero}
use incident.Prelude.{
  ℕ, zero, suc, ◌+◌, ◌-◌, ◌%◌, Bool, false, Option, none, some, List, [], ◌∷◌, ◌≡◌, ◌∙◌, refl, ap,
  sym, arith, get_elem?, find?, find?-append_none, find?-update, mem-find?, ◌==◌, ==-refl, ==_iff,
  select, sort, is, ◌&&◌,
}
use incident.Models.{User, Team, Employee, Incident, TeamRotation}
use incident.Session.{Tables, Session, ok, put_incident, get_user}
use incident.Rotation.{
  Call, Outcome, active_members, is_active_member, find_rotation, get_or_create_rotation, or_create,
  new_rotation, new_assignment, in_range, moved_rotation, written, locked_incident, advance,
  assign_next_rotation_employee,
}
use incident.Rotation.Pointer.{in_range-IsPointer, turn, advance-turn}
use incident.Rotation.Writes.{IsFresh, assign_next-IsFresh}

-- The pointer that the next assignment of the team uses.
abbrev pub pointer : ℕ → Tables → ℕ × ℕ
pointer team_id t = in_range (get_or_create_rotation team_id t).0

-- A created row is the one that is found afterwards, and nothing else is touched.
pub record IsRotationOf (team_id : ℕ) (t : Tables) (r : TeamRotation) (t' : Tables) : Type 0 where
  pub found : find_rotation team_id t' ≡ some r
  pub own : r.team_id ≡ team_id
  pub users : t'.users ≡ t.users
  pub employees : t'.employees ≡ t.employees

or_create-IsRotationOf :
    (team_id : ℕ) (t : Tables) (o : Option TeamRotation)
    → find_rotation team_id t ≡ o
    → IsRotationOf team_id t (or_create team_id t o).0 (or_create team_id t o).1
unfolding or_create new_rotation
or_create-IsRotationOf team_id t none e = record {
  found =
      find?-append_none (λ (r : TeamRotation). r.team_id == team_id) t.rotations
        (new_rotation team_id) e (==-refl team_id);
  own = refl;
  users = refl;
  employees = refl;
}
or_create-IsRotationOf team_id t (some r) e = record {
  found = e;
  own =
      (==_iff r.team_id team_id).0
        (mem-find? (λ (x : TeamRotation). x.team_id == team_id) t.rotations e).1;
  users = refl;
  employees = refl;
}

pub get_or_create-IsRotationOf :
    (team_id : ℕ) (t : Tables)
    → IsRotationOf team_id t
        (get_or_create_rotation team_id t).0
        (get_or_create_rotation team_id t).1
unfolding get_or_create_rotation
get_or_create-IsRotationOf team_id t =
    or_create-IsRotationOf team_id t (find_rotation team_id t) refl

active_members-same :
    (by_code : Employee → Employee → Bool) (t u : Tables) (team_id : ℕ)
    → t.users ≡ u.users
    → t.employees ≡ u.employees
    → active_members by_code t team_id ≡ active_members by_code u team_id
unfolding active_members get_user
active_members-same by_code t u team_id us es = λ i. sort by_code (
    select
      (λ e.
        is e.team_id team_id && is_active_member (find? (λ (x : User). x.id == e.user_id) (us i)))
      (es i))

module _ (by_code : Employee → Employee → Bool) (c : Call) (team : Team) (inc : Incident)
    (s : Session) (out : Outcome) (s' : Session) (fresh : IsFresh by_code c team inc s out s') where
  abbrev rot : TeamRotation
  rot = (get_or_create_rotation team.id s.rows).0

  abbrev t' : Tables
  t' = (get_or_create_rotation team.id s.rows).1

  here : IsRotationOf team.id s.rows rot t'
  here = get_or_create-IsRotationOf team.id s.rows

  moved-find :
      find_rotation team.id (written c team (locked_incident s.rows inc) fresh.selected rot t')
      ≡ some (moved_rotation c (locked_incident s.rows inc) fresh.selected rot)
  unfolding written put_incident
  moved-find = rw (here.own) (
      find?-update (λ (x : TeamRotation). x.team_id == team.id)
        (moved_rotation c (locked_incident s.rows inc) fresh.selected rot) {a = rot} t'.rotations
        (unfold moved_rotation in (==_iff _ _).1 here.own) here.found)

  -- The rows of the session afterwards are those of `written`, but for the notices.
  rows-rotations :
      s'.rows.rotations
      ≡ (written c team (locked_incident s.rows inc) fresh.selected rot t').rotations
  rows-rotations =
      ap (λ (t : Tables). t.rotations) fresh.rows ∙ ap (λ (t : Tables). t.rotations) fresh.saved

  rows-users : s'.rows.users ≡ s.rows.users
  unfolding written put_incident
  rows-users =
      ap (λ (t : Tables). t.users) fresh.rows
      ∙ ap (λ (t : Tables). t.users) fresh.saved
      ∙ here.users

  rows-employees : s'.rows.employees ≡ s.rows.employees
  unfolding written put_incident
  rows-employees =
      ap (λ (t : Tables). t.employees) fresh.rows
      ∙ ap (λ (t : Tables). t.employees) fresh.saved
      ∙ here.employees

  pub members-after : active_members by_code s'.rows team.id ≡ active_members by_code s.rows team.id
  members-after = active_members-same by_code s'.rows s.rows team.id rows-users rows-employees

  pub find-after :
      find_rotation team.id s'.rows
      ≡ some (moved_rotation c (locked_incident s.rows inc) fresh.selected rot)
  find-after = ap (find? (λ (r : TeamRotation). r.team_id == team.id)) rows-rotations ∙ moved-find

  in_range-moved :
      in_range (moved_rotation c (locked_incident s.rows inc) fresh.selected rot)
      ≡ advance (in_range rot)
  unfolding moved_rotation in_range advance
  in_range-moved = ground arith

  pointer-after : pointer team.id s'.rows ≡ advance (pointer team.id s.rows)
  unfolding get_or_create_rotation
  pointer-after =
      ap (λ o. in_range (or_create team.id s'.rows o).0) find-after
      ∙ (unfold or_create in in_range-moved)

  turn-after : turn (pointer team.id s'.rows) ≡ turn (pointer team.id s.rows) + 1
  turn-after =
      ap turn pointer-after ∙ advance-turn (pointer team.id s.rows) (in_range-IsPointer rot)

  selected-at :
      get_elem? (active_members by_code s.rows team.id) (turn (pointer team.id s.rows) % 10)
      ≡ some fresh.selected
  selected-at =
      let p = in_range-IsPointer rot in
      let place : turn (pointer team.id s.rows) % 10 ≡ (in_range rot).0 - 1 =
        omega (arith, p.low, p.high, p.round) in
      ap (get_elem? (active_members by_code s.rows team.id)) place ∙ fresh.at_pointer

  served : out.assignment.employee_id ≡ fresh.selected.id
  unfolding new_assignment
  served = ap (λ a. a.employee_id) fresh.row

-- The employees served by consecutive assignments of one team, none of them a repetition.
pub data Turns (by_code : Employee → Employee → Bool) (team : Team)
    : Session → List ℕ → Session → Type 0 where
  done : {s : Session} → Turns by_code team s [] s
  turn_of :
      {s s' s'' : Session} {ids : List ℕ} (c : Call) (inc : Incident) (out : Outcome)
      → assign_next_rotation_employee by_code c team inc s ≡ (ok out, s')
      → out.idempotent ≡ false
      → Turns by_code team s' ids s''
      → Turns by_code team s (out.assignment.employee_id ∷ ids) s''

-- Consecutive assignments of a team go to its ten members round and round, in the order of the
-- codes, from the place where the pointer stood: the n-th goes to the member whose place is the
-- number of turns taken before the first, plus n, modulo ten.
pub Turns-round_robin :
    (by_code : Employee → Employee → Bool) (team : Team) (s s' : Session) (ids : List ℕ)
    → Turns by_code team s ids s'
    → (n : ℕ) (id : ℕ) → get_elem? ids n ≡ some id
    → (e : Employee) × (get_elem?
          (active_members by_code s.rows team.id)
          ((turn (pointer team.id s.rows) + n) % 10)
        ≡ some e)
      × (e.id ≡ id)
Turns-round_robin by_code team s s' [] done n id h = cc
Turns-round_robin by_code team s s'' (x ∷ ids) (turn_of {s' = s'} c inc out run new rest) n id h =
    go n h (Turns-round_robin by_code team s' s'' ids rest)
  where
    fresh : IsFresh by_code c team inc s out s'
    fresh = assign_next-IsFresh by_code c team inc s out s' run new

    members : List Employee
    members = active_members by_code s.rows team.id

    go :
        (n : ℕ)
        → get_elem? (out.assignment.employee_id ∷ ids) n ≡ some id
        → ((m : ℕ) (i : ℕ)
            → get_elem? ids m ≡ some i
            → (e : Employee) × (get_elem?
                  (active_members by_code s'.rows team.id)
                  ((turn (pointer team.id s'.rows) + m) % 10)
                ≡ some e)
              × (e.id ≡ i))
        → (e : Employee) × (get_elem? members ((turn (pointer team.id s.rows) + n) % 10) ≡ some e)
          × (e.id ≡ id)
    go zero h ih = (
      fresh.selected,
      rw add-zero (selected-at by_code c team inc s out s' fresh),
      cc (served by_code c team inc s out s' fresh),
    )
    go (suc m) h ih =
        let (e, at, own) = ih m id h in
        let later : (turn (pointer team.id s.rows) + suc m) % 10
            ≡ (turn (pointer team.id s'.rows) + m) % 10 =
          omega (arith, turn-after by_code c team inc s out s' fresh) in
        (
          e,
          ap (get_elem? members) later
              ∙ sym (
                  ap (λ l. get_elem? l ((turn (pointer team.id s'.rows) + m) % 10))
                    (members-after by_code c team inc s out s' fresh))
              ∙ at,
          own,
        )
