-- ===== src/Engine/Members.antt =====
-- services/assignment_engine.py, `assign_group`: one assignment for each member.
pub mod Sealing
pub mod Covering
use incident.Prelude.{
  ℕ, Bool, true, false, ◌&&◌, Option, none, some, List, [], ◌∷◌, ◌++◌, ◌==◌, ◌≡◌, ==-refl, subst,
  refl, sym, ap, ◌∙◌, if◌then◌else◌, find?, mem-find?, update, mem-update, mem-append_left,
  mem-append_right, Memᴰ, All, ==_iff, Bool-split, Option-split, length, Text, arith,
}
use incident.Models.{Employee, Team, Incident, IncidentAssignment}
use incident.Session.{Tables, Result, ok, err}
use incident.Engine.Settings.{Engine}
use incident.Engine.Group.{
  holder_ids, employee_ids, member_assignment, taken_up, is_member_row, take_member, take_members,
}
use incident.Actions.{World, Act, query, change, pure, ◌>>=◌}
use incident.Actions.Inversion.{bind_inv, query_inv, pure_inv}

-- A row of the cycle that its holder has to work on.
pub record Taken (incident_id cycle : ℕ) (id : Text) (a : IncidentAssignment) : Type 0 where
  pub of_incident : a.incident_id ≡ incident_id
  pub of_cycle : a.cycle_number ≡ cycle
  pub active : a.is_active ≡ true
  pub of_id : a.assignment_cycle_id ≡ some id

module _ (c : Engine) (inc : Incident) (team : Team) (cycle : ℕ) (id : Text) where
  abbrev pub IsTaken : IncidentAssignment → Type 0
  IsTaken = Taken inc.id cycle id

  taken_again : (a : IncidentAssignment) → IsTaken a → taken_up id a ≡ a
  taken_again a h = cc (h.active, h.of_id)

  -- The rows that are taken stay in the table.
  abbrev pub Stays : World → World → Type 0
  Stays w w' =
      (a : IncidentAssignment)
      → IsTaken a
      → Memᴰ a w.session.rows.assignments
      → Memᴰ a w'.session.rows.assignments

  as_taken : (b : Bool) (a : IncidentAssignment) → IsTaken a → (if b then taken_up id a else a) ≡ a
  as_taken true a h = taken_again a h
  as_taken false a h = refl

  stays_updated :
      (i : ℕ) (rows : List IncidentAssignment) (a : IncidentAssignment)
      → IsTaken a
      → Memᴰ a rows
      → Memᴰ a (update (λ x. x.id == i) (taken_up id) rows)
  stays_updated i rows a h m =
      subst (λ x. Memᴰ x (update (λ y. y.id == i) (taken_up id) rows)) (as_taken (a.id == i) a h)
        (mem-update (λ (y : IncidentAssignment). y.id == i) (taken_up id) m)

  abbrev pub Took : Employee → World → IncidentAssignment → World → Type 0
  Took e w a w' =
      (a.employee_id ≡ e.id) × IsTaken a × Memᴰ a w'.session.rows.assignments × Stays w w'

  returned :
      (e : Employee) (w w₁ : World) (x a : IncidentAssignment) (w' : World)
      → Took e w x w₁
      → ◌≡◌ {A = Result IncidentAssignment × World} (ok x, w₁) (ok a, w')
      → Took e w a w'
  returned e w w₁ x a w' t h =
      let same : x ≡ a = cc in
      let world : w₁ ≡ w' = cc in
      subst (λ v. Took e w a v) world (subst (λ y. Took e w y w₁) same t)

  abbrev with_rows : World → List IncidentAssignment → World
  with_rows w rows = record w {
    session = record w.session { rows = record w.session.rows { assignments = rows } };
  }

  took_up :
      (e : Employee) (w : World) (x : IncidentAssignment)
      → Memᴰ x w.session.rows.assignments
      → is_member_row inc.id cycle e.id x ≡ true
      → Took e w
          (taken_up id x)
          (with_rows w (update (λ y. y.id == x.id) (taken_up id) w.session.rows.assignments))
  took_up e w x m h = (
    ground arith,
    record { of_incident = ground arith; of_cycle = ground arith; active = refl; of_id = refl },
    subst (λ z. Memᴰ z (update (λ y. y.id == x.id) (taken_up id) w.session.rows.assignments))
        (rw (==-refl x.id) refl)
        (mem-update (λ (y : IncidentAssignment). y.id == x.id) (taken_up id) m),
    λ a t m'. stays_updated x.id w.session.rows.assignments a t m',
  )

  added :
      (e : Employee) (w : World)
      → Took e w
          (member_assignment c inc team cycle id e)
          (with_rows w (w.session.rows.assignments ++ member_assignment c inc team cycle id e ∷ []))
  unfolding member_assignment
  added e w = (
    refl,
    record { of_incident = refl; of_cycle = refl; active = refl; of_id = refl },
    mem-append_right w.session.rows.assignments (Memᴰ.head refl),
    λ a t m. mem-append_left _ m,
  )

  take_member-Took :
      (e : Employee) (o : Option IncidentAssignment) (w : World) (a : IncidentAssignment)
      (w' : World)
      → find? (is_member_row inc.id cycle e.id) w.session.rows.assignments ≡ o
      → take_member c inc team cycle id e o w ≡ (ok a, w')
      → Took e w a w'
  unfolding take_member change pure ◌>>=◌
  take_member-Took e none w a w' found h = returned e w _ _ a w' (added e w) h
  take_member-Took e (some x) w a w' found h =
      let (m, p) = mem-find? (is_member_row inc.id cycle e.id) w.session.rows.assignments found in
      returned e w _ _ a w' (took_up e w x m p) h

  -- What a run over the members leaves: their rows, in their order, taken and in the table.
  abbrev pub Covered : List Employee → World → List IncidentAssignment → World → Type 0
  Covered emps w rows w' =
      (holder_ids rows ≡ employee_ids emps)
      × All IsTaken rows
      × All (λ a. Memᴰ a w'.session.rows.assignments) rows
      × Stays w w'

  members_stay :
      (rows : List IncidentAssignment) (w w' : World)
      → All IsTaken rows
      → All (λ a. Memᴰ a w.session.rows.assignments) rows
      → Stays w w'
      → All (λ a. Memᴰ a w'.session.rows.assignments) rows
  members_stay [] w w' t m s = tt
  members_stay (a ∷ rows) w w' t m s = (s a t.0 m.0, members_stay rows w w' t.1 m.1 s)

  covers_more :
      (e : Employee) (emps : List Employee) (w w₁ w₂ : World) (a : IncidentAssignment)
      (rows : List IncidentAssignment)
      → Took e w a w₁
      → Covered emps w₁ rows w₂
      → Covered (e ∷ emps) w (a ∷ rows) w₂
  unfolding holder_ids employee_ids
  covers_more e emps w w₁ w₂ a rows (same, t, m, s) (ids, ts, ms, ss) =
      (cc (same, ids), (t, ts), (ss a t m, ms), λ x tx mx. ss x tx (s x tx mx))

  take_members-Covered :
      (emps : List Employee) (w : World) (rows : List IncidentAssignment) (w' : World)
      → take_members c inc team cycle id emps w ≡ (ok rows, w')
      → Covered emps w rows w'
  unfolding take_members holder_ids employee_ids
  take_members-Covered [] w rows w' h =
      let (same, world) = pure_inv [] rows w w' h in
      subst (λ v. Covered [] w rows v) world
        (subst (λ r. Covered [] w r w) same (refl, tt, tt, λ a t m. m))
  take_members-Covered (e ∷ emps) w rows w' h =
      let (o, w₀, asked, h₀) =
        bind_inv (query (λ t. find? (is_member_row inc.id cycle e.id) t.assignments)) _ w rows w'
          h in
      let (found, same₀) = query_inv _ w o w₀ asked in
      let (a, w₁, took, h₁) = bind_inv (take_member c inc team cycle id e o) _ w₀ rows w' h₀ in
      let (rest, w₂, covered, h₂) =
        bind_inv (take_members c inc team cycle id emps) _ w₁ rows w' h₁ in
      let (same, world) = pure_inv (a ∷ rest) rows w₂ w' h₂ in
      subst (λ v. Covered (e ∷ emps) w rows v) world
        (subst (λ r. Covered (e ∷ emps) w r w₂) same
          (covers_more e emps w w₁ w₂ a rest
            (take_member-Took e o w a w₁ found
              (subst (λ v. take_member c inc team cycle id e o v ≡ (ok a, w₁)) (sym same₀) took))
            (take_members-Covered emps w₁ rest w₂ covered)))
