-- ===== src/Eligibility/Presence.antt =====
-- What the pipeline does not read: an employee's presence, availability, code and leadership.
use incident.Prelude.{
  ℕ, Text, Option, none, some, List, map, ◌≡◌, ◌∙◌, refl, ap, exists, is_empty, sort, select-map,
  select-ext, sort-map, is_empty-map, Bool-cases, inl, inr,
}
use incident.Models.{Employee, Shift}
use incident.Session.{Tables, get_user, get_team}
use incident.Workload.{workload}
use incident.Shifts.{Moment, assigns, get_active_shift, get_shift_employees, scheduled}
use incident.Eligibility.{
  Request, find_eligible_employees, verdict, in_group, holds_incident, has_skill, has_skills,
  is_passed, by_workload, pipeline_on,
}
use incident.Eligibility.Gates.{gate-select}

-- A rewrite of the employees' rows that keeps who they are and where they belong.
pub record KeepsIdentity (f : Employee → Employee) : Type 0 where
  pub id : (e : Employee) → (f e).id ≡ e.id
  pub user_id : (e : Employee) → (f e).user_id ≡ e.user_id
  pub team_id : (e : Employee) → (f e).team_id ≡ e.team_id

abbrev pub rewrite_employees : (Employee → Employee) → Tables → Tables
rewrite_employees f t = record t { employees = map f t.employees }

module _ (f : Employee → Employee) (keeps : KeepsIdentity f) (t : Tables) where
  abbrev t' : Tables
  t' = rewrite_employees f t

  assigns-same :
      (shift_id : ℕ) (day : Option ℕ) (e : Employee)
      → exists (assigns shift_id day (f e)) t.shift_assignments
        ≡ exists (assigns shift_id day e) t.shift_assignments
  assigns-same shift_id none e = rw keeps.id
  assigns-same shift_id (some day) e = rw keeps.id

  scheduled-same :
      (shift_id : ℕ) (day : Option ℕ) → scheduled t' shift_id day ≡ map f (scheduled t shift_id day)
  unfolding scheduled
  scheduled-same shift_id day =
      select-map f _ t.employees
      ∙ ap (map f) (select-ext _ _ t.employees (assigns-same shift_id day))

  get_shift_employees-same :
      (shift_id date : ℕ)
      → get_shift_employees t' shift_id date ≡ map f (get_shift_employees t shift_id date)
  unfolding get_shift_employees
  get_shift_employees-same shift_id date =
      rw (scheduled-same shift_id (some date), scheduled-same shift_id none, is_empty-map)
        (elim (Bool-cases (is_empty (scheduled t shift_id (some date)))) [
          | inl e ↦ rw e
          | inr e ↦ rw e
        ])

  holds_incident-same :
      (o : Option ℕ) (e : Employee) → holds_incident t' o (f e) ≡ holds_incident t o e
  unfolding holds_incident
  holds_incident-same none e = refl
  holds_incident-same (some i) e = rw keeps.id

  in_group-same : (group : Text) (e : Employee) → in_group t' group (f e) ≡ in_group t group e
  unfolding in_group get_team
  in_group-same group e = rw keeps.team_id

  has_skills-same :
      (required : List ℕ) (e : Employee) → has_skills t' required (f e) ≡ has_skills t required e
  unfolding has_skills has_skill
  has_skills-same required e = rw keeps.id

  user-same : (e : Employee) → get_user t' (f e).user_id ≡ get_user t e.user_id
  unfolding get_user
  user-same e = rw keeps.user_id

  verdict-same : (r : Request) (e : Employee) → verdict t' r (f e) ≡ verdict t r e
  unfolding verdict
  verdict-same r e = rw (user-same, in_group-same, holds_incident-same, has_skills-same)

  by_workload-same : (a b : Employee) → by_workload t' (f a) (f b) ≡ by_workload t a b
  unfolding by_workload workload
  by_workload-same a b = simp keeps.id

  eligible-same :
      (r : Request) (now : Moment) (o : Option Shift)
      → (pipeline_on t' r now o).eligible ≡ map f (pipeline_on t r now o).eligible
  unfolding pipeline_on
  eligible-same r now none = refl
  eligible-same r now (some shift) =
      let emps : List Employee = get_shift_employees t shift.id now.date in
      rw
        (
          gate-select t' r (get_shift_employees t' shift.id now.date),
          gate-select t r emps,
          get_shift_employees-same shift.id now.date,
          select-map f,
        )
        (sort-map f (by_workload t) (by_workload t') by_workload-same _
          ∙ ap (λ (l : List Employee). map f (sort (by_workload t) l))
              (select-ext _ _ emps (λ e. ap is_passed (verdict-same r e))))

  -- Presence, availability, codes and leadership have no influence on eligibility: over rows that
  -- differ only in those, the same employees are found, in the same order.
  pub find_eligible_employees-rewrite :
      (r : Request) (now : Moment)
      → find_eligible_employees t' r now ≡ map f (find_eligible_employees t r now)
  unfolding find_eligible_employees get_active_shift
  find_eligible_employees-rewrite r now = eligible-same r now (get_active_shift t now)
