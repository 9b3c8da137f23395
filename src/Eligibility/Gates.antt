-- ===== src/Eligibility/Gates.antt =====
-- Who passes the gates of the pipeline.
use incident.Prelude.{
  ℕ, Bool, true, false, ◌&&◌, Option, none, some, List, [], ◌∷◌, ◌≡◌, ◌⊎◌, ◌↔◌, inl, inr, refl, ap,
  ◌∙◌, arith, Memᴰ, sort, Bool-cases, select, mem-select, mem-select_of, mem-sort, mem-sort_of,
  exists-false, exists_of_mem, exists_witness, all_of_mem, all_intro, truthy, ◌==◌,
}
use incident.Models.{User, is_employee, Employee, EmployeeSkill, Shift, IncidentAssignment}
use incident.Session.{Tables, get_user, get_team}
use incident.Shifts.{Moment, get_active_shift, get_shift_employees}
use incident.Eligibility.{
  Request, Verdict, skipped, passed, refused, is_active_employee, group_matches, in_group,
  holds_incident, has_skill, has_skills, verdict, gate, is_passed, by_workload, pipeline_on,
  find_eligible_employees,
}

-- What the criteria ask: an active employee user,
abbrev pub IsUser : Tables → Employee → Type 0
IsUser t e =
    (u : User) × (get_user t e.user_id ≡ some u)
    × (u.is_active ≡ true)
    × (is_employee u.role ≡ true)

-- of the incident's group, if it has one,
abbrev pub InGroup : Tables → Request → Employee → Type 0
InGroup t r e =
    (truthy r.assignment_group ≡ false)
    ⊎ (group_matches r.assignment_group (get_team t e.team_id) ≡ true)

-- without an active assignment of the incident (a released one of the current cycle does not count),
abbrev pub IsFree : Tables → Request → Employee → Type 0
IsFree t r e =
    (a : IncidentAssignment)
    → Memᴰ a t.assignments
    → a.employee_id ≡ e.id
    → r.incident_id ≡ some a.incident_id
    → a.is_active ≡ false

-- and with every required skill. Presence is not among them.
abbrev pub IsSkilled : Tables → Request → Employee → Type 0
IsSkilled t r e =
    (k : ℕ)
    → Memᴰ k r.required_skills
    → (row : EmployeeSkill) × Memᴰ row t.employee_skills
      × (row.employee_id ≡ e.id)
      × (row.skill_id ≡ k)

pub record Qualifies (t : Tables) (r : Request) (e : Employee) : Type 0 where
  pub user : IsUser t e
  pub group : InGroup t r e
  pub free : IsFree t r e
  pub skilled : IsSkilled t r e

pub active_user :
    (o : Option User)
    → is_active_employee o ≡ true
    → (u : User) × (o ≡ some u) × (u.is_active ≡ true) × (is_employee u.role ≡ true)
unfolding is_active_employee
active_user none h = cc
active_user (some u) h = (u, refl, ground arith, ground arith)

pub not_held :
    (t : Tables) (e : Employee) (o : Option ℕ)
    → holds_incident t o e ≡ false
    → (a : IncidentAssignment) → Memᴰ a t.assignments
    → a.employee_id ≡ e.id
    → o ≡ some a.incident_id
    → a.is_active ≡ false
unfolding holds_incident
not_held t e none h a m same held = cc
not_held t e (some i) h a m same held = elim (Bool-cases a.is_active) [
  | inl on ↦
      let both : ((a.employee_id == e.id) && ((a.incident_id == i) && a.is_active)) ≡ true =
        ground arith in
      cc (
        h,
        exists_of_mem
            (λ (b : IncidentAssignment).
              (b.employee_id == e.id) && ((b.incident_id == i) && b.is_active))
            m both,
      )
  | inr off ↦ off
]

pub skill_row :
    (t : Tables) (e : Employee) (k : ℕ)
    → has_skill t e.id k ≡ true
    → (row : EmployeeSkill) × Memᴰ row t.employee_skills
      × (row.employee_id ≡ e.id)
      × (row.skill_id ≡ k)
unfolding has_skill
skill_row t e k h =
    let (row, m, both) =
      exists_witness (λ (s : EmployeeSkill). (s.employee_id == e.id) && (s.skill_id == k))
        t.employee_skills h in
    (row, m, ground arith, ground arith)

pub passed→Qualifies :
    (t : Tables) (r : Request) (e : Employee) → verdict t r e ≡ passed → Qualifies t r e
unfolding verdict
passed→Qualifies t r e h =
    let skilled : has_skills t r.required_skills e ≡ true = ground arith in
    let grouped : in_group t r.assignment_group e ≡ true = ground arith in
    record {
      user = active_user (get_user t e.user_id) (ground arith);
      group = unfold in_group in ground arith;
      free = not_held t e r.incident_id (ground arith);
      skilled =
          λ k m. skill_row t e k (unfold has_skills in all_of_mem (has_skill t e.id) skilled m);
    }

not_held_of :
    (t : Tables) (e : Employee) (o : Option ℕ)
    → ((a : IncidentAssignment)
        → Memᴰ a t.assignments
        → a.employee_id ≡ e.id
        → o ≡ some a.incident_id
        → a.is_active ≡ false)
    → holds_incident t o e ≡ false
unfolding holds_incident
not_held_of t e none h = refl
not_held_of t e (some i) h = exists-false _ t.assignments λ a m. elim (Bool-cases a.is_active) [
  | inr off ↦ ground arith
  | inl on ↦ elim (Bool-cases (a.employee_id == e.id)) [
    | inr other ↦ ground arith
    | inl same ↦ elim (Bool-cases (a.incident_id == i)) [
      | inr other ↦ ground arith
      | inl this ↦
          let ids : a.employee_id ≡ e.id = ground arith in
          let inc : some i ≡ some a.incident_id = ground arith in cc (on, h a m ids inc)
    ]
  ]
]

Qualifies→passed :
    (t : Tables) (r : Request) (e : Employee) → Qualifies t r e → verdict t r e ≡ passed
unfolding verdict
Qualifies→passed t r e q =
    let (u, found, active, role) = q.user in
    let user : is_active_employee (get_user t e.user_id) ≡ true =
      unfold is_active_employee in rw found (ground arith) in
    let grouped : in_group t r.assignment_group e ≡ true =
      unfold in_group in ground (arith, q.group) in
    let free = not_held_of t e r.incident_id q.free in
    let skilled : has_skills t r.required_skills e ≡ true =
      unfold has_skills has_skill in
      all_intro _ r.required_skills λ k m.
        let (row, there, own, this) = q.skilled k m in
        exists_of_mem (λ (s : EmployeeSkill). (s.employee_id == e.id) && (s.skill_id == k)) there
          (ground arith) in
    ground arith

-- The loop keeps, in order, the employees whose verdict is `passed`.
pub gate-select :
    (t : Tables) (r : Request) (emps : List Employee)
    → (gate t r emps).0 ≡ select (λ e. is_passed (verdict t r e)) emps
unfolding gate select is_passed
gate-select t r [] = refl
gate-select t r (e ∷ emps) = ground (arith, gate-select t r emps)

is_passed_iff : (v : Verdict) → (is_passed v ≡ true) ↔ (v ≡ passed)
unfolding is_passed
is_passed_iff skipped = (λ h. cc, λ h. cc)
is_passed_iff passed = (λ h. refl, λ h. refl)
is_passed_iff (refused c) = (λ h. cc, λ h. cc)

-- The answer of the pipeline while a shift is on.
pub find_eligible_employees-on :
    (t : Tables) (r : Request) (now : Moment) (shift : Shift)
    → get_active_shift t now ≡ some shift
    → find_eligible_employees t r now
      ≡ sort
          (by_workload t)
          (select (λ e. is_passed (verdict t r e)) (get_shift_employees t shift.id now.date))
unfolding find_eligible_employees
find_eligible_employees-on t r now shift on =
    ap (λ o. (pipeline_on t r now o).eligible) on
    ∙ ap (sort (by_workload t)) (gate-select t r (get_shift_employees t shift.id now.date))

-- While a shift is on, those found eligible are exactly the employees listed for it who are active
-- employee users of the incident's group, hold no active assignment of the incident and have every
-- required skill.
pub find_eligible_employees_iff :
    (t : Tables) (r : Request) (now : Moment) (shift : Shift) (e : Employee)
    → get_active_shift t now ≡ some shift
    → Memᴰ e (find_eligible_employees t r now)
      ↔ (Memᴰ e (get_shift_employees t shift.id now.date) × Qualifies t r e)
find_eligible_employees_iff t r now shift e on =
    rw (find_eligible_employees-on t r now shift on) (sound, complete)
  where
    emps : List Employee
    emps = get_shift_employees t shift.id now.date

    test : Employee → Bool
    test x = is_passed (verdict t r x)

    sound : Memᴰ e (sort (by_workload t) (select test emps)) → Memᴰ e emps × Qualifies t r e
    sound m =
        let (there, pass) = mem-select test emps (mem-sort (by_workload t) _ m) in
        (there, passed→Qualifies t r e ((is_passed_iff _).0 pass))

    complete : Memᴰ e emps × Qualifies t r e → Memᴰ e (sort (by_workload t) (select test emps))
    complete (there, q) =
        mem-sort_of (by_workload t)
          (mem-select_of test there ((is_passed_iff _).1 (Qualifies→passed t r e q)))
