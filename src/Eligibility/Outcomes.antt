-- ===== src/Eligibility/Outcomes.antt =====
-- What the pipeline makes of each employee that is listed for the shift, and in which order it answers.
use incident.Prelude.{
  ℕ, ◌<◌, ◌≤◌, Bool, true, false, Option, none, some, List, [], ◌∷◌, ◌≡◌, ◌≢◌, ◌⊎◌, inl, inr, refl,
  ap, arith, Memᴰ, All, All-intro, All-mem, Perm, sort-perm, IsOrder, IsSorted, sort-IsSorted,
  Bool-cases, all, exists_of_mem, exists_witness, truthy, ◌==◌, ◌&&◌,
}
use incident.Models.{Employee, EmployeeSkill, Shift, IncidentAssignment}
use incident.Session.{Tables, get_user, get_team}
use incident.Workload.{workload}
use incident.Shifts.{Moment, get_active_shift, get_shift_employees}
use incident.Eligibility.{
  filed, Request, RejectCode, Rejection, skipped, passed, refused, is_active_employee,
  group_matches, in_group, holds_incident, has_skill, has_skills, verdict, gate, by_workload,
  pipeline_on, evaluate_candidate_pipeline, find_eligible_employees,
}
use incident.Eligibility.Gates.{
  IsUser, InGroup, IsFree, Qualifies, active_user, not_held, passed→Qualifies,
}

-- Why an active employee user is rejected: the first criterion that fails.
pub data Fails (t : Tables) (r : Request) (e : Employee) : RejectCode → Type 0 where
  other_team :
      truthy r.assignment_group ≡ true
      → group_matches r.assignment_group (get_team t e.team_id) ≡ false
      → Fails t r e RejectCode.team_mismatch
  holds :
      (a : IncidentAssignment)
      → InGroup t r e
      → Memᴰ a t.assignments
      → a.employee_id ≡ e.id
      → r.incident_id ≡ some a.incident_id
      → a.is_active ≡ true
      → Fails t r e RejectCode.already_assigned_this_incident
  lacks :
      (k : ℕ)
      → InGroup t r e
      → IsFree t r e
      → Memᴰ k r.required_skills
      → ((row : EmployeeSkill)
          → Memᴰ row t.employee_skills
          → row.employee_id ≡ e.id
          → row.skill_id ≢ k)
      → Fails t r e RejectCode.no_skilled_employee

-- The employees that are listed, those of them that pass, and the rejections, in the same order.
pub data Gated (t : Tables) (r : Request)
    : List Employee → List Employee → List Rejection → Type 0 where
  nobody : Gated t r [] [] []
  skip :
      {e : Employee} {emps passing : List Employee} {rejected : List Rejection}
      → ¬ IsUser t e
      → Gated t r emps passing rejected
      → Gated t r (e ∷ emps) passing rejected
  keep :
      {e : Employee} {emps passing : List Employee} {rejected : List Rejection}
      → Qualifies t r e
      → Gated t r emps passing rejected
      → Gated t r (e ∷ emps) (e ∷ passing) rejected
  reject :
      {e : Employee} {emps passing : List Employee} {rejected : List Rejection} {code : RejectCode}
      → IsUser t e
      → Fails t r e code
      → Gated t r emps passing rejected
      → Gated t r (e ∷ emps) passing (record { employee_id = e.id; code = code } ∷ rejected)

inactive_user :
    (t : Tables) (e : Employee) → is_active_employee (get_user t e.user_id) ≡ false → ¬ IsUser t e
unfolding is_active_employee
inactive_user t e h (u, found, active, role) =
    let both : is_active_employee (some u) ≡ true = ground arith in
    cc (h, ap is_active_employee found, both)

held_row :
    (t : Tables) (r : Request) (e : Employee) (o : Option ℕ)
    → holds_incident t o e ≡ true
    → (a : IncidentAssignment) × Memᴰ a t.assignments
      × (a.employee_id ≡ e.id)
      × (o ≡ some a.incident_id)
      × (a.is_active ≡ true)
unfolding holds_incident
held_row t r e none h = cc
held_row t r e (some i) h =
    let (a, m, both) =
      exists_witness
        (λ (a : IncidentAssignment).
          (a.employee_id == e.id) && ((a.incident_id == i) && a.is_active))
        t.assignments h in
    let same : i ≡ a.incident_id = ground arith in (a, m, ground arith, ap some same, ground arith)

all-false : (p : ℕ → Bool) (xs : List ℕ) → all p xs ≡ false → (x : ℕ) × Memᴰ x xs × (p x ≡ false)
unfolding all
all-false p [] h = cc
all-false p (x ∷ xs) h = elim (Bool-cases (p x)) [
  | inr f ↦ (x, Memᴰ.head refl, f)
  | inl t ↦ let (y, m, f) = all-false p xs (ground arith) in (y, Memᴰ.tail m, f)
]

no_row :
    (t : Tables) (e : Employee) (k : ℕ)
    → has_skill t e.id k ≡ false
    → (row : EmployeeSkill) → Memᴰ row t.employee_skills
    → row.employee_id ≡ e.id
    → row.skill_id ≢ k
unfolding has_skill
no_row t e k h row m own this =
    let both : ((row.employee_id == e.id) && (row.skill_id == k)) ≡ true = ground arith in
    let there =
      exists_of_mem (λ (s : EmployeeSkill). (s.employee_id == e.id) && (s.skill_id == k)) m both in
    cc

module _ (t : Tables) (r : Request) (e : Employee) where
  in_group-InGroup : in_group t r.assignment_group e ≡ true → InGroup t r e
  unfolding in_group
  in_group-InGroup h = ground arith

  -- What the loop finds out about the employee.
  data Judged : Type 0 where
    out : verdict t r e ≡ skipped → ¬ IsUser t e → Judged
    fit : verdict t r e ≡ passed → Qualifies t r e → Judged
    unfit :
        (code : RejectCode) → verdict t r e ≡ refused code → IsUser t e → Fails t r e code → Judged

  judge :
      (a g h s : Bool)
      → is_active_employee (get_user t e.user_id) ≡ a
      → in_group t r.assignment_group e ≡ g
      → holds_incident t r.incident_id e ≡ h
      → has_skills t r.required_skills e ≡ s
      → Judged
  unfolding verdict
  judge false g h s ea eg eh es = out (rw ea refl) (inactive_user t e ea)
  judge true false h s ea eg eh es =
      unfit RejectCode.team_mismatch (rw (ea, eg) refl) (active_user _ ea)
        (unfold in_group in other_team (ground arith) (ground arith))
  judge true true true s ea eg eh es =
      let (a, m, own, this, on) = held_row t r e r.incident_id eh in
      unfit RejectCode.already_assigned_this_incident (rw (ea, eg, eh) refl) (active_user _ ea)
        (holds a (in_group-InGroup eg) m own this on)
  judge true true false false ea eg eh es =
      let (k, m, none_has) =
        all-false (has_skill t e.id) r.required_skills (unfold has_skills in es) in
      unfit RejectCode.no_skilled_employee (rw (ea, eg, eh, es) refl) (active_user _ ea)
        (lacks k (in_group-InGroup eg) (not_held t e r.incident_id eh) m (no_row t e k none_has))
  judge true true false true ea eg eh es =
      let all_met : verdict t r e ≡ passed = rw (ea, eg, eh, es) refl in
      fit all_met (passed→Qualifies t r e all_met)

gate-Gated :
    (t : Tables) (r : Request) (emps : List Employee)
    → Gated t r emps (gate t r emps).0 (gate t r emps).1
unfolding gate filed
gate-Gated t r [] = nobody
gate-Gated t r (e ∷ emps) = elim (judge t r e _ _ _ _ refl refl refl refl) [
  | out v q ↦ rw v (skip q (gate-Gated t r emps))
  | fit v q ↦ rw v (keep q (gate-Gated t r emps))
  | unfit code v u q ↦ rw v (reject u q (gate-Gated t r emps))
]

-- While a shift is on, each employee listed for it is judged once, in the order of the list: it is
-- passed over if its user is no active employee, it passes if it meets the criteria, and else it is
-- rejected under its own id with the first criterion that it fails. The eligible employees are a
-- permutation of those that pass.
pub pipeline-Gated :
    (t : Tables) (r : Request) (now : Moment) (shift : Shift)
    → get_active_shift t now ≡ some shift
    → (passing : List Employee) × Gated t r
        (get_shift_employees t shift.id now.date)
        passing
        (evaluate_candidate_pipeline t r now).rejected
      × Perm (evaluate_candidate_pipeline t r now).eligible passing
unfolding evaluate_candidate_pipeline
pipeline-Gated t r now shift on = rw on (_, gate-Gated t r _, sort-perm (by_workload t) _)

-- At most as loaded, and among the equally loaded in the order of the ids.
abbrev pub IsBefore : Tables → Employee → Employee → Type 0
IsBefore t a b =
    (workload t a.id < workload t b.id) ⊎ ((workload t a.id ≡ workload t b.id) × (a.id ≤ b.id))

abbrev pub IsAscending : Tables → List Employee → Type 0
IsAscending t [] = Unit
IsAscending t (e ∷ emps) = All (IsBefore t e) emps × IsAscending t emps

by_workload-IsOrder : (t : Tables) → IsOrder (by_workload t)
unfolding by_workload
by_workload-IsOrder t = record { total = λ a b h. ground arith; trans = λ a b c h k. ground arith }

by_workload-IsBefore : (t : Tables) (a b : Employee) → by_workload t a b ≡ true → IsBefore t a b
unfolding by_workload
by_workload-IsBefore t a b h = ground arith

sorted-IsAscending :
    (t : Tables) (emps : List Employee) → IsSorted (by_workload t) emps → IsAscending t emps
sorted-IsAscending t [] h = tt
sorted-IsAscending t (e ∷ emps) (above, rest) = (
  All-intro (IsBefore t e) emps
      (λ x m. by_workload-IsBefore t e x (All-mem (λ y. by_workload t e y ≡ true) emps above m)),
  sorted-IsAscending t emps rest,
)

-- The eligible employees come in ascending order of their open assignments, the equally loaded in the
-- order of their ids.
pub find_eligible_employees-IsAscending :
    (t : Tables) (r : Request) (now : Moment) → IsAscending t (find_eligible_employees t r now)
unfolding find_eligible_employees evaluate_candidate_pipeline
find_eligible_employees-IsAscending t r now = by_shift (get_active_shift t now)
  where
    by_shift : (o : Option Shift) → IsAscending t (pipeline_on t r now o).eligible
    by_shift none = tt
    by_shift (some shift) = sorted-IsAscending t _ (sort-IsSorted (by_workload-IsOrder t) _)
