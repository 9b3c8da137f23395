-- ===== src/Strategy.antt =====
-- services/assignment_engine.py, the strategies: `_apply_strategy` and what it calls. `str_id` is
-- Python's `str` of a UUID, the key of an employee who has no code.
pub mod Choices
pub mod Optimal
use incident.Prelude.{
  ℕ, suc, ◌+◌, ◌%◌, Bool, true, false, ◌&&◌, ◌||◌, Option, none, some, List, [], ◌∷◌, map, ◌==◌,
  ltb, leb, if◌then◌else◌, select, count, is_empty, sort, min_from, length, get_elem?, Text,
  text_le, truthy,
}
use incident.Models.{Employee, Incident, IncidentAssignment, AssignmentType}
use incident.Session.{Tables, Error, Result, ok, err, value_error, index_error, zero_division}
use incident.Workload.{workload}
use incident.Eligibility.{has_skill, has_skills}

-- Every other word selects by skill and workload.
pub data Strategy : Type 0 where
  round_robin least_workload skill_based other : Strategy

unfoldable pub get_required_skills : Tables → ℕ → List ℕ
get_required_skills t incident_id =
    map (λ r. r.skill_id) (select (λ r. r.incident_id == incident_id) t.required_skills)

is_automatic : AssignmentType → Bool
is_automatic AssignmentType.automatic = true
is_automatic AssignmentType.live = true
is_automatic _ = false

later : IncidentAssignment → IncidentAssignment → Bool
later a b = leb b.assigned_at a.assigned_at

-- ORDER BY assigned_at DESC LIMIT 1.
newest : List IncidentAssignment → Option ℕ
newest [] = none
newest (a ∷ rows) = some (min_from later a rows).employee_id

unfoldable pub get_last_assigned_employee : Tables → Option ℕ
unfolding is_automatic later newest
get_last_assigned_employee t =
    newest (select (λ a. is_automatic a.assignment_type && a.is_active) t.assignments)

-- `min` of an empty sequence is a ValueError.
unfoldable pub min_of : (Employee → Employee → Bool) → List Employee → Result Employee
min_of le [] = err value_error
min_of le (e ∷ emps) = ok (min_from le e emps)

unfoldable pub or_index_error : Option Employee → Result Employee
or_index_error none = err index_error
or_index_error (some e) = ok e

unfoldable pub at_index : List Employee → ℕ → Result Employee
at_index emps i = or_index_error (get_elem? emps i)

-- `next((i for i, e in enumerate(emps) if e.id == last), -1) + 1`.
unfoldable pub next_place : ℕ → List Employee → ℕ → ℕ
next_place last [] i = 0
next_place last (e ∷ emps) i =
    let rest = next_place last emps (i + 1) in if e.id == last then i + 1 else rest

unfoldable pub rotate : List Employee → Option ℕ → Result Employee
rotate sorted none = at_index sorted 0
rotate sorted (some last) =
    if is_empty sorted
    then err zero_division
    else at_index sorted (next_place last sorted 0 % length sorted)

-- The skills of an employee that are among the required ones.
unfoldable pub match_count : Tables → List ℕ → Employee → ℕ
match_count t required e = count (has_skill t e.id) required

module _ (str_id : ℕ → Text) where
  -- `getattr(e, "employee_code", "") or str(e.id)`.
  unfoldable pub name_key : Employee → Text
  name_key e = elim e.employee_code [
    | none ↦ str_id e.id
    | some code ↦ if truthy code then code else str_id e.id
  ]

  unfoldable pub by_name : Employee → Employee → Bool
  by_name a b = text_le (name_key a) (name_key b)

  unfoldable pub by_load : Tables → Employee → Employee → Bool
  by_load t a b =
      ltb (workload t a.id) (workload t b.id)
      || ((workload t a.id == workload t b.id) && text_le (name_key a) (name_key b))

  unfoldable pub by_match : Tables → List ℕ → Employee → Employee → Bool
  by_match t required a b =
      ltb (match_count t required b) (match_count t required a)
      || ((match_count t required a == match_count t required b)
          && text_le (name_key a) (name_key b))

  unfoldable pub pick_least_workload : Tables → List Employee → Result Employee
  pick_least_workload t eligible = min_of (by_load t) eligible

  unfoldable pub pick_round_robin : Tables → List Employee → Result Employee
  pick_round_robin t eligible = rotate (sort by_name eligible) (get_last_assigned_employee t)

  unfoldable pub pick_skill_based : Tables → List ℕ → List Employee → Result Employee
  pick_skill_based t required eligible =
      if is_empty required
      then at_index (sort by_name eligible) 0
      else at_index (sort (by_match t required) eligible) 0

  -- With no skills required all are skilled, as `has_skills` has it of the empty set.
  unfoldable pub pick_skill_plus_workload : Tables → List ℕ → List Employee → Result Employee
  pick_skill_plus_workload t required eligible =
      let skilled = select (has_skills t required) eligible in
      if is_empty required || is_empty skilled
      then min_of (by_load t) eligible
      else min_of (by_load t) skilled

  unfoldable pub apply_strategy : Strategy → Tables → List Employee → Incident → Result Employee
  apply_strategy round_robin t eligible inc = pick_round_robin t eligible
  apply_strategy least_workload t eligible inc = pick_least_workload t eligible
  apply_strategy skill_based t eligible inc =
      pick_skill_based t (get_required_skills t inc.id) eligible
  apply_strategy other t eligible inc =
      pick_skill_plus_workload t (get_required_skills t inc.id) eligible
