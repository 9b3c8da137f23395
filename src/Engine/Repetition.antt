-- ===== src/Engine/Repetition.antt =====
-- services/assignment_engine.py, `assign_group`: the cycles of an incident, and the calls that repeat one.
use incident.Prelude.{
  ℕ, zero, suc, ◌+◌, ◌/◌, ◌%◌, Bool, true, false, ◌&&◌, ◌||◌, Option, none, some, List, [], ◌∷◌,
  ◌++◌, ◌==◌, ltb, if◌then◌else◌, select, find?, length, Text, text_eq, truthy, codes,
}
use incident.Models.{Incident, IncidentAssignment, AssignmentCycle, CycleStatus}
use incident.Session.{Tables}

-- `str` of a number, with as many rounds as it has digits at most.
unfoldable pub digits : ℕ → ℕ → Text
digits zero n = []
digits (suc fuel) n =
    let rest = digits fuel (n / 10) in
    if ltb n 10 then (48 + n) ∷ [] else rest ++ (48 + n % 10) ∷ []

-- `f"CYCLE-{n:03d}"`.
unfoldable pub cycle_str : ℕ → Text
cycle_str n =
    codes "CYCLE-"
    ++ (if ltb n 10 then codes "00" else if ltb n 100 then codes "0" else [])
    ++ digits (suc n) n

unfoldable pub cycle_id_of : Incident → ℕ → Text
cycle_id_of inc cycle = inc.incident_number ++ (codes ":" ++ cycle_str cycle)

-- `current_cycle or 1`.
unfoldable pub or_one : ℕ → ℕ
or_one n = if n == 0 then 1 else n

pub record GroupOutcome : Type 0 where
  pub idempotent : Bool
  pub cycle_id : Text
  pub assignments : List IncidentAssignment

unfoldable pub is_same_text : Text → Option Text → Bool
is_same_text s none = false
is_same_text s (some t) = text_eq t s

unfoldable pub is_cycle : ℕ → Text → Option Text → AssignmentCycle → Bool
is_cycle incident_id id none x = (x.incident_id == incident_id) && text_eq x.id id
is_cycle incident_id id (some key) x =
    (x.incident_id == incident_id)
    && (text_eq x.id id || (truthy key && is_same_text key x.idempotency_key))

unfoldable pub is_completed : CycleStatus → Bool
is_completed CycleStatus.completed = true
is_completed CycleStatus.in_progress = false

unfoldable pub if_ten : Text → List IncidentAssignment → Option GroupOutcome
if_ten id rows =
    if length rows == 10
    then some (record { idempotent = true; cycle_id = id; assignments = rows })
    else none

unfoldable pub of_cycle : Tables → Option AssignmentCycle → Option GroupOutcome
of_cycle t none = none
of_cycle t (some x) =
    if is_completed x.status
    then if_ten x.id
        (select (λ a. is_same_text x.id a.assignment_cycle_id && a.is_active) t.assignments)
    else none

-- The completed cycle that the call repeats.
unfoldable pub repeated_cycle : ℕ → Text → Option Text → Tables → Option GroupOutcome
repeated_cycle incident_id id key t = of_cycle t (find? (is_cycle incident_id id key) t.cycles)

abbrev pub is_of_cycle : ℕ → ℕ → IncidentAssignment → Bool
is_of_cycle incident_id cycle a = (a.incident_id == incident_id) && (a.cycle_number == cycle)

-- Ten active assignments of the same cycle.
unfoldable pub repeated_rows : ℕ → Text → ℕ → Tables → Option GroupOutcome
repeated_rows incident_id id cycle t =
    if_ten id (select (λ a. is_of_cycle incident_id cycle a && a.is_active) t.assignments)
