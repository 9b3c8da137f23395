-- ===== src/Handoff/Causes.antt =====
-- services/handoff_service.py: when a hand-off is needed, and who may take over.
use incident.Prelude.{
  Bool, true, false, ◌||◌, not, Option, none, some, List, [], ◌∷◌, ◌==◌, leb, if◌then◌else◌, select,
  min_from, Text, codes, contains, or_empty,
}
use incident.Models.{
  User, Employee, Shift, ShiftAssignment, is_offline, Incident, IncidentState, IncidentAssignment,
}
use incident.Session.{Tables, Result, ok, err}
use incident.Shifts.{Moment, get_active_shift, get_employee_shift}
use incident.Workload.{workload}
use incident.Eligibility.{find_eligible_employees}
use incident.Strategy.{get_required_skills}

pub data Cause : Type 0 where
  offline off_shift : Cause

unfoldable pub is_closed : IncidentState → Bool
is_closed IncidentState.completed = true
is_closed IncidentState.resolved = true
is_closed IncidentState.closed = true
is_closed _ = false

unfoldable pub is_locked : IncidentAssignment → Bool
is_locked a = contains (codes "LOCK_PRESERVED") a.reason

unfoldable pub off_shift_cause :
    Option Shift → Result (Option ShiftAssignment) → Result (Option Cause)
off_shift_cause active (err e) = err e
off_shift_cause none (ok mine) = ok (some off_shift)
off_shift_cause (some shift) (ok none) = ok (some off_shift)
off_shift_cause (some shift) (ok (some mine)) =
    ok (if mine.shift_id == shift.id then none else some off_shift)

-- Conditions A and B.
unfoldable pub cause_of : Tables → Moment → Employee → Result (Option Cause)
cause_of t now e =
    if is_offline e.availability_status || not e.is_present
    then ok (some offline)
    else off_shift_cause (get_active_shift t now) (get_employee_shift t e.id now.date)

unfoldable pub cause_text : Cause → Text
cause_text offline = codes "Current engineer is OFFLINE or checked out"
cause_text off_shift = codes "Shift rollover: Current engineer is off-shift"

unfoldable pub name_or : Text → Option User → Text
name_or name none = name
name_or name (some u) = u.full_name

-- The candidates: those eligible, less the holder.
unfoldable pub successors : Tables → Moment → Incident → Employee → List Employee
successors t now inc e =
    select (λ x. not (x.id == e.id))
      (find_eligible_employees t
        (record {
          assignment_group = or_empty inc.assignment_group;
          required_skills = get_required_skills t inc.id;
          incident_id = none;
        })
        now)

abbrev pub lighter : Tables → Employee → Employee → Bool
lighter t a b = leb (workload t a.id) (workload t b.id)

-- Python's `min`: the first of the least loaded.
unfoldable pub successor : Tables → List Employee → Option Employee
successor t [] = none
successor t (x ∷ xs) = some (min_from (lighter t) x xs)
