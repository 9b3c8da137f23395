-- ===== src/Shifts.antt =====
-- services/shift_service.py: which shift is on, and who is scheduled on it.
pub mod Windows
pub mod Staffing
pub mod Upcoming
use incident.Prelude.{
  ℕ, ◌+◌, Bool, ◌&&◌, ◌||◌, not, Option, none, some, List, [], ◌∷◌, ◌==◌, is, leb, ltb,
  if◌then◌else◌, select, exists, find?, is_empty, sort,
}
use incident.Models.{Employee, Shift, ShiftAssignment}
use incident.Session.{Tables, Result, scalar_one_or_none}

-- A moment on the wall clock: a day and a time of day.
pub record Moment : Type 0 where
  pub date : ℕ
  pub time : ℕ

unfoldable pub is_within_shift : Shift → ℕ → Bool
is_within_shift shift time =
    if shift.is_overnight
    then leb shift.start_time time || ltb time shift.end_time
    else leb shift.start_time time && ltb time shift.end_time

abbrev pub on_now : ℕ → Shift → Bool
on_now time shift = shift.is_active && is_within_shift shift time

-- The loop returns the first active shift that holds the time.
unfoldable pub get_active_shift : Tables → Moment → Option Shift
get_active_shift t now =
    find? (λ s. is_within_shift s now.time) (select (λ s. s.is_active) t.shifts)

unfoldable pub get_employee_shift : Tables → ℕ → ℕ → Result (Option ShiftAssignment)
get_employee_shift t employee_id date = scalar_one_or_none (
    select (λ a. (a.employee_id == employee_id) && ((a.date == date) && a.is_active))
      t.shift_assignments)

-- An active assignment of the employee to the shift; `day` is the date asked for, if one is.
abbrev pub assigns : ℕ → Option ℕ → Employee → ShiftAssignment → Bool
assigns shift_id none e a = (a.employee_id == e.id) && ((a.shift_id == shift_id) && a.is_active)
assigns shift_id (some day) e a =
    (a.employee_id == e.id) && ((a.shift_id == shift_id) && ((a.date == day) && a.is_active))

-- SELECT employees JOIN shift_assignments WHERE ...: loading entities drops repeated rows.
unfoldable pub scheduled : Tables → ℕ → Option ℕ → List Employee
scheduled t shift_id day =
    select (λ e. exists (assigns shift_id day e) t.shift_assignments) t.employees

-- With date-specific records absent, the standing assignments of any date.
unfoldable pub get_shift_employees : Tables → ℕ → ℕ → List Employee
get_shift_employees t shift_id date =
    let emps = scheduled t shift_id (some date) in
    if is_empty emps then scheduled t shift_id none else emps

unfoldable pub scheduled_in_team : Tables → ℕ → ℕ → Option ℕ → List Employee
scheduled_in_team t team_id shift_id day =
    select (λ e. is e.team_id team_id) (scheduled t shift_id day)

-- `for sh in shifts: ... if emps: return sh, emps`.
unfoldable pub first_staffed : (Shift → List Employee) → List Shift → Option (Shift × List Employee)
first_staffed staff [] = none
first_staffed staff (s ∷ shifts) =
    let rest = first_staffed staff shifts in if is_empty (staff s) then rest else some (s, staff s)

or_first : List Shift → Option (Shift × List Employee) → Option Shift × List Employee
or_first matching (some (s, emps)) = (some s, emps)
or_first [] none = (none, [])
or_first (s ∷ _) none = (some s, [])

or_else :
    Option (Shift × List Employee) → Option (Shift × List Employee) → Option (Shift × List Employee)
or_else (some r) other = some r
or_else none other = other

-- `now` is already in the team's zone: the conversion is zoneinfo's.
unfoldable pub get_current_scheduled_employees_for_team :
    Tables → ℕ → Moment → Option Shift × List Employee
unfolding or_first or_else
get_current_scheduled_employees_for_team t team_id now =
    let matching = select (on_now now.time) t.shifts in
    or_first matching (
      or_else (first_staffed (λ s. scheduled_in_team t team_id s.id (some now.date)) matching)
        (first_staffed (λ s. scheduled_in_team t team_id s.id none) matching))

by_start : Shift → Shift → Bool
by_start a b = leb a.start_time b.start_time

-- Today's shifts that have started, and do not run over midnight, are passed over.
abbrev upcoming : Moment → ℕ → Shift → Bool
upcoming now day s = not ((day == now.date) && (leb s.start_time now.time && not s.is_overnight))

next_on : Tables → ℕ → Moment → List Shift → ℕ → Option (Shift × List Employee)
next_on t team_id now shifts day =
    first_staffed (λ s. scheduled_in_team t team_id s.id (some day))
      (select (upcoming now day) shifts)

first_day : (ℕ → Option (Shift × List Employee)) → List ℕ → Option (Shift × ℕ × List Employee)
first_day staffed [] = none
first_day staffed (day ∷ days) =
    let rest = first_day staffed days in
    elim (staffed day) [ none ↦ rest | some (s, emps) ↦ some (s, day, emps) ]

standing : ℕ → Option (Shift × List Employee) → Option (Shift × ℕ × List Employee)
standing today none = none
standing today (some (s, emps)) = some (s, today, emps)

-- The next staffed shift of today and the two days after, else a standing assignment.
unfoldable pub get_next_shift_for_team : Tables → ℕ → Moment → Option (Shift × ℕ × List Employee)
unfolding by_start next_on first_day standing
get_next_shift_for_team t team_id now =
    let shifts = sort by_start (select (λ s. s.is_active) t.shifts) in
    let fallback =
      standing now.date (first_staffed (λ s. scheduled_in_team t team_id s.id none) shifts) in
    elim (first_day (next_on t team_id now shifts)
      (now.date ∷ (now.date + 1) ∷ (now.date + 2) ∷ [])) [ none ↦ fallback | some r ↦ some r ]
