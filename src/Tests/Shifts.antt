-- ===== src/Tests/Shifts.antt =====
-- Runs of the shift queries, and their theorems at the sample tables.
use incident.Prelude.{true, false, some, [], ◌∷◌, Memᴰ, ◌≡◌, refl, is_empty}
use incident.Models.{Employee, Shift}
use incident.Shifts.{
  on_now, get_active_shift, get_current_scheduled_employees_for_team, get_next_shift_for_team,
}
use incident.Shifts.Staffing.{
  IsTeamDuty, IsTeamCover, get_current_scheduled_employees_for_team-IsTeamCover,
}
use incident.Shifts.Upcoming.{current_cover_dated, IsNextShift, get_next_shift_for_team-IsNextShift}
use incident.Tests.{runs, tables, day, night, morning, late, employee}

active_at_night : get_active_shift tables late ≡ some night
unfolding runs
active_at_night = refl

first_on_day : Memᴰ (employee 1) tables.employees
first_on_day = Memᴰ.head refl

on_duty : IsTeamDuty tables 7 day.id (some morning.date) (employee 1)
unfolding runs
on_duty = (refl, (first_on_day, refl))

day_on : on_now morning.time day ≡ true
unfolding runs
day_on = refl

next_is_today :
    get_next_shift_for_team tables 7 (record morning { time = 3600 })
    ≡ some (day, 20, employee 1 ∷ employee 2 ∷ employee 3 ∷ [])
unfolding runs
next_is_today = refl

get_current_cover_example :
    IsTeamCover tables 7 morning (get_current_scheduled_employees_for_team tables 7 morning)
get_current_cover_example = get_current_scheduled_employees_for_team-IsTeamCover tables 7 morning

current_cover_dated_example :
    let (found, emps) = get_current_scheduled_employees_for_team tables 7 morning in
    (is_empty emps ≡ false)
    × ((x : Employee)
        → Memᴰ x emps
        → (r : Shift) × (found ≡ some r) × IsTeamDuty tables 7 r.id (some 20) x)
current_cover_dated_example =
    current_cover_dated tables 7 morning day (employee 1) (Memᴰ.head refl) day_on on_duty

get-IsNextShift_example :
    IsNextShift tables 7
      (record morning { time = 3600 })
      (day, 20, employee 1 ∷ employee 2 ∷ employee 3 ∷ [])
get-IsNextShift_example =
    get_next_shift_for_team-IsNextShift tables 7 (record morning { time = 3600 })
      (day, 20, employee 1 ∷ employee 2 ∷ employee 3 ∷ []) next_is_today
