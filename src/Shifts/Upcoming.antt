-- ===== src/Shifts/Upcoming.antt =====
-- Where the search for a team's cover and for its next shift looks, and what it passes over.
use incident.Prelude.{
  ℕ, ◌+◌, ◌≤◌, true, false, Option, none, some, List, [], ◌∷◌, Memᴰ, ◌≡◌, ◌⊎◌, refl, ◌∙◌, subst,
  arith, All, All-intro, mem-select, mem-select_of, select, inl, inr, is_empty, sort, mem-sort,
}
use mathlib.Core.Option.{some-injective}
use incident.Models.{Employee, Shift}
use incident.Session.{Tables}
use incident.Shifts.{
  Moment, on_now, scheduled_in_team, first_staffed, or_first, or_else,
  get_current_scheduled_employees_for_team, by_start, upcoming, next_on, first_day, standing,
  get_next_shift_for_team,
}
use incident.Shifts.Staffing.{
  IsTeamDuty, mem-ne-nil, first_staffed-some, first_staffed-none, mem-scheduled_in_team,
  mem-scheduled_in_team_of,
}

-- If some member of the team is scheduled today on a shift that is on now, the answer names members
-- who are scheduled today, and at least one of them.
pub current_cover_dated :
    (t : Tables) (team_id : ℕ) (now : Moment) (s : Shift) (e : Employee)
    → Memᴰ s t.shifts
    → on_now now.time s ≡ true
    → IsTeamDuty t team_id s.id (some now.date) e
    → let (found, emps) = get_current_scheduled_employees_for_team t team_id now in
      (is_empty emps ≡ false)
      × ((x : Employee)
          → Memᴰ x emps
          → (r : Shift) × (found ≡ some r) × IsTeamDuty t team_id r.id (some now.date) x)
unfolding get_current_scheduled_employees_for_team
current_cover_dated t team_id now s e there on duty = answer (first_staffed staff matching) refl
  where
    matching : List Shift
    matching = select (on_now now.time) t.shifts

    staff : Shift → List Employee
    staff r = scheduled_in_team t team_id r.id (some now.date)

    answer :
        (o : Option (Shift × List Employee))
        → first_staffed staff matching ≡ o
        → let (found, emps) =
            or_first matching
              (or_else o (first_staffed (λ r. scheduled_in_team t team_id r.id none) matching)) in
          (is_empty emps ≡ false)
          × ((x : Employee)
              → Memᴰ x emps
              → (r : Shift) × (found ≡ some r) × IsTeamDuty t team_id r.id (some now.date) x)
    answer (some (r, emps)) h =
        let (_, theirs, full) = first_staffed-some staff matching r emps h in
        (
          full,
          λ x m. (r, refl, mem-scheduled_in_team t team_id r.id (some now.date) x (rw theirs m)),
        )
    answer none h =
        let empty = first_staffed-none staff h (mem-select_of (on_now now.time) there on) in
        let full =
          mem-ne-nil (staff s) (mem-scheduled_in_team_of t team_id s.id (some now.date) e duty) in
        absurd (ground (arith, empty, full))

-- What `get_next_shift_for_team` may answer: an active shift with its staff from the team, dated on
-- one of the three days and not begun today, or a standing assignment under today's date.
abbrev pub IsNextShift : Tables → ℕ → Moment → Shift × ℕ × List Employee → Type 0
IsNextShift t team_id now (s, day, emps) =
    Memᴰ s t.shifts
    × (s.is_active ≡ true)
    × (is_empty emps ≡ false)
    × (now.date ≤ day)
    × (day ≤ now.date + 2)
    × (((upcoming now day s ≡ true) × All (IsTeamDuty t team_id s.id (some day)) emps)
        ⊎ ((day ≡ now.date) × All (IsTeamDuty t team_id s.id none) emps))

module _ (t : Tables) (team_id : ℕ) (now : Moment) where
  abbrev shifts : List Shift
  shifts = sort by_start (select (λ s. s.is_active) t.shifts)

  of_table : (s : Shift) → Memᴰ s shifts → Memᴰ s t.shifts × (s.is_active ≡ true)
  of_table s m = mem-select (λ (x : Shift). x.is_active) t.shifts (mem-sort by_start _ m)

  dated :
      (day : ℕ) (s : Shift) (emps : List Employee)
      → now.date ≤ day
      → day ≤ now.date + 2
      → next_on t team_id now shifts day ≡ some (s, emps)
      → IsNextShift t team_id now (s, day, emps)
  unfolding next_on
  dated day s emps lo hi h =
      let staff : Shift → List Employee = λ x. scheduled_in_team t team_id x.id (some day) in
      let (m, theirs, full) =
        first_staffed-some staff (select (upcoming now day) shifts) s emps h in
      let (m', later) = mem-select (upcoming now day) shifts m in
      let (there, active) = of_table s m' in
      (
        there,
        active,
        full,
        lo,
        hi,
        inl (
          later,
          All-intro (IsTeamDuty t team_id s.id (some day)) emps
              (λ x k. mem-scheduled_in_team t team_id s.id (some day) x (rw theirs k)),
        ),
      )

  undated :
      (s : Shift) (day : ℕ) (emps : List Employee)
      → standing now.date (first_staffed (λ x. scheduled_in_team t team_id x.id none) shifts)
        ≡ some (s, day, emps)
      → IsNextShift t team_id now (s, day, emps)
  unfolding standing
  undated s day emps h = from (first_staffed staff shifts) refl h
    where
      staff : Shift → List Employee
      staff x = scheduled_in_team t team_id x.id none

      from :
          (o : Option (Shift × List Employee))
          → first_staffed staff shifts ≡ o
          → standing now.date o ≡ some (s, day, emps)
          → IsNextShift t team_id now (s, day, emps)
      from none e h = cc
      from (some (r, found)) e h =
          let (m, theirs, full) = first_staffed-some staff shifts r found e in
          let (there, active) = of_table r m in
          let answer : IsNextShift t team_id now (r, now.date, found) = (
            there,
            active,
            full,
            omega arith,
            omega arith,
            inr (
              refl,
              All-intro (IsTeamDuty t team_id r.id none) found
                  (λ x k. mem-scheduled_in_team t team_id r.id none x (rw theirs k)),
            ),
          ) in
          subst (IsNextShift t team_id now) (some-injective _ _ h) answer

  first_day-IsNextShift :
      (days : List ℕ) (r : Shift × ℕ × List Employee)
      → All (λ d. (now.date ≤ d) × (d ≤ now.date + 2)) days
      → first_day (next_on t team_id now shifts) days ≡ some r
      → IsNextShift t team_id now r
  unfolding first_day
  first_day-IsNextShift [] r h e = cc
  first_day-IsNextShift (d ∷ days) r ((lo, hi), later) e =
      on (next_on t team_id now shifts d) refl (first_day-IsNextShift days r later) e
    where
      on :
          (o : Option (Shift × List Employee))
          → next_on t team_id now shifts d ≡ o
          → (first_day (next_on t team_id now shifts) days ≡ some r → IsNextShift t team_id now r)
          → (elim o [
            | none ↦ first_day (next_on t team_id now shifts) days
            | some (s, emps) ↦ some (s, d, emps)
          ])
            ≡ some r
          → IsNextShift t team_id now r
      on none k ih e = ih e
      on (some (s, emps)) k ih e =
          subst (IsNextShift t team_id now) (some-injective _ _ e) (dated d s emps lo hi k)

  -- Whatever next shift is answered for a team is active, has staff, all of them members of the
  -- team with an active assignment to it: either an assignment of the day answered, which is today,
  -- tomorrow or the day after, the shift not having begun today unless it runs over midnight; or a
  -- standing assignment, under today's date.
  pub get_next_shift_for_team-IsNextShift :
      (r : Shift × ℕ × List Employee)
      → get_next_shift_for_team t team_id now ≡ some r
      → IsNextShift t team_id now r
  unfolding get_next_shift_for_team
  get_next_shift_for_team-IsNextShift r h =
      pick (first_day (next_on t team_id now shifts) days) refl h
    where
      days : List ℕ
      days = now.date ∷ (now.date + 1) ∷ (now.date + 2) ∷ []

      fallback : Option (Shift × ℕ × List Employee)
      fallback =
          standing now.date (first_staffed (λ s. scheduled_in_team t team_id s.id none) shifts)

      pick :
          (o : Option (Shift × ℕ × List Employee))
          → first_day (next_on t team_id now shifts) days ≡ o
          → (elim o [ none ↦ fallback | some r ↦ some r ]) ≡ some r
          → IsNextShift t team_id now r
      pick none e k = let (s, day, emps) = r in undated s day emps k
      pick (some r') e k = first_day-IsNextShift days r (omega arith) (e ∙ k)
