-- ===== src/Shifts/Staffing.antt =====
-- Who is scheduled: the queries of `ShiftService` for a shift, and for a team now and next.
use incident.Prelude.{
  ℕ, true, false, Option, none, some, List, [], ◌∷◌, Memᴰ, ◌≡◌, ◌⊎◌, refl, sym, ap, ◌∙◌, arith, All,
  All-intro, mem-select, mem-select_of, select, exists, Bool-cases, inl, inr, is, is_empty, is_iff,
}
use incident.Models.{Employee, Shift}
use incident.Session.{Tables}
use incident.Shifts.{
  Moment, on_now, assigns, scheduled, get_shift_employees, scheduled_in_team, first_staffed,
  or_first, or_else, get_current_scheduled_employees_for_team,
}

-- The employee holds an active assignment to the shift, of the day if one is given.
abbrev pub IsScheduled : Tables → ℕ → Option ℕ → Employee → Type 0
IsScheduled t shift_id day e =
    Memᴰ e t.employees × (exists (assigns shift_id day e) t.shift_assignments ≡ true)

mem-scheduled :
    (t : Tables) (shift_id : ℕ) (day : Option ℕ) (e : Employee)
    → Memᴰ e (scheduled t shift_id day)
    → IsScheduled t shift_id day e
unfolding scheduled
mem-scheduled t shift_id day e m =
    mem-select (λ (x : Employee). exists (assigns shift_id day x) t.shift_assignments) t.employees m

mem-scheduled_of :
    (t : Tables) (shift_id : ℕ) (day : Option ℕ) (e : Employee)
    → IsScheduled t shift_id day e
    → Memᴰ e (scheduled t shift_id day)
unfolding scheduled
mem-scheduled_of t shift_id day e h =
    mem-select_of (λ (x : Employee). exists (assigns shift_id day x) t.shift_assignments) h.0 h.1

pub mem-ne-nil {ℓ} : {A : Type ℓ} {a : A} (xs : List A) → Memᴰ a xs → is_empty xs ≡ false
mem-ne-nil [] m = elim m [ ]
mem-ne-nil (x ∷ xs) m = refl

-- Whom a shift has on a day: those with an assignment of that day, if there is any such employee,
-- and otherwise those with an assignment of whatever day.
pub get_shift_employees-dated :
    (t : Tables) (shift_id date : ℕ) (someone e : Employee)
    → IsScheduled t shift_id (some date) someone
    → Memᴰ e (get_shift_employees t shift_id date)
    → IsScheduled t shift_id (some date) e
unfolding get_shift_employees
get_shift_employees-dated t shift_id date someone e h m = mem-scheduled t shift_id (some date) e (
    rw
      (mem-ne-nil (scheduled t shift_id (some date))
        (mem-scheduled_of t shift_id (some date) someone h))
      at m)

-- Every employee listed for a shift holds an active assignment to it, and every employee with an
-- active assignment of that day is listed.
pub get_shift_employees_lem :
    (t : Tables) (shift_id date : ℕ) (e : Employee)
    → (Memᴰ e (get_shift_employees t shift_id date)
        → IsScheduled t shift_id (some date) e ⊎ IsScheduled t shift_id none e)
      × (IsScheduled t shift_id (some date) e → Memᴰ e (get_shift_employees t shift_id date))
unfolding get_shift_employees
get_shift_employees_lem t shift_id date e = (listed, present)
  where
    listed :
        Memᴰ e (get_shift_employees t shift_id date)
        → IsScheduled t shift_id (some date) e ⊎ IsScheduled t shift_id none e
    listed m = elim (Bool-cases (is_empty (scheduled t shift_id (some date)))) [
      | inl empty ↦ inr (mem-scheduled t shift_id none e (rw empty at m))
      | inr staffed ↦ inl (mem-scheduled t shift_id (some date) e (rw staffed at m))
    ]

    present : IsScheduled t shift_id (some date) e → Memᴰ e (get_shift_employees t shift_id date)
    present h =
        let m = mem-scheduled_of t shift_id (some date) e h in
        rw (mem-ne-nil (scheduled t shift_id (some date)) m) m

-- The first staffed shift is one of the list, with its staff.
pub first_staffed-some :
    (staff : Shift → List Employee) (shifts : List Shift) (s : Shift) (emps : List Employee)
    → first_staffed staff shifts ≡ some (s, emps)
    → Memᴰ s shifts × (staff s ≡ emps) × (is_empty emps ≡ false)
unfolding first_staffed
first_staffed-some staff [] s emps h = cc
first_staffed-some staff (x ∷ shifts) s emps h = elim (Bool-cases (is_empty (staff x))) [
  | inl empty ↦
      let (m, e, n) = first_staffed-some staff shifts s emps (rw empty at h) in (Memᴰ.tail m, e, n)
  | inr full ↦ here full (rw full at h)
]
  where
    here :
        is_empty (staff x) ≡ false
        → ◌≡◌ {A = Option (Shift × List Employee)} (some (x, staff x)) (some (s, emps))
        → Memᴰ s (x ∷ shifts) × (staff s ≡ emps) × (is_empty emps ≡ false)
    here full e =
        let same : s ≡ x = cc in
        let theirs : staff x ≡ emps = cc in (Memᴰ.head same, rw same theirs, rw (sym theirs) full)

pub first_staffed-none :
    (staff : Shift → List Employee) {s : Shift} {shifts : List Shift}
    → first_staffed staff shifts ≡ none
    → Memᴰ s shifts
    → is_empty (staff s) ≡ true
unfolding first_staffed
first_staffed-none staff h (Memᴰ.head {x = x} {xs = xs} e) = ground (arith, ap staff e)
first_staffed-none staff h (Memᴰ.tail {x = x} {xs = xs} m) =
    first_staffed-none staff (ground arith) m

-- The employee belongs to the team and is scheduled on the shift.
abbrev pub IsTeamDuty : Tables → ℕ → ℕ → Option ℕ → Employee → Type 0
IsTeamDuty t team_id shift_id day e = (e.team_id ≡ some team_id) × IsScheduled t shift_id day e

pub mem-scheduled_in_team :
    (t : Tables) (team_id shift_id : ℕ) (day : Option ℕ) (e : Employee)
    → Memᴰ e (scheduled_in_team t team_id shift_id day)
    → IsTeamDuty t team_id shift_id day e
unfolding scheduled_in_team
mem-scheduled_in_team t team_id shift_id day e m =
    let (there, team) =
      mem-select (λ (x : Employee). is x.team_id team_id) (scheduled t shift_id day) m in
    ((is_iff e.team_id team_id).0 team, mem-scheduled t shift_id day e there)

pub mem-scheduled_in_team_of :
    (t : Tables) (team_id shift_id : ℕ) (day : Option ℕ) (e : Employee)
    → IsTeamDuty t team_id shift_id day e
    → Memᴰ e (scheduled_in_team t team_id shift_id day)
unfolding scheduled_in_team
mem-scheduled_in_team_of t team_id shift_id day e h =
    mem-select_of (λ (x : Employee). is x.team_id team_id) (mem-scheduled_of t shift_id day e h.1)
      ((is_iff e.team_id team_id).1 h.0)

-- What `get_current_scheduled_employees_for_team` may answer.
abbrev pub IsTeamCover : Tables → ℕ → Moment → Option Shift × List Employee → Type 0
IsTeamCover t team_id now (none, emps) = (emps ≡ []) × All (λ s. on_now now.time s ≡ false) t.shifts
IsTeamCover t team_id now (some s, emps) =
    Memᴰ s t.shifts
    × (on_now now.time s ≡ true)
    × All (λ e. IsTeamDuty t team_id s.id (some now.date) e ⊎ IsTeamDuty t team_id s.id none e) emps

module _ (t : Tables) (team_id : ℕ) (now : Moment) where
  abbrev matching : List Shift
  matching = select (on_now now.time) t.shifts

  abbrev staff : Option ℕ → Shift → List Employee
  staff day s = scheduled_in_team t team_id s.id day

  or_first-IsTeamCover :
      (o : Option (Shift × List Employee))
      → ((s : Shift) (emps : List Employee)
          → o ≡ some (s, emps)
          → IsTeamCover t team_id now (some s, emps))
      → IsTeamCover t team_id now (or_first matching o)
  unfolding or_first
  or_first-IsTeamCover (some (s, emps)) h = h s emps refl
  or_first-IsTeamCover none h = none_staffed matching refl
    where
      none_staffed :
          (shifts : List Shift)
          → matching ≡ shifts
          → IsTeamCover t team_id now (or_first shifts none)
      none_staffed [] e = (
        refl,
        All-intro (λ s. on_now now.time s ≡ false) t.shifts
            (λ s m. elim (Bool-cases (on_now now.time s)) [
              | inl on ↦
                  cc (mem-ne-nil matching (mem-select_of (on_now now.time) m on), ap is_empty e)
              | inr off ↦ off
            ]),
      )
      none_staffed (s ∷ rest) e =
          let (m, on) =
            mem-select (on_now now.time) t.shifts (rw e (Memᴰ.head {x = s} {xs = rest} refl)) in
          (m, on, tt)

  staffed-cover :
      (day : Option ℕ) (s : Shift) (emps : List Employee)
      → (day ≡ some now.date) ⊎ (day ≡ none)
      → first_staffed (staff day) matching ≡ some (s, emps)
      → IsTeamCover t team_id now (some s, emps)
  staffed-cover day s emps h e =
      let (m, theirs, _) = first_staffed-some (staff day) matching s emps e in
      let (there, on) = mem-select (on_now now.time) t.shifts m in
      (
        there,
        on,
        All-intro _ emps
            (λ x k. duty x (mem-scheduled_in_team t team_id s.id day x (rw theirs k)) h),
      )
    where
      duty :
          (x : Employee)
          → IsTeamDuty t team_id s.id day x
          → (day ≡ some now.date) ⊎ (day ≡ none)
          → IsTeamDuty t team_id s.id (some now.date) x ⊎ IsTeamDuty t team_id s.id none x
      duty x d (inl e) = inl (rw e at d)
      duty x d (inr e) = inr (rw e at d)

  -- The shift answered for a team is one that is on now, and everyone answered belongs to the team
  -- and holds an active assignment to that shift; no shift is answered only if none is on.
  pub get_current_scheduled_employees_for_team-IsTeamCover :
      IsTeamCover t team_id now (get_current_scheduled_employees_for_team t team_id now)
  unfolding get_current_scheduled_employees_for_team
  get_current_scheduled_employees_for_team-IsTeamCover =
      or_first-IsTeamCover _ (choose (first_staffed (staff (some now.date)) matching) refl)
    where
      choose :
          (o : Option (Shift × List Employee))
          → first_staffed (staff (some now.date)) matching ≡ o
          → (s : Shift) (emps : List Employee)
          → or_else o (first_staffed (staff none) matching) ≡ some (s, emps)
          → IsTeamCover t team_id now (some s, emps)
      choose (some r) e s emps h = staffed-cover (some now.date) s emps (inl refl) (e ∙ h)
      choose none e s emps h = staffed-cover none s emps (inr refl) h
