-- ===== src/Shifts/Windows.antt =====
-- When a shift is on: the tests of `is_within_shift` and `get_active_shift`.
use incident.Prelude.{
  ℕ, true, false, not, Option, none, some, Memᴰ, All, All-intro, ◌≡◌, arith, mem-find?, find?-none,
  mem-select, mem-select_of, select, Bool-cases, inl, inr, Option-cases,
}
use incident.Models.{Shift}
use incident.Session.{Tables}
use incident.Shifts.{Moment, is_within_shift, on_now, get_active_shift}

-- An overnight shift is on at exactly the times at which the day shift between its end and its
-- start is off.
pub overnight_complement :
    (night day : Shift) (time : ℕ)
    → night.is_overnight ≡ true
    → day.is_overnight ≡ false
    → day.start_time ≡ night.end_time
    → day.end_time ≡ night.start_time
    → is_within_shift night time ≡ not (is_within_shift day time)
unfolding is_within_shift
overnight_complement night day time n d s e = ground arith

-- What `get_active_shift` may answer at a time.
abbrev pub IsActiveShift : Tables → Moment → Option Shift → Type 0
IsActiveShift t now none = All (λ s. on_now now.time s ≡ false) t.shifts
IsActiveShift t now (some s) = Memᴰ s t.shifts × (on_now now.time s ≡ true)

-- The answer is an active shift of the table that holds the time, and there is no answer only when
-- no shift of the table is such.
pub get_active_shift-IsActiveShift :
    (t : Tables) (now : Moment) → IsActiveShift t now (get_active_shift t now)
unfolding get_active_shift
get_active_shift-IsActiveShift t now = elim (Option-cases (get_active_shift t now)) [
  | inl e ↦ rw e (All-intro (λ s. on_now now.time s ≡ false) t.shifts (none_on e))
  | inr (s, e) ↦ rw e (found s e)
]
  where
    none_on :
        get_active_shift t now ≡ none → (s : Shift) → Memᴰ s t.shifts → on_now now.time s ≡ false
    none_on e s m = elim (Bool-cases s.is_active) [
      | inl a ↦ ground (
        arith,
        find?-none (λ (s : Shift). is_within_shift s now.time) e
            (mem-select_of (λ (s : Shift). s.is_active) m a),
      )
      | inr a ↦ ground arith
    ]

    found :
        (s : Shift) → get_active_shift t now ≡ some s → Memᴰ s t.shifts × (on_now now.time s ≡ true)
    found s e =
        let (m, within) =
          mem-find? (λ (s : Shift). is_within_shift s now.time) (select (λ s. s.is_active) t.shifts)
            e in
        let (there, active) = mem-select (λ (s : Shift). s.is_active) t.shifts m in
        (there, ground arith)
