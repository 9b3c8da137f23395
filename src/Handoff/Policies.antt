-- ===== src/Handoff/Policies.antt =====
-- Which assignments a run leaves where they are, and which it hands on.
use incident.Prelude.{true, false, Option, none, some, List, [], ◌∷◌, ◌++◌, ◌≡◌, ◌≢◌, Text, codes}
use incident.Models.{
  Availability, Employee, Incident, IncidentState, IncidentAssignment, Shift, ShiftAssignment,
}
use incident.Session.{Tables, Error, Result, ok, err, get_employee, get_incident}
use incident.Shifts.{Moment, get_active_shift, get_employee_shift}
use incident.Handoff.Causes.{Cause, offline, off_shift}
use incident.Actions.{World}
use incident.Handoff.{Config, Handover, execute_handoff, record_of}

-- Policy 1: completed, resolved and closed incidents are not handed on.
pub data IsFinished : IncidentState → Type 0 where
  completed : IsFinished IncidentState.completed
  resolved : IsFinished IncidentState.resolved
  closed : IsFinished IncidentState.closed

-- Policy 2: the reason has the words that lock the assignment to its holder.
abbrev pub IsLocked : IncidentAssignment → Type 0
IsLocked a =
    (before : Text) × (after : Text) × (a.reason ≡ before ++ (codes "LOCK_PRESERVED" ++ after))

-- Checked in, and not offline.
pub record AtWork (e : Employee) : Type 0 where
  pub present : e.is_present ≡ true
  pub online : e.availability_status ≢ Availability.offline

-- Policy 3, by the holder's status, the active shift, and the holder's shift on the day: on duty, off
-- duty for a cause, or unclear because the holder has two shifts on the day.
pub data Duty (t : Tables) (now : Moment) (e : Employee) : Result (Option Cause) → Type 0 where
  gone : e.availability_status ≡ Availability.offline → Duty t now e (ok (some offline))
  checked_out : e.is_present ≡ false → Duty t now e (ok (some offline))
  no_shift :
      (mine : Option ShiftAssignment)
      → AtWork e
      → get_active_shift t now ≡ none
      → get_employee_shift t e.id now.date ≡ ok mine
      → Duty t now e (ok (some off_shift))
  not_listed :
      (shift : Shift)
      → AtWork e
      → get_active_shift t now ≡ some shift
      → get_employee_shift t e.id now.date ≡ ok none
      → Duty t now e (ok (some off_shift))
  other_shift :
      (shift : Shift) (mine : ShiftAssignment)
      → AtWork e
      → get_active_shift t now ≡ some shift
      → get_employee_shift t e.id now.date ≡ ok (some mine)
      → mine.shift_id ≢ shift.id
      → Duty t now e (ok (some off_shift))
  this_shift :
      (shift : Shift) (mine : ShiftAssignment)
      → AtWork e
      → get_active_shift t now ≡ some shift
      → get_employee_shift t e.id now.date ≡ ok (some mine)
      → mine.shift_id ≡ shift.id
      → Duty t now e (ok none)
  two_shifts :
      (x : Error) → AtWork e → get_employee_shift t e.id now.date ≡ err x → Duty t now e (err x)

-- The incident is missing or finished, the holder is missing, the assignment is locked to its holder,
-- or the holder is at work on the active shift.
pub data Stays (t : Tables) (now : Moment) (a : IncidentAssignment) : Type 0 where
  no_incident : get_incident t a.incident_id ≡ none → Stays t now a
  finished :
      (inc : Incident)
      → get_incident t a.incident_id ≡ some inc
      → IsFinished inc.state
      → Stays t now a
  no_holder : get_employee t a.employee_id ≡ none → Stays t now a
  locked : IsLocked a → Stays t now a
  on_duty :
      (e : Employee)
      → get_employee t a.employee_id ≡ some e
      → Duty t now e (ok none)
      → Stays t now a

-- An unfinished incident whose assignment is not locked, with its holder.
pub record Open (t : Tables) (a : IncidentAssignment) (inc : Incident) (e : Employee) : Type 0 where
  pub incident : get_incident t a.incident_id ≡ some inc
  pub unfinished : ¬ IsFinished inc.state
  pub holder : get_employee t a.employee_id ≡ some e
  pub unlocked : ¬ IsLocked a

-- What the policies ask of one round of the loop: the result, with the world that it leaves.
pub data Follows (c : Config) (now : Moment) (a : IncidentAssignment) (w : World)
    : Result (Option Handover) × World → Type 0 where
  stays : Stays w.session.rows now a → Follows c now a w (ok none, w)
  moves :
      (inc : Incident) (e : Employee) (cause : Cause)
      → Open w.session.rows a inc e
      → Duty w.session.rows now e (ok (some cause))
      → Follows c now a w (execute_handoff c now cause a inc e w)
  raises :
      (inc : Incident) (e : Employee) (x : Error)
      → Open w.session.rows a inc e
      → Duty w.session.rows now e (err x)
      → Follows c now a w (err x, w)

-- A run: each round follows the policies in the world that the rounds before it left, its record is
-- added to theirs, and an exception ends the run.
pub data Run (c : Config) (now : Moment)
    : List IncidentAssignment
      → List Handover
      → World
      → Result (List Handover) × World
      → Type 0 where
  done : {hs : List Handover} {w : World} → Run c now [] hs w (ok hs, w)
  next :
      {a : IncidentAssignment} {rows : List IncidentAssignment} {hs : List Handover} {w w' : World}
      {h : Option Handover} {r : Result (List Handover) × World}
      → Follows c now a w (ok h, w')
      → Run c now rows (hs ++ record_of h) w' r
      → Run c now (a ∷ rows) hs w r
  stopped :
      {a : IncidentAssignment} {rows : List IncidentAssignment} {hs : List Handover} {w w' : World}
      {x : Error}
      → Follows c now a w (err x, w')
      → Run c now (a ∷ rows) hs w (err x, w')
