-- ===== src/Engine/Flow.antt =====
-- services/assignment_engine.py, `process_incident`: what a run does with an incident that somebody
-- has already, and where the pilot keeps it out.
use incident.Prelude.{
  ℕ, Bool, true, false, ◌&&◌, ◌||◌, not, some, [], ◌∷◌, ◌≡◌, refl, ap, ◌∙◌, if◌then◌else◌, select,
}
use incident.Models.{Incident, IncidentAssignment}
use incident.Session.{Tables, ok, flush, scalar_one_or_none}
use incident.Rotation.{is_active_on, locked_incident}
use incident.Rotation.Locks.{locked_incident-id}
use incident.Engine.Settings.{
  Engine, is_auto_assignment_enabled, is_mode_paused, get_automation_mode, or_none,
}
use incident.Engine.Assign.{active_assignment}
use incident.Engine.Process.{process_incident, process_locked, unless_active}
use incident.Actions.{World, query, pure, ◌>>=◌, catching}

pub query_ok :
    {A : Type 0} (f : Tables → A) (w : World)
    → flush w.session ≡ ok tt
    → query f w ≡ (ok (f w.session.rows), w)
unfolding query
query_ok f w h = rw h refl

-- A run that is forced, or that the settings let start.
unfoldable pub may_run : Engine → Bool → Bool
may_run c force = force || is_auto_assignment_enabled c

is_started : (force enabled : Bool) → (force || enabled) ≡ true → (not force && not enabled) ≡ false
is_started true enabled h = refl
is_started false true h = refl
is_started false false h = cc

is_running :
    (force paused rest : Bool)
    → (force || (if paused then false else rest)) ≡ true
    → (not force && paused) ≡ false
is_running true paused rest h = refl
is_running false true rest h = cc
is_running false false rest h = refl

is_not_paused :
    (c : Engine) (force : Bool)
    → may_run c force ≡ true
    → (not force && is_mode_paused (get_automation_mode c)) ≡ false
unfolding may_run is_auto_assignment_enabled
is_not_paused c force h = is_running force _ _ h

one_active :
    (i : ℕ) (t : Tables) (a : IncidentAssignment)
    → select (is_active_on i) t.assignments ≡ a ∷ []
    → or_none (active_assignment i t) ≡ some a
unfolding active_assignment or_none scalar_one_or_none
one_active i t a h = rw h refl

module _ (c : Engine) (force : Bool) (inc : Incident) (w : World) (a : IncidentAssignment)
    (clean : flush w.session ≡ ok tt)
    (one : select (is_active_on inc.id) w.session.rows.assignments ≡ a ∷ []) where
  process_locked-Repeats : process_locked c force inc w ≡ (ok (some a), w)
  unfolding process_locked ◌>>=◌ catching unless_active pure
  process_locked-Repeats =
      let t : Tables = w.session.rows in
      let same : or_none (active_assignment (locked_incident t inc).id t) ≡ some a =
        ap (λ i. or_none (active_assignment i t)) (locked_incident-id t inc)
        ∙ one_active inc.id t a one in
      rw
        (
          query_ok (λ t. locked_incident t inc) w clean,
          query_ok (λ t. or_none (active_assignment (locked_incident w.session.rows inc).id t)) w
              clean,
          same,
        )
        refl

  -- A run that may start on an incident with exactly one active assignment returns that assignment,
  -- and changes nothing: no row, no event, no request to ServiceNow.
  pub process_incident-Repeats :
      may_run c force ≡ true → process_incident c force inc w ≡ (ok (some a), w)
  unfolding process_incident may_run
  process_incident-Repeats may =
      rw (is_started force (is_auto_assignment_enabled c) may, is_not_paused c force may)
        process_locked-Repeats
