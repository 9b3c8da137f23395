-- ===== src/Engine/Pilot.antt =====
-- services/assignment_engine.py, the LIVE pilot: which incidents it leaves to people.
use incident.Prelude.{
  Bool, true, false, ◌||◌, not, Option, none, some, ◌≡◌, refl, ap, ◌∙◌, if◌then◌else◌, leb,
  or_empty, arith,
}
use incident.Models.{Incident, IncidentAssignment}
use incident.Session.{Tables, Result, ok, err, flush}
use incident.Rotation.{locked_incident}
use incident.Engine.Settings.{
  Engine, get_automation_mode, get_live_pilot_config, get_active_pilot_assignment_count,
  is_mode_live, is_mode_paused, is_auto_assignment_enabled,
}
use incident.Engine.Process.{
  process_incident, process_locked, unless_active, in_pilot, if_capacity, is_piloted,
}
use incident.Engine.Outcomes.{is_filtered, send_group_arrival_notice}
use incident.Engine.Simulation.{work}
use incident.Engine.Simulation.Flow.{arrival_notice-Keeps, log_none-Keeps}
use incident.Actions.{World, Act, query, continue, either, ◌>>=◌, catching}
use incident.Actions.Keeps.{pure-Keeps}

-- The three guards of the pilot, over the rows that a run finds.
unfoldable pub is_closed_to : Engine → Incident → Tables → Bool
is_closed_to c inc t =
    not (get_live_pilot_config c).enabled
    || (is_filtered (get_live_pilot_config c).assignment_group (or_empty inc.assignment_group)
        || leb (get_live_pilot_config c).max_active_assignments
            (get_active_pilot_assignment_count t))

answer-step :
    {A B : Type 0} (a : A) (g : A → Act B) (w : World) (r : Result (Unit {0}))
    → work (g a w).1 ≡ work w
    → work (continue (elim r [ ok _ ↦ ok a | err e ↦ err e ], w) g).1 ≡ work w
answer-step a g w (ok u) h = h
answer-step a g w (err e) h = refl

query-step :
    {A B : Type 0} (f : Tables → A) (g : A → Act B) (w : World)
    → work (g (f w.session.rows) w).1 ≡ work w
    → work ((query f >>= g) w).1 ≡ work w
unfolding query ◌>>=◌
query-step f g w h = answer-step (f w.session.rows) g w (flush w.session) h

continue-step :
    {A B : Type 0} (r : Result A × World) (g : A → Act B) (w : World)
    → work r.1 ≡ work w
    → ((a : A) → work (g a r.1).1 ≡ work r.1)
    → work (continue r g).1 ≡ work w
continue-step (ok a, w') g w e h = h a ∙ e
continue-step (err x, w') g w e h = e

caught-step :
    {A B : Type 0} (a b : A) (g : A → Act B) (w : World) (r : Result (Unit {0}))
    → ((x : A) → work (g x w).1 ≡ work w)
    → work (continue (either b (elim r [ ok _ ↦ ok a | err e ↦ err e ], w)) g).1 ≡ work w
caught-step a b g w (ok u) h = h a
caught-step a b g w (err e) h = h b

catching-step :
    {A B : Type 0} (f : Tables → A) (b : A) (g : A → Act B) (w : World)
    → ((x : A) → work (g x w).1 ≡ work w)
    → work ((catching (query f) b >>= g) w).1 ≡ work w
unfolding query ◌>>=◌ catching
catching-step f b g w h = caught-step (f w.session.rows) b g w (flush w.session) h

if-step :
    {A : Type 0} (b : Bool) (m n : Act A) (w : World)
    → (b ≡ true → work (m w).1 ≡ work w)
    → (b ≡ false → work (n w).1 ≡ work w)
    → work ((if b then m else n) w).1 ≡ work w
if-step true m n w h k = h refl
if-step false m n w h k = k refl

-- Only the assignments count.
still-closed :
    (c : Engine) (inc : Incident) (t t' : Tables)
    → t'.assignments ≡ t.assignments
    → is_closed_to c inc t' ≡ is_closed_to c inc t
unfolding is_closed_to get_active_pilot_assignment_count
still-closed c inc t t' e = rw e refl

in_pilot-Blocks :
    (c : Engine) (inc : Incident) (w : World)
    → is_closed_to c inc w.session.rows ≡ true
    → work (in_pilot c inc w).1 ≡ work w
unfolding in_pilot if_capacity is_closed_to
in_pilot-Blocks c inc w h =
    if-step (not (get_live_pilot_config c).enabled) _ _ w (λ e. log_none-Keeps _ _ _ w)
      (λ e.
        if-step
          (is_filtered (get_live_pilot_config c).assignment_group (or_empty inc.assignment_group)) _
          _ w (λ d. log_none-Keeps _ _ _ w)
          (λ d. query-step get_active_pilot_assignment_count (if_capacity c inc) w (
            if-step
              (leb (get_live_pilot_config c).max_active_assignments
                (get_active_pilot_assignment_count w.session.rows))
              _ _ w (λ l. log_none-Keeps _ _ _ w) (λ l. absurd (ground arith)))))

module _ (c : Engine) (live : is_mode_live (get_automation_mode c) ≡ true) where
  unless_active-Blocks :
      (inc : Incident) (active : Option IncidentAssignment) (w : World)
      → is_closed_to c inc w.session.rows ≡ true
      → work (unless_active c false inc active w).1 ≡ work w
  unfolding unless_active ◌>>=◌ is_piloted
  unless_active-Blocks inc (some a) w h = pure-Keeps work (some a) w
  unless_active-Blocks inc none w h =
      continue-step (send_group_arrival_notice c inc w) _ w (arrival_notice-Keeps c inc w) (λ u.
        rw live (
          in_pilot-Blocks c inc (send_group_arrival_notice c inc w).1 (
            rw
              (still-closed c inc w.session.rows (send_group_arrival_notice c inc w).1.session.rows
                (ap (λ x. x.0.0) (arrival_notice-Keeps c inc w)))
              h)))

  process_locked-Blocks :
      (inc : Incident) (w : World)
      → is_closed_to c (locked_incident w.session.rows inc) w.session.rows ≡ true
      → work (process_locked c false inc w).1 ≡ work w
  unfolding process_locked
  process_locked-Blocks inc w h =
      query-step (λ t. locked_incident t inc) _ w
        (catching-step _ none _ w
          (λ active. unless_active-Blocks (locked_incident w.session.rows inc) active w h))

  -- In LIVE mode, a run that is not forced leaves the assignments, rotations, cycles and ServiceNow as
  -- they were, however it ends, where the pilot is disabled, is for another group than the incident's
  -- as the database has it, or has as many open assignments as it may have.
  pub process_incident-Blocks :
      (inc : Incident) (w : World)
      → is_closed_to c (locked_incident w.session.rows inc) w.session.rows ≡ true
      → work (process_incident c false inc w).1 ≡ work w
  unfolding process_incident
  process_incident-Blocks inc w h =
      if-step (not (is_auto_assignment_enabled c)) _ _ w (λ e. log_none-Keeps _ _ _ w)
        (λ e.
          if-step (is_mode_paused (get_automation_mode c)) _ _ w (λ d. log_none-Keeps _ _ _ w)
            (λ d. process_locked-Blocks inc w h))
