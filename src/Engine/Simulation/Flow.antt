-- ===== src/Engine/Simulation/Flow.antt =====
-- services/assignment_engine.py: the flow of an incident where the engine only simulates.
use incident.Prelude.{
  ℕ, Bool, true, false, ◌||◌, not, Option, none, some, List, [], ◌∷◌, ◌≡◌, refl, leb, truthy,
  or_empty, arith,
}
use incident.Models.{User, Employee, Team, Incident, Shift, AuditAction, IncidentAssignment}
use incident.Session.{Tables, put_incident}
use incident.Strategy.{Strategy}
use incident.Engine.Settings.{
  Engine, get_automation_mode, get_live_pilot_config, is_mode_paused, is_auto_assignment_enabled,
  is_dry_run, is_shadow_mode,
}
use incident.Engine.Process.{
  with_team, assign_selected, choose, without_team, by_team, decide, if_capacity, in_pilot,
  is_piloted, unless_active, process_locked, process_incident,
}
use incident.Engine.Outcomes.{
  tell_arrival, send_group_arrival_notice, log_none, hold_incident, coverage_to_team, unassigned,
  tell_unassigned, leave_unassigned, handle_coverage_exception, notify_admins, handle_no_eligible,
  is_filtered,
}
use incident.Actions.{World, change}
use incident.Actions.Keeps.{
  Keeps, pure-Keeps, bind-Keeps, seq-Keeps, catching-Keeps, query-Keeps, if-Keeps,
}
use incident.Engine.Simulation.{
  work, change-Keeps, emit-Keeps, logging-Keeps, committing-Keeps, create_notification-Keeps,
  raising-Keeps,
}
use incident.Engine.Simulation.Notices.{send_to_team-Keeps}

pub tell_arrival-Keeps :
    (c : Engine) (incident_id : ℕ) (team : Option Team)
    → Keeps work (tell_arrival c incident_id team)
unfolding tell_arrival
tell_arrival-Keeps c incident_id none = pure-Keeps work tt
tell_arrival-Keeps c incident_id (some team) = send_to_team-Keeps c.mail team.id (some incident_id)

pub arrival_notice-Keeps :
    (c : Engine) (inc : Incident) → Keeps work (send_group_arrival_notice c inc)
unfolding send_group_arrival_notice
arrival_notice-Keeps c inc =
    if-Keeps work (truthy (or_empty inc.assignment_group)) _ _
      (λ e.
        catching-Keeps work _ tt
          (bind-Keeps work _ _ (query-Keeps work _) (tell_arrival-Keeps c inc.id)))
      (λ e. pure-Keeps work tt)

pub log_none-Keeps :
    (action : AuditAction) (incident_id : ℕ) (employee : Option ℕ)
    → Keeps work (log_none action incident_id employee)
unfolding log_none
log_none-Keeps action incident_id employee =
    seq-Keeps work _ _ (logging-Keeps action incident_id employee) (pure-Keeps work none)

put-Keeps : (f : Tables → Incident) → Keeps work (change (λ t. put_incident t (f t)))
unfolding put_incident
put-Keeps f = change-Keeps _ (λ t. refl)

hold_incident-Keeps : (inc : Incident) → Keeps work (hold_incident inc)
unfolding hold_incident
hold_incident-Keeps inc = seq-Keeps work _ _ (put-Keeps _) (
    seq-Keeps work _ _ (logging-Keeps _ _ _)
      (seq-Keeps work _ _ committing-Keeps (pure-Keeps work none)))

unassigned-Keeps : (inc : Incident) → Keeps work (change (unassigned inc))
unfolding unassigned put_incident
unassigned-Keeps inc = change-Keeps _ (λ t. refl)

coverage_to_team-Keeps : (team : Option Team) → Keeps work (coverage_to_team team)
unfolding coverage_to_team
coverage_to_team-Keeps none = pure-Keeps work tt
coverage_to_team-Keeps (some team) = emit-Keeps _

handle_coverage_exception-Keeps :
    (c : Engine) (inc : Incident) → Keeps work (handle_coverage_exception c inc)
unfolding handle_coverage_exception
handle_coverage_exception-Keeps c inc =
    bind-Keeps work _ _ (catching-Keeps work _ none (query-Keeps work _)) (λ team.
      seq-Keeps work _ _ (unassigned-Keeps inc) (
        seq-Keeps work _ _ (logging-Keeps _ _ _) (
          seq-Keeps work _ _ (logging-Keeps _ _ _) (
            seq-Keeps work _ _ (coverage_to_team-Keeps team) (
              seq-Keeps work _ _ (emit-Keeps _)
                (seq-Keeps work _ _ committing-Keeps (pure-Keeps work none)))))))

notify_admins-Keeps : (incident_id : ℕ) (us : List User) → Keeps work (notify_admins incident_id us)
unfolding notify_admins
notify_admins-Keeps incident_id [] = pure-Keeps work tt
notify_admins-Keeps incident_id (u ∷ us) =
    seq-Keeps work _ _ (create_notification-Keeps _ _ _ _) (notify_admins-Keeps incident_id us)

tell_unassigned-Keeps :
    (c : Engine) (inc : Incident) (team : Option Team) (admins : List User)
    → Keeps work (tell_unassigned c inc team admins)
unfolding tell_unassigned
tell_unassigned-Keeps c inc team admins = seq-Keeps work _ _ (notify_admins-Keeps inc.id admins) (
    seq-Keeps work _ _ (catching-Keeps work _ tt (tell_arrival-Keeps c inc.id team)) (
      seq-Keeps work _ _ (emit-Keeps _) (
        seq-Keeps work _ _ (emit-Keeps _)
          (seq-Keeps work _ _ committing-Keeps (pure-Keeps work none)))))

leave_unassigned-Keeps :
    (c : Engine) (inc : Incident) (team : Option Team) → Keeps work (leave_unassigned c inc team)
unfolding leave_unassigned
leave_unassigned-Keeps c inc team = seq-Keeps work _ _ (unassigned-Keeps inc) (
    seq-Keeps work _ _ (logging-Keeps _ _ _) (
      seq-Keeps work _ _ (logging-Keeps _ _ _)
        (bind-Keeps work _ _ (query-Keeps work _) (tell_unassigned-Keeps c inc team))))

handle_no_eligible-Keeps : (c : Engine) (inc : Incident) → Keeps work (handle_no_eligible c inc)
unfolding handle_no_eligible
handle_no_eligible-Keeps c inc =
    bind-Keeps work _ _ (catching-Keeps work _ none (query-Keeps work _))
      (leave_unassigned-Keeps c inc)

-- DRY_RUN or SHADOW, by the mode or by a row of the settings.
unfoldable pub is_simulated : Engine → Bool
is_simulated c = is_dry_run c || is_shadow_mode c

module _ (c : Engine) (h : is_simulated c ≡ true) where
  with_team-Keeps : (inc : Incident) (team : Team) → Keeps work (with_team c false inc team)
  unfolding with_team is_simulated
  with_team-Keeps inc team =
      if-Keeps work (is_dry_run c) _ _ (λ e. log_none-Keeps _ _ _)
        (λ e.
          if-Keeps work (is_shadow_mode c) _ _
            (λ e'. bind-Keeps work _ _ (query-Keeps work _) (log_none-Keeps _ _))
            (λ e'. absurd (ground arith)))

  assign_selected-Keeps :
      (inc : Incident) (strategy : Strategy) (e : Employee)
      → Keeps work (assign_selected c false inc strategy e)
  unfolding assign_selected is_simulated
  assign_selected-Keeps inc strategy e =
      if-Keeps work (is_dry_run c) _ _ (λ d. log_none-Keeps _ _ _)
        (λ d.
          if-Keeps work (is_shadow_mode c) _ _ (λ d'. log_none-Keeps _ _ _)
            (λ d'. absurd (ground arith)))

  choose-Keeps :
      (inc : Incident) (shift : Option Shift) (emps : List Employee)
      → Keeps work (choose c false inc shift emps)
  unfolding choose
  choose-Keeps inc (some shift) [] = handle_coverage_exception-Keeps c inc
  choose-Keeps inc none [] = handle_no_eligible-Keeps c inc
  choose-Keeps inc shift (e ∷ emps) =
      bind-Keeps work _ _ (bind-Keeps work _ _ (query-Keeps work _) raising-Keeps) (λ strategy.
        bind-Keeps work _ _ (bind-Keeps work _ _ (query-Keeps work _) raising-Keeps)
          (assign_selected-Keeps inc strategy))

  without_team-Keeps : (inc : Incident) → Keeps work (without_team c false inc)
  unfolding without_team
  without_team-Keeps inc =
      bind-Keeps work _ _ (catching-Keeps work _ [] (query-Keeps work _)) (λ prior.
        bind-Keeps work _ _ (query-Keeps work _)
          (λ p. bind-Keeps work _ _ (query-Keeps work _) (choose-Keeps inc p.active_shift)))

  by_team-Keeps : (inc : Incident) (team : Option Team) → Keeps work (by_team c false inc team)
  unfolding by_team
  by_team-Keeps inc (some team) = with_team-Keeps inc team
  by_team-Keeps inc none = without_team-Keeps inc

  decide-Keeps : (inc : Incident) → Keeps work (decide c false inc)
  unfolding decide
  decide-Keeps inc =
      if-Keeps work c.is_sunday _ _ (λ e. hold_incident-Keeps inc)
        (λ e.
          bind-Keeps work _ _ (catching-Keeps work _ none (query-Keeps work _)) (by_team-Keeps inc))

  if_capacity-Keeps : (inc : Incident) (n : ℕ) → Keeps work (if_capacity c inc n)
  unfolding if_capacity
  if_capacity-Keeps inc n =
      if-Keeps work (leb (get_live_pilot_config c).max_active_assignments n) _ _
        (λ e. log_none-Keeps _ _ _) (λ e. decide-Keeps inc)

  in_pilot-Keeps : (inc : Incident) → Keeps work (in_pilot c inc)
  unfolding in_pilot
  in_pilot-Keeps inc =
      if-Keeps work (not (get_live_pilot_config c).enabled) _ _ (λ e. log_none-Keeps _ _ _)
        (λ e.
          if-Keeps work
            (is_filtered (get_live_pilot_config c).assignment_group (or_empty inc.assignment_group))
            _ _ (λ d. log_none-Keeps _ _ _)
            (λ d. bind-Keeps work _ _ (query-Keeps work _) (if_capacity-Keeps inc)))

  unless_active-Keeps :
      (inc : Incident) (active : Option IncidentAssignment)
      → Keeps work (unless_active c false inc active)
  unfolding unless_active
  unless_active-Keeps inc (some a) = pure-Keeps work (some a)
  unless_active-Keeps inc none =
      seq-Keeps work _ _ (arrival_notice-Keeps c inc)
        (if-Keeps work (is_piloted c false) _ _ (λ e. in_pilot-Keeps inc) (λ e. decide-Keeps inc))

  process_locked-Keeps : (inc : Incident) → Keeps work (process_locked c false inc)
  unfolding process_locked
  process_locked-Keeps inc = bind-Keeps work _ _ (query-Keeps work _) (λ locked.
      bind-Keeps work _ _ (catching-Keeps work _ none (query-Keeps work _))
        (unless_active-Keeps locked))

  -- Where DRY_RUN or SHADOW is on, by the mode or by a setting, a run of the engine that is not forced
  -- leaves the assignments, rotations, cycles and ServiceNow as they were, however it ends.
  pub process_incident-Simulates :
      (inc : Incident) (w : World) → work (process_incident c false inc w).1 ≡ work w
  unfolding process_incident
  process_incident-Simulates inc =
      if-Keeps work (not (is_auto_assignment_enabled c)) _ _ (λ e. log_none-Keeps _ _ _)
        (λ e.
          if-Keeps work (is_mode_paused (get_automation_mode c)) _ _ (λ d. log_none-Keeps _ _ _)
            (λ d. process_locked-Keeps inc))
