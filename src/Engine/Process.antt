-- ===== src/Engine/Process.antt =====
-- services/assignment_engine.py, `process_incident`. The hooks for test mocks are off. The team is
-- looked for again where nobody is eligible, with the same answer, so that the fallback to the next
-- shift and `_create_queued_assignment` are never reached.
use incident.Prelude.{
  ℕ, Bool, false, ◌&&◌, ◌||◌, not, Option, none, some, List, [], ◌∷◌, ◌++◌, ◌==◌, leb,
  if◌then◌else◌, select, exists, sort, is_empty, head?, Text, text_eq, codes, or_empty,
}
use incident.Models.{Team, Employee, Shift, Incident, IncidentAssignment, AuditAction}
use incident.Session.{Tables, get_user}
use incident.Eligibility.{Request, Pipeline, evaluate_candidate_pipeline}
use incident.Strategy.{Strategy, get_required_skills, apply_strategy}
use incident.Rotation.{Call, Outcome, locked_incident, assign_next_rotation_employee}
use incident.GroupNotice.{active_team}
use incident.Engine.Settings.{
  Engine, get_automation_mode, get_live_pilot_config, get_active_pilot_assignment_count,
  is_mode_paused, is_mode_live, is_auto_assignment_enabled, is_dry_run, is_shadow_mode, or_none,
  get_strategy,
}
use incident.Engine.Group.{assign_group, holder_ids}
use incident.Engine.Repetition.{or_one, GroupOutcome}
use incident.Engine.Assign.{active_assignment, create_assignment}
use incident.Actions.{Act, pure, ◌>>=◌, ◌>>◌, query, catching, recovering, raising, in_session}
use incident.Engine.Outcomes.{
  Decided, find_team, handle_coverage_exception, handle_no_eligible, hold_incident, is_filtered,
  log_none, send_group_arrival_notice,
}

-- `assignments[0] if assignments else None`.
unfoldable pub first_of : GroupOutcome → Act Decided
first_of out = pure (head? out.assignments)

unfoldable pub rotation_key : Engine → Incident → Team → Text
rotation_key c inc team = codes "inc_" ++ c.str_id inc.id ++ codes "_" ++ c.str_id team.id

unfoldable pub rotation_call : Engine → Incident → Team → Call
rotation_call c inc team = record {
  now = c.utc_now;
  new_id = c.assignment_id;
  key = some (rotation_key c inc team);
  assigned_by = none;
}

abbrev with_assignment : Outcome → Act Decided
with_assignment out = pure (some out.assignment)

unfoldable pub rotate_or_group : Engine → Incident → Team → Act Decided
rotate_or_group c inc team =
    recovering
      (in_session (assign_next_rotation_employee c.by_code (rotation_call c inc team) team inc)
        >>= with_assignment)
      (assign_group c inc team (some (or_one inc.current_cycle)) none >>= first_of)

employee_id? : Option Employee → Option ℕ
employee_id? none = none
employee_id? (some e) = some e.id

unfoldable pub recommended : Engine → ℕ → Tables → Option ℕ
unfolding employee_id?
recommended c team_id t = employee_id? (head? (sort c.by_code (active_team t team_id)))

unfoldable pub with_team : Engine → Bool → Incident → Team → Act Decided
with_team c force inc team =
    if not force && is_dry_run c
    then log_none AuditAction.dry_run inc.id none
    else if not force && is_shadow_mode c
    then query (recommended c team.id) >>= log_none AuditAction.shadow_assign inc.id
    else rotate_or_group c inc team

unfoldable pub request_of : Tables → Incident → Request
request_of t inc = record {
  assignment_group = or_empty inc.assignment_group;
  required_skills = get_required_skills t inc.id;
  incident_id = some inc.id;
}

-- `e.user.email in allowed or e.employee_code in allowed or str(e.id) in allowed`.
unfoldable pub in_roster : Engine → List Text → Tables → Employee → Bool
in_roster c allowed t e =
    (elim (get_user t e.user_id) [ none ↦ false | some u ↦ exists (text_eq u.email) allowed ])
    || ((elim e.employee_code [ none ↦ false | some code ↦ exists (text_eq code) allowed ])
        || exists (text_eq (c.str_id e.id)) allowed)

unfoldable pub is_piloted : Engine → Bool → Bool
is_piloted c force = is_mode_live (get_automation_mode c) && not force

unfoldable pub of_roster : Engine → Bool → Tables → List Employee → List Employee
of_roster c force t emps =
    let allowed = (get_live_pilot_config c).allowed_employees in
    if is_piloted c force && not (is_empty allowed)
    then select (in_roster c allowed t) emps
    else emps

-- The candidates_left of the pipeline who have never had the incident and are on the pilot's roster.
unfoldable pub candidates_left : Engine → Bool → List ℕ → Pipeline → Tables → List Employee
candidates_left c force prior p t =
    of_roster c force t (select (λ e. not (exists (λ i. i == e.id) prior)) p.eligible)

unfoldable pub assign_selected : Engine → Bool → Incident → Strategy → Employee → Act Decided
assign_selected c force inc strategy e =
    if not force && is_dry_run c
    then log_none AuditAction.dry_run inc.id (some e.id)
    else if not force && is_shadow_mode c
    then log_none AuditAction.shadow_assign inc.id (some e.id)
    else create_assignment c inc e strategy (is_piloted c force) >>= λ a. pure (some a)

unfoldable pub choose : Engine → Bool → Incident → Option Shift → List Employee → Act Decided
choose c force inc (some shift) [] = handle_coverage_exception c inc
choose c force inc none [] = handle_no_eligible c inc
choose c force inc shift (e ∷ emps) = do
  strategy ← query (λ t. get_strategy c t inc) >>= raising
  selected ← query (λ t. apply_strategy c.str_id strategy t (e ∷ emps) inc) >>= raising
  assign_selected c force inc strategy selected

unfoldable pub without_team : Engine → Bool → Incident → Act Decided
without_team c force inc = do
  prior ←
      catching (query (λ t. holder_ids (select (λ a. a.incident_id == inc.id) t.assignments))) []
  pipeline ← query (λ t. evaluate_candidate_pipeline t (request_of t inc) c.now)
  eligible ← query (candidates_left c force prior pipeline)
  choose c force inc pipeline.active_shift eligible

unfoldable pub by_team : Engine → Bool → Incident → Option Team → Act Decided
by_team c force inc (some team) = with_team c force inc team
by_team c force inc none = without_team c force inc

-- From the test for Sundays on.
unfoldable pub decide : Engine → Bool → Incident → Act Decided
decide c force inc =
    if c.is_sunday
    then hold_incident inc
    else catching (find_team c inc) none >>= by_team c force inc

unfoldable pub if_capacity : Engine → Incident → ℕ → Act Decided
if_capacity c inc active_count =
    if leb (get_live_pilot_config c).max_active_assignments active_count
    then log_none AuditAction.pilot_capacity_reached inc.id none
    else decide c false inc

unfoldable pub in_pilot : Engine → Incident → Act Decided
in_pilot c inc =
    if not (get_live_pilot_config c).enabled
    then log_none AuditAction.auto_assign_skipped inc.id none
    else if is_filtered (get_live_pilot_config c).assignment_group (or_empty inc.assignment_group)
    then log_none AuditAction.pilot_group_filtered inc.id none
    else query get_active_pilot_assignment_count >>= if_capacity c inc

unfoldable pub unless_active : Engine → Bool → Incident → Option IncidentAssignment → Act Decided
unless_active c force inc (some a) = pure (some a)
unless_active c force inc none = do
  send_group_arrival_notice c inc
  if is_piloted c force then in_pilot c inc else decide c force inc

unfoldable pub process_locked : Engine → Bool → Incident → Act Decided
process_locked c force inc = do
  locked ← query (λ t. locked_incident t inc)
  active ← catching (query (λ t. or_none (active_assignment locked.id t))) none
  unless_active c force locked active

unfoldable pub process_incident : Engine → Bool → Incident → Act Decided
process_incident c force inc =
    if not force && not (is_auto_assignment_enabled c)
    then log_none AuditAction.auto_assign_skipped inc.id none
    else if not force && is_mode_paused (get_automation_mode c)
    then log_none AuditAction.auto_assign_skipped inc.id none
    else process_locked c force inc
