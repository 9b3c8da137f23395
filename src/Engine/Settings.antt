-- ===== src/Engine/Settings.antt =====
-- services/assignment_engine.py, the getters: what the environment configures, and what the rows of
-- system_settings and assignment_rules put in its place. A row that has no such key is `some none`.
use incident.Prelude.{
  ℕ, Bool, true, false, ◌&&◌, ◌||◌, Option, none, some, get_or, List, is, if◌then◌else◌, select,
  count, Text, text_eq, truthy,
}
use incident.Models.{Team, Employee, Incident, is_open}
use incident.Session.{Tables, Result, ok, err, scalar_one_or_none}
use incident.Shifts.{Moment}
use incident.ServiceNow.{Mode}
use incident.Sync.{Client}
use incident.GroupNotice.{Mail}
use incident.Strategy.{Strategy}

pub record PilotConfig : Type 0 where
  pub enabled : Bool
  pub assignment_group : Text
  pub max_active_assignments : ℕ
  pub allowed_employees : List Text

pub record StoredPilot : Type 0 where
  pub enabled : Option Bool
  pub assignment_group : Option Text
  pub max_active_assignments : Option ℕ
  pub allowed_employees : Option (List Text)

pub record AssignmentRule : Type 0 where
  pub strategy : Strategy
  pub team_id : Option ℕ
  pub is_active : Bool

-- All that a run of the engine finds given: the settings, the clock, fresh identifiers, the
-- database's orders and ILIKE '%...%', and the outside.
pub record Engine : Type 0 where
  pub automation_mode : Mode
  pub stored_mode : Option Mode
  pub auto_assignment_enabled : Bool
  pub stored_enabled : Option (Option Bool)
  pub pilot : PilotConfig
  pub stored_pilot : Option StoredPilot
  pub stored_dry_run : Option (Option Bool)
  pub stored_shadow : Option (Option Bool)
  pub rules : List AssignmentRule
  pub assignment_strategy : Strategy
  pub stored_strategy : Option (Option Strategy)
  pub now : Moment
  pub is_sunday : Bool
  pub utc_now : ℕ
  pub assignment_id : ℕ
  pub member_assignment_id : ℕ → ℕ
  pub failure_id : ℕ
  pub by_code : Employee → Employee → Bool
  pub str_id : ℕ → Text
  pub template : ℕ → Option Text
  pub strategy_word : Strategy → Text
  pub ilike : Text → Text → Bool
  pub client : Client
  pub mail : Mail

unfoldable pub get_automation_mode : Engine → Mode
get_automation_mode c = get_or c.stored_mode c.automation_mode

unfoldable pub updated_pilot : PilotConfig → Option StoredPilot → PilotConfig
updated_pilot p none = p
updated_pilot p (some q) = record {
  enabled = get_or q.enabled p.enabled;
  assignment_group = get_or q.assignment_group p.assignment_group;
  max_active_assignments = get_or q.max_active_assignments p.max_active_assignments;
  allowed_employees = get_or q.allowed_employees p.allowed_employees;
}

unfoldable pub get_live_pilot_config : Engine → PilotConfig
get_live_pilot_config c = updated_pilot c.pilot c.stored_pilot

-- Where the query raises, the source answers 0; the session is then to be rolled back, and its next query
-- raises.
unfoldable pub get_active_pilot_assignment_count : Tables → ℕ
get_active_pilot_assignment_count t = count (λ a. a.is_active && is_open a.status) t.assignments

unfoldable pub is_mode_paused : Mode → Bool
is_mode_paused Mode.paused = true
is_mode_paused _ = false

unfoldable pub is_mode_dry_run : Mode → Bool
is_mode_dry_run Mode.dry_run = true
is_mode_dry_run _ = false

unfoldable pub is_mode_shadow : Mode → Bool
is_mode_shadow Mode.shadow = true
is_mode_shadow _ = false

unfoldable pub is_mode_live : Mode → Bool
is_mode_live Mode.live = true
is_mode_live _ = false

-- The work instructions of an incident, or else the first active task template of the team.
unfoldable pub instructed : Engine → Option ℕ → Option Text → Option Text
instructed c none instructions = instructions
instructed c (some team_id) none = c.template team_id
instructed c (some team_id) (some s) =
    if truthy s then some s else (elim (c.template team_id) [ none ↦ some s | some t ↦ some t ])

-- A stored row, a key that it lacks, and no row.
unfoldable pub stored {ℓ} : {A : Type ℓ} → Option (Option A) → A → A → A
stored none missing absent = absent
stored (some none) missing absent = missing
stored (some (some a)) missing absent = a

unfoldable pub is_auto_assignment_enabled : Engine → Bool
is_auto_assignment_enabled c =
    if is_mode_paused (get_automation_mode c)
    then false
    else stored c.stored_enabled true c.auto_assignment_enabled

unfoldable pub is_dry_run : Engine → Bool
is_dry_run c = is_mode_dry_run (get_automation_mode c) || stored c.stored_dry_run false false

unfoldable pub is_shadow_mode : Engine → Bool
is_shadow_mode c = is_mode_shadow (get_automation_mode c) || stored c.stored_shadow false false

is_text : Option Text → Text → Bool
is_text none s = false
is_text (some t) s = text_eq t s

-- WHERE name = group OR servicenow_group_id = group.
unfoldable pub is_group : Text → Team → Bool
unfolding is_text
is_group group m = text_eq m.name group || is_text m.servicenow_group_id group

unfoldable pub or_none {ℓ} : {A : Type ℓ} → Result (Option A) → Option A
or_none (ok o) = o
or_none (err e) = none

-- The team that the query of `process_incident` finds: none if there are several, by the exception.
unfoldable pub team_of_group : Engine → Tables → Option Text → Option Team
unfolding or_none
team_of_group c t none = none
team_of_group c t (some group) =
    if truthy group
    then or_none
        (scalar_one_or_none (select (λ m. is_group group m || c.ilike group m.name) t.teams))
    else none

is_rule_of : Option ℕ → AssignmentRule → Bool
is_rule_of none r = r.is_active && (elim r.team_id [ none ↦ true | some i ↦ false ])
is_rule_of (some i) r = r.is_active && is r.team_id i

default_strategy : Engine → Result (Option AssignmentRule) → Result Strategy
default_strategy c (err e) = err e
default_strategy c (ok (some r)) = ok r.strategy
default_strategy c (ok none) =
    ok (stored c.stored_strategy c.assignment_strategy c.assignment_strategy)

global_strategy : Engine → Result Strategy
global_strategy c = default_strategy c (scalar_one_or_none (select (is_rule_of none) c.rules))

ruled_strategy : Engine → Result (Option AssignmentRule) → Result Strategy
ruled_strategy c (err e) = err e
ruled_strategy c (ok (some r)) = ok r.strategy
ruled_strategy c (ok none) = global_strategy c

team_strategy : Engine → Result (Option Team) → Result Strategy
team_strategy c (err e) = err e
team_strategy c (ok none) = global_strategy c
team_strategy c (ok (some m)) =
    ruled_strategy c (scalar_one_or_none (select (is_rule_of (some m.id)) c.rules))

unfoldable pub get_strategy : Engine → Tables → Incident → Result Strategy
unfolding is_rule_of default_strategy global_strategy ruled_strategy team_strategy
get_strategy c t inc = elim inc.assignment_group [
  | none ↦ global_strategy c
  | some group ↦
      if truthy group
      then team_strategy c (scalar_one_or_none (select (is_group group) t.teams))
      else global_strategy c
]
