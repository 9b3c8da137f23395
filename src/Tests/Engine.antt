-- ===== src/Tests/Engine.antt =====
-- The theorems on the engine's flow at the sample tables.
use incident.Prelude.{◌+◌, true, false, none, some, List, [], ◌∷◌, ◌≡◌, refl, codes, select, leb}
use incident.Models.{AssignmentStatus, AssignmentType, IncidentAssignment}
use incident.Session.{flush, ok}
use incident.ServiceNow.{Mode, status}
use incident.Strategy.{other}
use incident.Rotation.{is_active_on, locked_incident}
use incident.Actions.{World}
use incident.Engine.Settings.{
  Engine, get_automation_mode, get_live_pilot_config, updated_pilot,
  get_active_pilot_assignment_count, is_mode_live, is_mode_dry_run, is_mode_shadow, is_mode_paused,
  stored, is_dry_run, is_shadow_mode, is_auto_assignment_enabled,
}
use incident.Engine.Process.{process_incident}
use incident.Engine.Outcomes.{is_filtered}
use incident.Engine.Simulation.{work}
use incident.Engine.Simulation.Flow.{is_simulated, process_incident-Simulates}
use incident.Engine.Pilot.{is_closed_to, process_incident-Blocks}
use incident.Engine.Flow.{may_run, process_incident-Repeats}
use incident.Tests.{runs, tables, session, morning, outage, by_id}

abbrev pub engine : Mode → Engine
engine mode = record {
  automation_mode = mode;
  stored_mode = none;
  auto_assignment_enabled = true;
  stored_enabled = none;
  pilot = record {
    enabled = false;
    assignment_group = codes "Network";
    max_active_assignments = 5;
    allowed_employees = [];
  };
  stored_pilot = none;
  stored_dry_run = none;
  stored_shadow = none;
  rules = [];
  assignment_strategy = other;
  stored_strategy = none;
  now = morning;
  is_sunday = false;
  utc_now = 1000;
  assignment_id = 900;
  member_assignment_id = λ i. 910 + i;
  failure_id = 950;
  by_code = by_id;
  str_id = λ i. i ∷ [];
  template = λ i. none;
  strategy_word = λ s. codes "SKILL_PLUS_WORKLOAD";
  ilike = λ s t. false;
  client = record {
    config = record {
      automation_mode = mode;
      shadow_mode = false;
      dry_run_mode = false;
      stored_mode = none;
    };
    server = λ sent. status 200;
    raises = leb 400;
  };
  mail = record { now = 1000; raises = λ u. false; failure_id = λ i. 960 + i };
}

abbrev pub world : List IncidentAssignment → World
world rows = record {
  session = record session {
    rows = record tables { assignments = rows };
    saved = record tables { assignments = rows };
  };
  patches = [];
}

abbrev pub held : IncidentAssignment
held = record {
  id = 800;
  incident_id = 50;
  employee_id = 2;
  cycle_number = 1;
  assignment_type = AssignmentType.automatic;
  status = AssignmentStatus.assigned;
  reason = [];
  assigned_at = 900;
  assigned_by = none;
  is_active = true;
  scheduled_shift_name = none;
  scheduled_start = none;
  team_id = some 7;
  assignment_cycle_id = none;
  rotation_cycle = none;
  rotation_position = none;
  source_event_id = none;
}

settings : Unit {0}
unfolding get_automation_mode get_live_pilot_config updated_pilot get_active_pilot_assignment_count
    is_mode_live is_mode_dry_run is_mode_shadow is_mode_paused stored is_dry_run is_shadow_mode
    is_auto_assignment_enabled is_simulated is_closed_to may_run flush is_filtered
settings = tt

simulated : is_simulated (engine Mode.dry_run) ≡ true
unfolding settings
simulated = refl

simulates_example :
    work (process_incident (engine Mode.dry_run) false outage (world [])).1 ≡ work (world [])
simulates_example = process_incident-Simulates (engine Mode.dry_run) simulated outage (world [])

live : is_mode_live (get_automation_mode (engine Mode.live)) ≡ true
unfolding settings
live = refl

closed :
    is_closed_to
      (engine Mode.live)
      (locked_incident (world []).session.rows outage)
      (world []).session.rows
    ≡ true
unfolding runs settings
closed = refl

blocks_example :
    work (process_incident (engine Mode.live) false outage (world [])).1 ≡ work (world [])
blocks_example = process_incident-Blocks (engine Mode.live) live outage (world []) closed

clean : flush (world (held ∷ [])).session ≡ ok tt
unfolding runs settings
clean = refl

one : select (is_active_on 50) (held ∷ []) ≡ held ∷ []
unfolding runs
one = refl

may_start : may_run (engine Mode.live) false ≡ true
unfolding settings
may_start = refl

repeats_example :
    process_incident (engine Mode.live) false outage (world (held ∷ []))
    ≡ (ok (some held), world (held ∷ []))
repeats_example =
    process_incident-Repeats (engine Mode.live) false outage (world (held ∷ [])) held clean one
      may_start
