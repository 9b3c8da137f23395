-- ===== src/Tests/Teams.antt =====
-- The theorem on the activation of a team at a sample world with a leader and a shift for everyone.
use incident.Prelude.{true, false, some, [], ◌∷◌, map, if◌then◌else◌, ◌≡◌, refl}
use incident.Models.{Team, Employee, all_unique}
use incident.Session.{Tables, ok, err, bad_request, get_team}
use incident.Actions.{World}
use incident.Teams.{activate_team, team_members, leaders, has_shift}
use incident.Teams.Activation.{is_ready, after_activation, activate_team-IsReady}
use incident.Tests.{runs, ids, session, tables, network, employee, on_day}

abbrev leader : Employee
leader = record (employee 10) { is_group_leader = true }

abbrev staffed : Tables
staffed = record tables {
  employees = leader ∷ map employee (1 ∷ 2 ∷ 3 ∷ 4 ∷ 5 ∷ 6 ∷ 7 ∷ 8 ∷ 9 ∷ []);
  shift_assignments = map on_day ids;
}

abbrev draft : Team
draft = record network { is_active = false }

abbrev before : World
before = record {
  session = record session { rows = record staffed { teams = draft ∷ [] } };
  patches = [];
}

indexes_kept : all_unique before.session.rows.assignments ≡ true
unfolding runs
indexes_kept = refl

draft_found : get_team before.session.rows (some 7) ≡ some draft
unfolding runs
draft_found = refl

staffed_example : is_ready before.session.rows draft ≡ true
unfolding runs is_ready team_members leaders has_shift
staffed_example = refl

activate_example : activate_team 7 before ≡ (
    if is_ready before.session.rows draft
    then (ok (record draft { is_active = true }), after_activation draft before)
    else (err bad_request, before))
activate_example = activate_team-IsReady 7 draft before indexes_kept draft_found
