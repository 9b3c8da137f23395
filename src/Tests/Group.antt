-- ===== src/Tests/Group.antt =====
-- A group assignment at the sample tables.
use incident.Prelude.{ℕ, false, none, [], map, ◌≡◌, refl, text_eq}
use incident.Models.{all_unique, clashes, same_cycle_id, IncidentAssignment}
use incident.Session.{ok, flush, commit, rollback, log}
use incident.ServiceNow.{Mode}
use incident.Rotation.{active_members, locked_incident, or_number}
use incident.Notices.{create_notification, added, announced, repeated}
use incident.Engine.Settings.{instructed}
use incident.Engine.Repetition.{
  GroupOutcome, digits, cycle_str, cycle_id_of, or_one, is_same_text, is_cycle, is_completed,
  if_ten, of_cycle, repeated_cycle, repeated_rows,
}
use incident.Engine.Group.{
  close_older, distinct_ids, employee_ids, holder_ids, new_cycle, unless_known, member_assignment,
  take_member, take_members, completed_cycle, update_cycles, group_incident, complete_cycle,
  tell_members, tell_group, seal_members, assign_members, if_valid, assign_cycle, unless_repeated,
  assign_group,
}
use incident.Engine.Members.Sealing.{IsSealed}
use incident.Engine.Members.Covering.{assign_group-Covers}
use incident.Actions.{
  World, pure, fail, ◌>>=◌, catching, in_session, query, change, flushing, committing, rolling_back,
  emit, logging,
}
use incident.Tests.{runs, tables, ids, employee, network, outage}
use incident.Tests.Engine.{engine, world}

abbrev row : ℕ → IncidentAssignment
row i = member_assignment (engine Mode.live) outage network 1 (cycle_id_of outage 1) (employee i)

abbrev outcome : GroupOutcome
outcome = record { idempotent = false; cycle_id = cycle_id_of outage 1; assignments = map row ids }

group_runs : Unit {0}
unfolding text_eq all_unique clashes same_cycle_id flush commit rollback log active_members
    locked_incident or_number create_notification added announced repeated instructed digits
    cycle_str cycle_id_of or_one is_same_text is_cycle is_completed if_ten of_cycle repeated_cycle
    repeated_rows close_older distinct_ids employee_ids holder_ids new_cycle unless_known
    member_assignment take_member take_members completed_cycle update_cycles group_incident
    complete_cycle tell_members tell_group seal_members assign_members if_valid assign_cycle
    unless_repeated assign_group pure fail ◌>>=◌ catching in_session query change flushing
    committing rolling_back emit logging
group_runs = tt

after_run : World
after_run = (assign_group (engine Mode.live) outage network none none (world [])).1

covered_run :
    assign_group (engine Mode.live) outage network none none (world []) ≡ (ok outcome, after_run)
unfolding runs group_runs after_run
covered_run = refl

covers_example :
    IsSealed
      (engine Mode.live)
      (locked_incident tables outage)
      network
      (or_number none (or_one (locked_incident tables outage).current_cycle))
      (cycle_id_of
        (locked_incident tables outage)
        (or_number none (or_one (locked_incident tables outage).current_cycle)))
      (active_members (engine Mode.live).by_code (world []).session.rows 7)
      outcome
      after_run.session.saved
covers_example =
    assign_group-Covers (engine Mode.live) outage network none none (world []) after_run outcome
      covered_run refl
