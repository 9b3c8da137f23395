-- ===== src/Engine/Dispatch.antt =====
-- services/assignment_engine.py, `send_incident_to_group`: an incident is taken from whoever has it,
-- and given to all members of a team.
use incident.Prelude.{ℕ, Option, none, some, update}
use incident.Models.{Team, Incident}
use incident.Session.{Tables, value_error, get_team, put_incident}
use incident.Rotation.{locked_incident, is_active_on, as_reassigned}
use incident.GroupNotice.{send_to_team}
use incident.Engine.Settings.{Engine}
use incident.Engine.Repetition.{GroupOutcome}
use incident.Engine.Group.{assign_group}
use incident.Actions.{Act, fail, ◌>>=◌, ◌>>◌, query, change, flushing, catching}

unfoldable pub take_away : Incident → Team → Tables → Tables
take_away inc team t =
    put_incident
      (record t { assignments = update (is_active_on inc.id) as_reassigned t.assignments })
      (record inc { assignment_group = some team.name })

unfoldable pub if_team_found : Engine → Incident → Option Team → Act GroupOutcome
if_team_found c inc none = fail value_error
if_team_found c inc (some team) = do
  locked ← query (λ t. locked_incident t inc)
  flushing
  change (take_away locked team)
  flushing
  catching (send_to_team c.mail team.id (some locked.id)) tt
  assign_group c (record locked { assignment_group = some team.name }) team none none

unfoldable pub send_incident_to_group : Engine → Incident → ℕ → Act GroupOutcome
send_incident_to_group c inc team_id =
    query (λ t. get_team t (some team_id)) >>= if_team_found c inc
