-- ===== src/Engine/Simulation/Notices.antt =====
-- services/group_notice_service.py: a notice to a team leaves the work as it is.
use incident.Prelude.{ℕ, Option, none, some, List, [], ◌∷◌, refl}
use incident.Models.{User, Employee, Team}
use incident.GroupNotice.{
  Mail, send_email, notify_member, notify_members, send_to, if_team, send_to_team,
}
use incident.Actions.Keeps.{
  Keeps, pure-Keeps, bind-Keeps, seq-Keeps, catching-Keeps, query-Keeps, if-Keeps,
}
use incident.Engine.Simulation.{work, change-Keeps, emit-Keeps, logging-Keeps}

send_email-Keeps : (mail : Mail) (u : User) → Keeps work (send_email mail u)
unfolding send_email
send_email-Keeps mail u =
    if-Keeps work (mail.raises u) _ _ (λ e. change-Keeps _ (λ t. refl)) (λ e. pure-Keeps work tt)

notify_member-Keeps :
    (mail : Mail) (incident_id : Option ℕ) (user : Option User)
    → Keeps work (notify_member mail incident_id user)
unfolding notify_member
notify_member-Keeps mail incident_id none = pure-Keeps work tt
notify_member-Keeps mail incident_id (some u) =
    seq-Keeps work _ _ (change-Keeps _ (λ t. refl))
      (seq-Keeps work _ _ (emit-Keeps _) (send_email-Keeps mail u))

notify_members-Keeps :
    (mail : Mail) (incident_id : Option ℕ) (emps : List Employee)
    → Keeps work (notify_members mail incident_id emps)
unfolding notify_members
notify_members-Keeps mail incident_id [] = pure-Keeps work tt
notify_members-Keeps mail incident_id (e ∷ emps) = bind-Keeps work _ _ (query-Keeps work _) (λ user.
    seq-Keeps work _ _ (notify_member-Keeps mail incident_id user)
      (notify_members-Keeps mail incident_id emps))

send_to-Keeps :
    (mail : Mail) (team_id : ℕ) (incident_id : Option ℕ) (emps : List Employee)
    → Keeps work (send_to mail team_id incident_id emps)
unfolding send_to
send_to-Keeps mail team_id incident_id [] = pure-Keeps work tt
send_to-Keeps mail team_id incident_id (e ∷ emps) =
    seq-Keeps work _ _ (notify_members-Keeps mail incident_id (e ∷ emps))
      (catching-Keeps work _ tt (seq-Keeps work _ _ (logging-Keeps _ _ _) (logging-Keeps _ _ _)))

if_team-Keeps :
    (mail : Mail) (incident_id : Option ℕ) (team : Option Team)
    → Keeps work (if_team mail incident_id team)
unfolding if_team
if_team-Keeps mail incident_id none = pure-Keeps work tt
if_team-Keeps mail incident_id (some team) =
    bind-Keeps work _ _ (query-Keeps work _) (send_to-Keeps mail team.id incident_id)

pub send_to_team-Keeps :
    (mail : Mail) (team_id : ℕ) (incident_id : Option ℕ)
    → Keeps work (send_to_team mail team_id incident_id)
unfolding send_to_team
send_to_team-Keeps mail team_id incident_id =
    bind-Keeps work _ _ (query-Keeps work _) (if_team-Keeps mail incident_id)
