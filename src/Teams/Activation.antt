-- ===== src/Teams/Activation.antt =====
-- services/team_service.py: which teams can be activated.
use incident.Prelude.{
  ℕ, Bool, true, false, ◌&&◌, none, some, List, [], ◌∷◌, ◌++◌, ◌==◌, ==_iff, ◌≡◌, ◌∙◌, refl, ap,
  if◌then◌else◌, all, count, length, mem-find?, truthy, strip, arith,
}
use incident.Models.{Team, Employee, AuditAction, all_unique}
use incident.Session.{Tables, ok, err, bad_request, flush, commit, get_team, log}
use incident.Actions.{World, change, committing, flushing, logging, in_session, pure, fail, ◌>>=◌}
use incident.Engine.Flow.{query_ok}
use incident.Teams.{
  Violation, team_members, has_shift, leaders, uncovered_employees, unless_met, violations_of,
  validate_team_activation, violations_found, put_team, set_active, unless_violated, activate_found,
  activate_team,
}

-- Ten active members, one of them the leader, each with a shift, and a name.
unfoldable pub is_ready : Tables → Team → Bool
is_ready t team =
    (length (team_members t team.id) == 10)
    && ((leaders (team_members t team.id) == 1)
        && (all (has_shift t) (team_members t team.id) && truthy (strip team.name)))

uncovered_iff :
    (t : Tables) (emps : List Employee) → (uncovered_employees t emps == 0) ≡ all (has_shift t) emps
unfolding uncovered_employees count all
uncovered_iff t [] = refl
uncovered_iff t (e ∷ emps) = ground (arith, uncovered_iff t emps)

four_tests :
    (a b c d : Bool) (u v x y : Violation) (team : Team)
    → unless_violated team
        (unless_met a u ++ (unless_met b v ++ (unless_met c x ++ unless_met d y)))
      ≡ (if a && (b && (c && d))
          then set_active true AuditAction.activate_team team
          else fail bad_request)
unfolding unless_met unless_violated
four_tests false b c d u v x y team = refl
four_tests true false c d u v x y team = refl
four_tests true true false d u v x y team = refl
four_tests true true true false u v x y team = refl
four_tests true true true true u v x y team = refl

valid_iff :
    (t : Tables) (team : Team)
    → unless_violated team (violations_of t team) ≡ (
        if is_ready t team
        then set_active true AuditAction.activate_team team
        else fail bad_request)
unfolding violations_of is_ready
valid_iff t team =
    four_tests _ _ _ _ _ _ _ _ team ∙ rw (uncovered_iff t (team_members t team.id)) refl

-- The session with the team active, on record and committed.
abbrev pub after_activation : Team → World → World
after_activation team w =
    let t : Tables =
      log AuditAction.activate_team team.id none (put_team true team w.session.rows) in
    record w { session = record w.session { rows = t; saved = t } }

activated :
    (team : Team) (w : World)
    → all_unique w.session.rows.assignments ≡ true
    → set_active true AuditAction.activate_team team w
      ≡ (ok (record team { is_active = true }), after_activation team w)
unfolding set_active change committing in_session commit logging flushing flush pure ◌>>=◌ put_team
    log
activated team w h = rw (h, h, h) refl

team-id : (t : Tables) (i : ℕ) (team : Team) → get_team t (some i) ≡ some team → team.id ≡ i
unfolding get_team
team-id t i team h = (==_iff team.id i).0 (mem-find? (λ (m : Team). m.id == i) t.teams h).1

validated :
    (t : Tables) (i : ℕ) (team : Team)
    → get_team t (some i) ≡ some team
    → validate_team_activation team.id t ≡ violations_of t team
unfolding validate_team_activation violations_found
validated t i team h =
    ap (λ j. violations_found t (get_team t (some j))) (team-id t i team h)
    ∙ ap (violations_found t) h

chosen :
    (b : Bool) (team : Team) (w : World)
    → all_unique w.session.rows.assignments ≡ true
    → (if b then set_active true AuditAction.activate_team team else fail bad_request) w ≡ (
        if b
        then (ok (record team { is_active = true }), after_activation team w)
        else (err bad_request, w))
unfolding fail
chosen true team w h = activated team w h
chosen false team w h = refl

-- With the unique indexes kept, activating a team that there is succeeds exactly if it has ten active
-- members, exactly one leader among them, a shift for each and a name that is not blank: then it is
-- active and on record, committed; else the call fails with 400 and changes nothing.
pub activate_team-IsReady :
    (team_id : ℕ) (team : Team) (w : World)
    → all_unique w.session.rows.assignments ≡ true
    → get_team w.session.rows (some team_id) ≡ some team
    → activate_team team_id w ≡ (
        if is_ready w.session.rows team
        then (ok (record team { is_active = true }), after_activation team w)
        else (err bad_request, w))
unfolding activate_team activate_found ◌>>=◌ flush
activate_team-IsReady team_id team w unique found =
    let clean : flush w.session ≡ ok tt = rw unique refl in
    rw
      (
        query_ok (λ t. get_team t (some team_id)) w clean,
        found,
        query_ok (validate_team_activation team.id) w clean,
        validated w.session.rows team_id team found,
      )
      (ap (λ m. m w) (valid_iff w.session.rows team)
        ∙ chosen (is_ready w.session.rows team) team w unique)
