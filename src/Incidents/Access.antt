-- ===== src/Incidents/Access.antt =====
-- api/incidents.py, `_verify_assignment_access`: what the holder of nothing can do.
use incident.Prelude.{
  ℕ, false, ◌&&◌, Option, none, some, List, [], ◌∷◌, ◌==◌, ◌≡◌, refl, ap, exists, find?, select,
  mem-find?, ==_iff, arith,
}
use incident.Models.{Employee, Incident, IncidentAssignment}
use incident.Session.{Tables, ok, err, not_found, flush, get_incident}
use incident.Actions.{World, pure, fail, raising, ◌>>=◌}
use incident.Engine.Flow.{query_ok}
use incident.Incidents.{acknowledge_incident, start_incident, complete_incident}
use incident.Incidents.Authorization.{
  Caller, by_uuid, resolve, is_privileged, scope_of, profile_of, or_forbidden, in_scope, accessible,
  or_done, latest, if_done, is_recommended, or_shadow, if_shadow, accept_shadow,
  verify_assignment_access,
}

none_active :
    (i : ℕ) (e : Employee) (rows : List IncidentAssignment)
    → exists (in_scope i (some e)) rows ≡ false
    → find? (λ a. in_scope i (some e) a && a.is_active) rows ≡ none
unfolding find? exists
none_active i e [] h = refl
none_active i e (a ∷ rows) h = ground (arith, none_active i e rows)

none_selected :
    (i : ℕ) (e : Employee) (rows : List IncidentAssignment)
    → exists (in_scope i (some e)) rows ≡ false
    → select (in_scope i (some e)) rows ≡ []
unfolding select exists
none_selected i e [] h = refl
none_selected i e (a ∷ rows) h = ground (arith, none_selected i e rows)

nothing_reachable :
    (i : ℕ) (e : Employee) (t : Tables)
    → exists (in_scope i (some e)) t.assignments ≡ false
    → accessible i (some e) t ≡ none
unfolding accessible or_done latest if_done
nothing_reachable i e t h =
    rw (none_active i e t.assignments h, none_selected i e t.assignments h) refl

pub get_incident-id :
    (t : Tables) (i : ℕ) (inc : Incident) → get_incident t i ≡ some inc → inc.id ≡ i
unfolding get_incident
get_incident-id t i inc h =
    (==_iff inc.id i).0 (mem-find? (λ (n : Incident). n.id == i) t.incidents h).1

module _ (c : Caller) (i : ℕ) (e : Employee) (w : World) (clean : flush w.session ≡ ok tt)
    (unprivileged : is_privileged c.user.role ≡ false)
    (profile : profile_of c.user.id w.session.rows ≡ ok (some e))
    (stranger : exists (in_scope i (some e)) w.session.rows.assignments ≡ false)
    (unasked : is_recommended i e.id w.session.rows ≡ false) where
  scoped : scope_of c.user w ≡ (ok (some e), w)
  unfolding scope_of ◌>>=◌ raising or_forbidden pure
  scoped = rw (unprivileged, query_ok (profile_of c.user.id) w clean, profile) refl

  shadow-Refuses :
      (o : Option Incident)
      → get_incident w.session.rows i ≡ o
      → if_shadow c e o w ≡ (err not_found, w)
  unfolding if_shadow fail accept_shadow ◌>>=◌
  shadow-Refuses none h = refl
  shadow-Refuses (some inc) h =
      rw
        (
          query_ok (is_recommended inc.id e.id) w clean,
          ap (λ j. is_recommended j e.id w.session.rows) (get_incident-id w.session.rows i inc h),
          unasked,
        )
        refl

  verify-Refuses : verify_assignment_access c (by_uuid i) w ≡ (err not_found, w)
  unfolding verify_assignment_access resolve pure ◌>>=◌ or_shadow
  verify-Refuses =
      rw
        (
          scoped,
          query_ok (accessible i (some e)) w clean,
          nothing_reachable i e w.session.rows stranger,
          query_ok (λ t. get_incident t i) w clean,
          shadow-Refuses (get_incident w.session.rows i) refl,
        )
        refl

  -- In a session whose rows keep the unique indexes, a user who is neither administrator nor supervisor
  -- but has one employee profile, where this employee has no assignment of the incident and is not the
  -- one that its newest SHADOW_ASSIGN entry recommends, can neither acknowledge, nor start, nor complete
  -- the incident by its UUID: each call fails with 404 and changes nothing.
  pub incident_calls-Refuse :
      (acknowledge_incident c (by_uuid i) w ≡ (err not_found, w))
      × (start_incident c (by_uuid i) w ≡ (err not_found, w))
      × (complete_incident c (by_uuid i) w ≡ (err not_found, w))
  unfolding acknowledge_incident start_incident complete_incident ◌>>=◌
  incident_calls-Refuse = (rw verify-Refuses refl, rw verify-Refuses refl, rw verify-Refuses refl)
