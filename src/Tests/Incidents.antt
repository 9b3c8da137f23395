-- ===== src/Tests/Incidents.antt =====
-- The theorems on the incidents API at the sample tables.
use incident.Prelude.{ℕ, false, some, [], ◌∷◌, ◌≡◌, refl, exists, find?, ◌==◌}
use incident.Session.{flush, ok, err, not_found, scalar_one_or_none, get_incident}
use incident.Actions.{query, pure, raising, ◌>>=◌}
use incident.Incidents.{
  acknowledge_incident, start_incident, complete_incident, put_assignment, acknowledged,
}
use incident.Incidents.Authorization.{
  Caller, by_uuid, resolve, is_privileged, scope_of, profile_of, or_forbidden, in_scope, accessible,
  or_done, if_done, latest, or_shadow, check_holder, is_recommended, verify_assignment_access,
}
use incident.Incidents.Access.{incident_calls-Refuse}
use incident.Incidents.Lifecycle.{acknowledge, call, view, step, phase}
use incident.Incidents.Lifecycle.Rows.{moved_by, call-Refines}
use incident.Tests.{runs, outage, user, employee}
use incident.Tests.Engine.{world, held}

abbrev caller : ℕ → Caller
caller i = record { user = user i; new_id = 990; utc_now = 1000 }

accesses : Unit {0}
unfolding flush scalar_one_or_none query pure raising ◌>>=◌ resolve is_privileged scope_of
    profile_of or_forbidden in_scope accessible or_done if_done latest or_shadow check_holder
    is_recommended verify_assignment_access put_assignment acknowledged moved_by
accesses = tt

clean : flush (world (held ∷ [])).session ≡ ok tt
unfolding runs accesses
clean = refl

unprivileged : is_privileged (user 3).role ≡ false
unfolding accesses
unprivileged = refl

profile : profile_of (user 3).id (world (held ∷ [])).session.rows ≡ ok (some (employee 3))
unfolding runs accesses
profile = refl

stranger : exists (in_scope 50 (some (employee 3))) (held ∷ []) ≡ false
unfolding runs accesses
stranger = refl

unasked : is_recommended 50 3 (world (held ∷ [])).session.rows ≡ false
unfolding runs accesses
unasked = refl

refuse_example :
    (acknowledge_incident (caller 3) (by_uuid 50) (world (held ∷ []))
      ≡ (err not_found, world (held ∷ [])))
    × (start_incident (caller 3) (by_uuid 50) (world (held ∷ []))
        ≡ (err not_found, world (held ∷ [])))
    × (complete_incident (caller 3) (by_uuid 50) (world (held ∷ []))
        ≡ (err not_found, world (held ∷ [])))
refuse_example =
    incident_calls-Refuse (caller 3) 50 (employee 3) (world (held ∷ [])) clean unprivileged profile
      stranger unasked

access :
    verify_assignment_access (caller 2) (by_uuid 50) (world (held ∷ []))
    ≡ (ok held, world (held ∷ []))
unfolding runs accesses
access = refl

row_found : find? (λ x. x.id == 800) (held ∷ []) ≡ some held
unfolding runs
row_found = refl

incident_found : get_incident (world (held ∷ [])).session.rows 50 ≡ some outage
unfolding runs
incident_found = refl

clean_after :
    flush (record (world (held ∷ [])).session {
      rows = put_assignment (moved_by acknowledge held) (world (held ∷ [])).session.rows;
    })
    ≡ ok tt
unfolding runs accesses
clean_after = refl

refines_example :
    view 800 50 (call acknowledge (caller 2) (by_uuid 50) (world (held ∷ []))).1.session.rows
    ≡ some (step acknowledge (phase held outage))
refines_example =
    call-Refines acknowledge (caller 2) (by_uuid 50) (world (held ∷ [])) (world (held ∷ [])) held
      outage access row_found incident_found clean clean_after
