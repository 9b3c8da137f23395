-- ===== src/Ingest/Lookup.antt =====
-- services/incident_service.py: an incident that has just been taken in is found again.
use incident.Prelude.{
  Bool, true, Option, none, some, List, [], ◌∷◌, ◌++◌, ◌≡◌, refl, select, truthy, Text,
  text_eq_refl, Bool-split, arith,
}
use incident.Models.{Incident}
use incident.Session.{Tables, ok, flush, scalar_one_or_none}
use incident.Mapper.{Payload, to_incident}
use incident.Actions.{World, change, flushing, pure, raising, ◌>>=◌}
use incident.Engine.Flow.{query_ok}
use incident.Ingest.{
  Intake, has_sys_id, has_number, find_by, or_by_number, find_existing, new_incident,
  create_incident, update_or_create, create_or_update_from_servicenow, instructions_of,
}

select-append :
    (p : Incident → Bool) (xs : List Incident) (n : Incident)
    → select p xs ≡ []
    → p n ≡ true
    → select p (xs ++ n ∷ []) ≡ n ∷ []
unfolding select
select-append p [] n h k = rw k refl
select-append p (x ∷ xs) n h k = ground (arith, select-append p xs n)

find_by-none :
    (p : Text → Incident → Bool) (key : Text) (t : Tables)
    → select (p key) t.incidents ≡ []
    → find_by p key t ≡ ok none
unfolding find_by scalar_one_or_none
find_by-none p key t h = Bool-split (truthy key) (λ e. rw (e, h) refl) (λ e. rw e refl)

-- The session with the new incident.
abbrev pub with_incident : Incident → World → World
with_incident n w = record w {
  session = record w.session {
    rows = record w.session.rows { incidents = w.session.rows.incidents ++ n ∷ [] };
  };
}

module _ (c : Intake) (p : Payload) (w : World) (instructions : Option Text)
    (clean : flush w.session ≡ ok tt)
    (new_id : select (has_sys_id p.sys_id) w.session.rows.incidents ≡ [])
    (new_number : select (has_number p.number) w.session.rows.incidents ≡ [])
    (known : instructions_of c
        (to_incident p).work_instructions
        none
        (to_incident p).assignment_group
        w
      ≡ (ok instructions, w)) where
  abbrev pub taken_in : Incident
  taken_in = new_incident c (to_incident p) instructions

  not_found_yet : find_existing p w ≡ (ok none, w)
  unfolding find_existing or_by_number raising ◌>>=◌
  not_found_yet =
      rw
        (
          query_ok (find_by has_sys_id p.sys_id) w clean,
          find_by-none has_sys_id p.sys_id w.session.rows new_id,
          query_ok (find_by has_number p.number) w clean,
          find_by-none has_number p.number w.session.rows new_number,
        )
        refl

  created_anew :
      create_or_update_from_servicenow c p w ≡ (ok (taken_in, true), with_incident taken_in w)
  unfolding create_or_update_from_servicenow update_or_create create_incident change flushing pure
      ◌>>=◌ flush
  created_anew = rw (not_found_yet, known, clean) refl

  found_again :
      (q : Payload)
      → q.sys_id ≡ p.sys_id
      → truthy p.sys_id ≡ true
      → find_existing q (with_incident taken_in w) ≡ (ok (some taken_in), with_incident taken_in w)
  unfolding find_existing or_by_number raising ◌>>=◌ pure flush find_by scalar_one_or_none
      has_sys_id new_incident to_incident
  found_again q e real =
      rw
        (
          query_ok (find_by has_sys_id q.sys_id) (with_incident taken_in w) clean,
          e,
          real,
          select-append (has_sys_id p.sys_id) w.session.rows.incidents taken_in new_id
              (text_eq_refl p.sys_id),
        )
        refl

  -- With the unique indexes kept, a payload with a sys_id, which no incident has yet, nor its number, and
  -- for whose group the task instructions are found without an error, makes a new incident. In the
  -- session that this leaves, the search for any payload with this sys_id finds that incident, whatever
  -- number and whatever else it has.
  pub create_or_update-RoundTrips :
      (q : Payload)
      → q.sys_id ≡ p.sys_id
      → truthy p.sys_id ≡ true
      → (create_or_update_from_servicenow c p w ≡ (ok (taken_in, true), with_incident taken_in w))
        × (find_existing q (with_incident taken_in w)
            ≡ (ok (some taken_in), with_incident taken_in w))
  create_or_update-RoundTrips q e real = (created_anew, found_again q e real)
