-- ===== src/Webhook/Failures.antt =====
-- integrations/servicenow/webhook.py: what an ingest that raises leaves.
use incident.Prelude.{true, none, ◌≡◌, refl, ◌∙◌}
use incident.Models.{all_unique}
use incident.Session.{Tables, Error, ok, err, flush, commit, rollback}
use incident.Mapper.{Payload}
use incident.Actions.{
  World, change, pure, raising, rolling_back, flushing, committing, in_session, catching,
  recovering, ◌>>=◌,
}
use incident.Engine.Flow.{query_ok}
use incident.Engine.Assign.{flush_result}
use incident.Webhook.Replays.{is_admitted, receive_admitted}
use incident.Webhook.{
  Server, Headers, error_logged, known_number, idempotency_key, event_of, add_event, new_event,
  failed_event, ingest, record_failure, if_flushed, unless_repeated, receive_authentic,
  receive_incident,
}

flush_result_ok : (w : World) → flush w.session ≡ ok tt → flush_result w ≡ (ok (ok tt), w)
unfolding flush_result recovering flushing ◌>>=◌ pure
flush_result_ok w h = rw h refl

-- The session with the payload's event.
abbrev pub with_event : Server → Payload → World → World
with_event c p w = record w {
  session = record w.session { rows = add_event (new_event c p) w.session.rows };
}

-- The committed rows with the failure on record.
abbrev pub after_failure : Server → Payload → World → World
after_failure c p w =
    let t : Tables = add_event (failed_event c p) w.session.saved in
    record w { session = record w.session { rows = t; saved = t } }

failure_recorded :
    (c : Server) (p : Payload) (w : World)
    → all_unique w.session.saved.assignments ≡ true
    → record_failure c p w ≡ (ok (error_logged (known_number p)), after_failure c p w)
unfolding record_failure rolling_back rollback catching change committing in_session commit ◌>>=◌
    pure add_event
failure_recorded c p w h = rw h refl

-- An admitted payload whose key is not on record and whose ingest raises is answered as an error, and
-- leaves what was committed by then with one FAILED event, committed: what the ingest wrote after its
-- last commit, the incident itself and its received event included, is gone.
pub receive_incident-Fails :
    (c : Server) (h : Headers) (p : Payload) (w w' : World) (e : Error)
    → is_admitted c h ≡ true
    → flush w.session ≡ ok tt
    → event_of (idempotency_key p) w.session.rows ≡ ok none
    → ingest c p (with_event c p w) ≡ (err e, w')
    → all_unique w'.session.saved.assignments ≡ true
    → receive_incident c h p w ≡ (ok (error_logged (known_number p)), after_failure c p w')
unfolding receive_authentic ◌>>=◌ raising unless_repeated change if_flushed recovering flush
    add_event
receive_incident-Fails c h p w w' e admitted clean fresh raised unique =
    receive_admitted c h p w admitted
    ∙ rw
        (
          query_ok (event_of (idempotency_key p)) w clean,
          fresh,
          flush_result_ok (with_event c p w) clean,
          raised,
        )
        (failure_recorded c p w' unique)
