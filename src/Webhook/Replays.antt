-- ===== src/Webhook/Replays.antt =====
-- integrations/servicenow/webhook.py: a payload that has been seen.
use incident.Prelude.{
  Bool, true, false, ◌&&◌, not, Option, some, [], ◌∷◌, ◌≡◌, refl, ap, ◌∙◌, select, truthy,
  if◌then◌else◌,
}
use incident.Models.{Incident, IntegrationEvent}
use incident.Session.{ok, flush, scalar_one_or_none}
use incident.Mapper.{Payload}
use incident.Actions.{World, Act, pure, raising, ◌>>=◌}
use incident.Engine.Flow.{query_ok}
use incident.Webhook.{
  Server, Headers, is_too_large, is_authentic, known_number, idempotency_key, has_key, event_of,
  incident_of, repeated_response, deduplicate, unless_repeated, receive_authentic, receive_incident,
}

-- The three guards before the payload is read.
unfoldable pub is_admitted : Server → Headers → Bool
is_admitted c h =
    not (is_too_large h.content_length)
    && (not (truthy c.webhook_secret && not (is_authentic c.webhook_secret h))
        && not (not (truthy c.webhook_secret) && c.is_guarded_environment))

guards :
    {A : Type 0} (x y z : Bool) (k l m n : Act A) (w : World)
    → (not x && (not y && not z)) ≡ true
    → (if x then k else if y then l else if z then m else n) w ≡ n w
guards true y z k l m n w e = cc
guards false true z k l m n w e = cc
guards false false true k l m n w e = cc
guards false false false k l m n w e = refl

pub receive_admitted :
    (c : Server) (h : Headers) (p : Payload) (w : World)
    → is_admitted c h ≡ true
    → receive_incident c h p w ≡ receive_authentic c p w
unfolding is_admitted receive_incident
receive_admitted c h p w e =
    guards (is_too_large h.content_length)
      (truthy c.webhook_secret && not (is_authentic c.webhook_secret h))
      (not (truthy c.webhook_secret) && c.is_guarded_environment) _ _ _ _ w e

same_key :
    (p q : Payload)
    → q.sys_id ≡ p.sys_id
    → q.number ≡ p.number
    → idempotency_key q ≡ idempotency_key p
unfolding idempotency_key known_number
same_key p q e d = rw (e, d) refl

-- With the unique indexes kept and a payload's key on record, an admitted payload with the same sys_id
-- and the same number, for which the search by sys_id or number finds one incident or none, is answered
-- as a repetition, and nothing is changed, whatever else it says: neither its state, nor its priority,
-- group or notes reach the incident.
pub receive_incident-Repeats :
    (c : Server) (h : Headers) (p q : Payload) (w : World) (e : IntegrationEvent)
    (n : Option Incident)
    → is_admitted c h ≡ true
    → flush w.session ≡ ok tt
    → q.sys_id ≡ p.sys_id
    → q.number ≡ p.number
    → select (has_key (idempotency_key p)) w.session.rows.integration_events ≡ e ∷ []
    → incident_of q w.session.rows ≡ ok n
    → receive_incident c h q w ≡ (ok (repeated_response q n), w)
unfolding receive_authentic ◌>>=◌ raising event_of scalar_one_or_none unless_repeated deduplicate
    pure
receive_incident-Repeats c h p q w e n admitted clean same_id same_number seen known =
    let found : event_of (idempotency_key q) w.session.rows ≡ ok (some e) =
      ap (λ k. event_of k w.session.rows) (same_key p q same_id same_number)
      ∙ ap scalar_one_or_none seen in
    receive_admitted c h q w admitted
    ∙ rw
        (
          query_ok (event_of (idempotency_key q)) w clean,
          found,
          query_ok (incident_of q) w clean,
          known,
        )
        refl
