-- ===== src/Webhook.antt =====
-- integrations/servicenow/webhook.py, `receive_incident`: authentication, the idempotency key, and what
-- is left of an ingest that fails. The identifiers of new rows are parameters. `sys_mod_count` is no
-- field of the payload's schema, so that the count in the key is always zero.
pub mod Replays
pub mod Failures
use incident.Prelude.{
  ℕ, Bool, true, false, ◌||◌, ◌&&◌, not, Option, none, some, List, [], ◌∷◌, ◌++◌, ◌==◌, ltb,
  if◌then◌else◌, select, update, Text, text_eq, truthy, codes, strip, or_empty, is_prefix, after,
}
use incident.Models.{Incident, IntegrationEvent, EventStatus}
use incident.Session.{
  Tables, Result, ok, err, scalar_one_or_none, payload_too_large, unauthorized, misconfigured,
}
use incident.Mapper.{Payload, or_text}
use incident.Ingest.{Intake, has_sys_id, has_number, create_or_update_from_servicenow}
use incident.Engine.Settings.{Engine}
use incident.Engine.Process.{process_incident}
use incident.Engine.Assign.{flush_result}
use incident.Actions.{
  Act, pure, fail, ◌>>=◌, ◌>>◌, query, change, committing, rolling_back, catching, recovering,
  raising,
}

pub record Server : Type 0 where
  pub webhook_secret : Text
  pub is_guarded_environment : Bool
  pub event_id : ℕ
  pub failed_event_id : ℕ
  pub intake : Intake
  pub engine : Engine

pub record Headers : Type 0 where
  pub content_length : Option ℕ
  pub x_servicenow_secret : Option Text
  pub authorization : Option Text

pub data Response : Type 0 where
  processed :
      (incident_number : Text) (sys_id : Option Text) (is_new deduplicated : Bool) → Response
  error_logged : (incident_number : Text) → Response

abbrev pub max_webhook_payload_bytes : ℕ
max_webhook_payload_bytes = 1048576

unfoldable pub is_too_large : Option ℕ → Bool
is_too_large none = false
is_too_large (some n) = ltb max_webhook_payload_bytes n

-- The token of an `Authorization: Bearer` header.
unfoldable pub bearer : Option Text → Option Text
bearer none = none
bearer (some s) =
    if is_prefix (codes "Bearer ") s then some (strip (after (codes "Bearer ") s)) else none

unfoldable pub is_authentic : Text → Headers → Bool
is_authentic secret h =
    let provided = or_empty (or_text h.x_servicenow_secret (bearer h.authorization)) in
    truthy provided && text_eq provided secret

unfoldable pub known_number : Payload → Text
known_number p = if truthy p.number then p.number else codes "UNKNOWN"

unfoldable pub idempotency_key : Payload → Text
idempotency_key p =
    if truthy p.sys_id
    then codes "sn:" ++ (p.sys_id ++ (codes ":" ++ known_number p))
    else codes "sn:num:" ++ known_number p

unfoldable pub has_key : Text → IntegrationEvent → Bool
has_key key e = elim e.idempotency_key [ none ↦ false | some k ↦ text_eq k key ]

unfoldable pub event_of : Text → Tables → Result (Option IntegrationEvent)
event_of key t = scalar_one_or_none (select (has_key key) t.integration_events)

unfoldable pub incident_of : Payload → Tables → Result (Option Incident)
incident_of p t =
    scalar_one_or_none
      (select (λ n. has_sys_id p.sys_id n || has_number (known_number p) n) t.incidents)

unfoldable pub repeated_response : Payload → Option Incident → Response
repeated_response p none = processed (known_number p) (some p.sys_id) false true
repeated_response p (some n) = processed n.incident_number n.servicenow_sys_id false true

unfoldable pub deduplicate : Payload → Act Response
deduplicate p = query (incident_of p) >>= raising >>= λ n. pure (repeated_response p n)

unfoldable pub new_event : Server → Payload → IntegrationEvent
new_event c p = record {
  id = c.event_id;
  idempotency_key = some (idempotency_key p);
  incident_number = known_number p;
  status = EventStatus.received;
}

unfoldable pub failed_event : Server → Payload → IntegrationEvent
failed_event c p = record {
  id = c.failed_event_id;
  idempotency_key = none;
  incident_number = known_number p;
  status = EventStatus.failed;
}

unfoldable pub add_event : IntegrationEvent → Tables → Tables
add_event e t = record t { integration_events = t.integration_events ++ e ∷ [] }

abbrev pub as_processed : IntegrationEvent → IntegrationEvent
as_processed e = record e { status = EventStatus.processed }

unfoldable pub mark_processed : ℕ → Tables → Tables
mark_processed id t = record t {
  integration_events = update (λ e. e.id == id) as_processed t.integration_events;
}

unfoldable pub assign_new : Server → Incident × Bool → Act (Unit {0})
assign_new c (n, true) = process_incident c.engine false n >>= λ a. pure tt
assign_new c (n, false) = pure tt

unfoldable pub ingested : Incident × Bool → Response
ingested (n, is_new) = processed n.incident_number n.servicenow_sys_id is_new false

-- Steps 3 and 4.
unfoldable pub ingest : Server → Payload → Act Response
ingest c p = do
  out ← create_or_update_from_servicenow c.intake p
  assign_new c out
  change (mark_processed c.event_id)
  committing
  pure (ingested out)

unfoldable pub record_failure : Server → Payload → Act Response
record_failure c p = do
  rolling_back
  catching (change (add_event (failed_event c p)) >> committing) tt
  pure (error_logged (known_number p))

unfoldable pub if_flushed : Server → Payload → Result (Unit {0}) → Act Response
if_flushed c p (ok _) = recovering (ingest c p) (record_failure c p)
if_flushed c p (err _) = rolling_back >> deduplicate p

unfoldable pub unless_repeated : Server → Payload → Option IntegrationEvent → Act Response
unless_repeated c p (some e) = deduplicate p
unless_repeated c p none = change (add_event (new_event c p)) >> (flush_result >>= if_flushed c p)

unfoldable pub receive_authentic : Server → Payload → Act Response
receive_authentic c p = query (event_of (idempotency_key p)) >>= raising >>= unless_repeated c p

unfoldable pub receive_incident : Server → Headers → Payload → Act Response
receive_incident c h p =
    if is_too_large h.content_length
    then fail payload_too_large
    else if truthy c.webhook_secret && not (is_authentic c.webhook_secret h)
    then fail unauthorized
    else if not (truthy c.webhook_secret) && c.is_guarded_environment
    then fail misconfigured
    else receive_authentic c p
