-- ===== src/Tests/Webhook.antt =====
-- The theorems on the intake from ServiceNow at the sample tables.
use incident.Prelude.{
  true, false, none, some, [], ◌∷◌, ◌≡◌, refl, codes, select, text_eq, is_prefix, after,
}
use incident.Models.{all_unique, EventStatus, IntegrationEvent, Incident}
use incident.Session.{flush, ok, err, multiple_results, scalar_one_or_none}
use incident.ServiceNow.{Mode}
use incident.Mapper.{
  Payload, plain, or_text, extract_display_value, map_priority, map_state, get_text, to_incident,
}
use incident.Actions.{World, query, pure, raising, ◌>>=◌}
use incident.Engine.Settings.{is_group}
use incident.Ingest.{
  Intake, has_sys_id, has_number, find_by, or_by_number, find_existing, resolve_task_instructions,
  instructions_of, create_incident, update_or_create, create_or_update_from_servicenow,
}
use incident.Ingest.Lookup.{taken_in, with_incident, create_or_update-RoundTrips}
use incident.Webhook.{
  Server, Headers, error_logged, receive_incident, is_too_large, is_authentic, bearer,
  idempotency_key, known_number, has_key, incident_of, event_of, repeated_response, ingest,
  add_event, new_event,
}
use incident.Webhook.Replays.{is_admitted, receive_incident-Repeats}
use incident.Webhook.Failures.{with_event, after_failure, receive_incident-Fails}
use incident.Tests.{runs, tables, session, network}
use incident.Tests.Engine.{engine, world}

abbrev intake : Intake
intake = record {
  incident_id = 60;
  generated_number = codes "INC0";
  task = λ m. none;
  ilike = λ s t. false;
}

abbrev server : Server
server = record {
  webhook_secret = codes "secret";
  is_guarded_environment = true;
  event_id = 70;
  failed_event_id = 71;
  intake = intake;
  engine = engine Mode.live;
}

abbrev headers : Headers
headers = record {
  content_length = some 400;
  x_servicenow_secret = none;
  authorization = some (codes "Bearer secret");
}

abbrev payload : Payload
payload = record {
  sys_id = codes "abc";
  number = codes "INC7";
  priority = some (codes "1 - Critical");
  state = some (codes "2");
  assignment_group = some (plain (codes "Network"));
  assigned_to = none;
  work_notes = none;
  u_work_notes = none;
  u_work_instructions = none;
}

abbrev solved : Payload
solved = record payload { state = some (codes "6"); priority = none }

intakes : Unit {0}
unfolding text_eq is_prefix after flush scalar_one_or_none query pure raising ◌>>=◌ is_group or_text
    extract_display_value map_priority map_state get_text to_incident has_sys_id has_number find_by
    or_by_number find_existing resolve_task_instructions instructions_of create_incident
    update_or_create create_or_update_from_servicenow is_too_large is_authentic bearer
    idempotency_key known_number has_key incident_of event_of ingest add_event new_event is_admitted
intakes = tt

admitted : is_admitted server headers ≡ true
unfolding runs intakes
admitted = refl

abbrev event : IntegrationEvent
event = record {
  id = 69;
  idempotency_key = some (codes "sn:abc:INC7");
  incident_number = codes "INC7";
  status = EventStatus.processed;
}

abbrev seen : World
seen = record (world []) {
  session = record session { rows = record tables { integration_events = event ∷ [] } };
}

clean_seen : flush seen.session ≡ ok tt
unfolding runs intakes
clean_seen = refl

key_seen : select (has_key (idempotency_key payload)) (event ∷ []) ≡ event ∷ []
unfolding runs intakes
key_seen = refl

no_incident : incident_of solved seen.session.rows ≡ ok none
unfolding runs intakes
no_incident = refl

repeats_webhook_example :
    receive_incident server headers solved seen ≡ (ok (repeated_response solved none), seen)
repeats_webhook_example =
    receive_incident-Repeats server headers payload solved seen event none admitted clean_seen refl
      refl key_seen no_incident

-- Two teams that the group's name fits.
abbrev ambiguous : World
ambiguous = record (world []) {
  session = record session {
    rows = record tables { teams = network ∷ record network { id = 8 } ∷ [] };
    saved = tables;
  };
}

clean_ambiguous : flush ambiguous.session ≡ ok tt
unfolding runs intakes
clean_ambiguous = refl

unseen : event_of (idempotency_key payload) ambiguous.session.rows ≡ ok none
unfolding runs intakes
unseen = refl

raised :
    ingest server payload (with_event server payload ambiguous)
    ≡ (err multiple_results, with_event server payload ambiguous)
unfolding runs intakes
raised = refl

kept : all_unique ambiguous.session.saved.assignments ≡ true
unfolding runs
kept = refl

fails_example : receive_incident server headers payload ambiguous ≡ (
  ok (error_logged (known_number payload)),
  after_failure server payload (with_event server payload ambiguous),
)
fails_example =
    receive_incident-Fails server headers payload ambiguous (with_event server payload ambiguous)
      multiple_results admitted clean_ambiguous unseen raised kept

clean : flush (world []).session ≡ ok tt
unfolding runs intakes
clean = refl

new_id : select (has_sys_id payload.sys_id) (world []).session.rows.incidents ≡ []
unfolding runs intakes
new_id = refl

new_number : select (has_number payload.number) (world []).session.rows.incidents ≡ []
unfolding runs intakes
new_number = refl

no_task :
    instructions_of intake
      (to_incident payload).work_instructions
      none
      (to_incident payload).assignment_group
      (world [])
    ≡ (ok none, world [])
unfolding runs intakes
no_task = refl

abbrev made : Incident
made = taken_in intake payload (world []) none clean new_id new_number no_task

round_trips_example :
    (create_or_update_from_servicenow intake payload (world [])
      ≡ (ok (made, true), with_incident made (world [])))
    × (find_existing solved (with_incident made (world []))
        ≡ (ok (some made), with_incident made (world [])))
round_trips_example =
    create_or_update-RoundTrips intake payload (world []) none clean new_id new_number no_task
      solved refl refl
