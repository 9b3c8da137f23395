-- ===== src/Tests/Sync.antt =====
-- Runs of the synchronisation with ServiceNow, and its theorems at the sample tables.
use incident.Prelude.{
  ◌+◌, true, false, none, some, [], ◌∷◌, ◌≡◌, refl, leb, length, codes, if◌then◌else◌,
}
use incident.Models.{assigned_to, FailureStatus, SyncFailure, SyncOperation}
use incident.Session.{Session, ok}
use incident.ServiceNow.{
  Mode, Patch, status, connection_error, response, attempt, execute, execute_with_retry, is_guarded,
  is_prohibited, answer_of, update_incident,
}
use incident.ServiceNow.Retries.{Settled, execute_with_retry-Settled}
use incident.Sync.{
  Client, Summary, patch_of, send, batch, is_retryable, put_failure, counted, dead, resolved_now,
  postponed, bury, settle, resend, incident_of, retry, retry_all, attempted, retry_failed_syncs,
  send_again, with_status,
}
use incident.Sync.Recovery.{AllFollow, retry_failed_syncs-AllFollow}
use incident.Sync.Guard.{retry_failed_syncs-guarded}
use incident.Tests.{runs, tables, session, outage}

abbrev by_mode : Mode → Client
by_mode mode = record {
  config = record {
    automation_mode = mode;
    shadow_mode = false;
    dry_run_mode = false;
    stored_mode = none;
  };
  server = λ sent. if leb 2 (length sent) then status 200 else connection_error;
  raises = leb 400;
}

abbrev failure : SyncFailure
failure = record {
  id = 70;
  incident_id = some 50;
  operation = SyncOperation.update_assignment;
  payload = some (assigned_to (some (codes "Engineer")));
  retry_count = 1;
  max_retries = 5;
  next_retry_at = none;
  status = FailureStatus.retrying;
  created_at = 900;
  resolved_at = none;
}

abbrev waiting : Session
waiting = record session {
  rows = record tables {
    sync_failures =
        failure
        ∷ record failure { id = 71; incident_id = none }
        ∷ record failure { id = 72; retry_count = 5 }
        ∷ [];
  };
}

abbrev patch : Patch
patch = patch_of outage (assigned_to none)

syncs : Unit {0}
unfolding attempt execute execute_with_retry is_guarded is_prohibited answer_of update_incident send
    batch is_retryable put_failure counted dead resolved_now postponed bury settle resend
    incident_of retry retry_all attempted retry_failed_syncs send_again with_status
syncs = tt

second_try :
    execute_with_retry (by_mode Mode.live).server patch [] ≡ (response 200, patch ∷ patch ∷ [])
unfolding runs syncs
second_try = refl

abbrev report : Summary
report = record { processed = 3; recovered = 1; dead_lettered = 2 }

live_run : (retry_failed_syncs (by_mode Mode.live) 1000 [] waiting).0 ≡ ok report
unfolding runs syncs
live_run = refl

shadow_run : (retry_failed_syncs (by_mode Mode.shadow) 1000 [] waiting).0 ≡ ok report
unfolding runs syncs
shadow_run = refl

execute_with_retry-Settled_example :
    Settled
      (by_mode Mode.live).server
      patch
      2
      []
      (execute_with_retry (by_mode Mode.live).server patch [])
execute_with_retry-Settled_example = execute_with_retry-Settled (by_mode Mode.live).server patch []

retry_failed_syncs-AllFollow_example :
    AllFollow 1000 waiting.rows (retry_failed_syncs (by_mode Mode.live) 1000 [] waiting).1.rows
retry_failed_syncs-AllFollow_example =
    retry_failed_syncs-AllFollow (by_mode Mode.live) 1000 [] waiting

guarded : is_prohibited (by_mode Mode.shadow).config none ≡ true
unfolding syncs
guarded = refl

guarded_example :
    ((retry_failed_syncs (by_mode Mode.shadow) 1000 [] waiting).2 ≡ [])
    × (report.recovered + report.dead_lettered ≡ report.processed)
guarded_example =
    retry_failed_syncs-guarded (by_mode Mode.shadow) 1000 guarded [] waiting report shadow_run
