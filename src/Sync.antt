-- ===== src/Sync.antt =====
-- services/sync_service.py: what is sent to ServiceNow, and the failures that are tried again.
pub mod Recovery
pub mod Guard
use incident.Prelude.{
  ℕ, zero, suc, ◌+◌, ◌*◌, ◌^◌, Bool, true, false, Option, none, some, List, [], ◌∷◌, ◌++◌, ◌==◌,
  ltb, leb, if◌then◌else◌, select, update, sort, length, get_or, Text,
}
use incident.Models.{
  Incident, IncidentState, SyncStatus, User, Employee, Field, assigned_to, state, SyncOperation,
  FailureStatus, SyncFailure,
}
use incident.Session.{Tables, Session, Result, ok, err, flush, commit, get_incident, put_incident}
use incident.ServiceNow.{
  Settings, Mode, Patch, Reply, Answer, skipped, updated, failed, update_incident,
}

pub record Client : Type 0 where
  pub config : Settings
  pub server : List Patch → Reply
  pub raises : ℕ → Bool

unfoldable pub patch_of : Incident → Field → Patch
patch_of inc field = record { sys_id = inc.servicenow_sys_id; field = field }

unfoldable pub send : Client → Option Mode → Patch → List Patch → Answer × List Patch
send c mode patch sent = update_incident c.config c.server c.raises mode patch sent

unfoldable pub current_mode : Settings → Mode
current_mode config = get_or config.stored_mode config.automation_mode

unfoldable pub new_failure : ℕ → ℕ → Incident → SyncOperation → Field → SyncFailure
new_failure now new_id inc operation payload = record {
  id = new_id;
  incident_id = some inc.id;
  operation = operation;
  payload = some payload;
  retry_count = 0;
  max_retries = 5;
  next_retry_at = some (now + 60);
  status = FailureStatus.pending;
  created_at = now;
  resolved_at = none;
}

unfoldable pub with_status : SyncStatus → Incident → Tables → Tables
with_status status inc t = put_incident t (record inc { sync_status = status })

-- The tail of both dispatches. The failure's row is flushed.
unfoldable pub recorded :
    ℕ → ℕ → Incident → SyncOperation → Field → Answer → Session → Result (Unit {0}) × Session
recorded now new_id inc operation field skipped s = (ok tt, s)
recorded now new_id inc operation field updated s =
    (ok tt, record s { rows = with_status SyncStatus.synced inc s.rows })
recorded now new_id inc operation field failed s =
    let t = with_status SyncStatus.sync_failed inc s.rows in
    let s' = record s {
      rows = record t {
        sync_failures = t.sync_failures ++ new_failure now new_id inc operation field ∷ [];
      };
    } in
    (flush s', s')

unfoldable pub dispatched :
    Client
    → ℕ
    → ℕ
    → Incident
    → SyncOperation
    → Field
    → List Patch
    → Session
    → Result (Unit {0}) × Session × List Patch
dispatched c now new_id inc operation field sent s =
    let (answer, sent') = send c (some (current_mode c.config)) (patch_of inc field) sent in
    let (r, s') = recorded now new_id inc operation field answer s in (r, s', sent')

module _ (default_name : Text) where
  unfoldable pub sync_assignment_to_servicenow :
      Client
      → ℕ
      → ℕ
      → Incident
      → Option User
      → List Patch
      → Session
      → Result (Unit {0}) × Session × List Patch
  sync_assignment_to_servicenow c now new_id inc user sent s =
      let name : Text = elim user [ none ↦ default_name | some u ↦ u.full_name ] in
      dispatched c now new_id inc SyncOperation.update_assignment (assigned_to (some name)) sent s

unfoldable pub sync_status_to_servicenow :
    Client
    → ℕ
    → ℕ
    → Incident
    → IncidentState
    → List Patch
    → Session
    → Result (Unit {0}) × Session × List Patch
sync_status_to_servicenow c now new_id inc new_state sent s =
    dispatched c now new_id inc SyncOperation.update_status (state (some new_state)) sent s

unfoldable pub is_retryable : FailureStatus → Bool
is_retryable FailureStatus.pending = true
is_retryable FailureStatus.retrying = true
is_retryable _ = false

older : SyncFailure → SyncFailure → Bool
older a b = leb a.created_at b.created_at

-- LIMIT.
take {ℓ} : {A : Type ℓ} → ℕ → List A → List A
take zero xs = []
take (suc n) [] = []
take (suc n) (x ∷ xs) = x ∷ take n xs

unfoldable pub batch : Tables → List SyncFailure
unfolding older take
batch t = take 50 (sort older (select (λ f. is_retryable f.status) t.sync_failures))

-- The `assigned_to` and the `state` of a payload.
stored_assignee : Field → Option Text
stored_assignee (assigned_to name) = name
stored_assignee (state word) = none

stored_state : Field → Option IncidentState
stored_state (assigned_to name) = none
stored_state (state word) = word

-- What is sent again: the payload, or the incident as it is now if there is none. For another
-- operation nothing is sent, and no exception is raised.
unfoldable pub send_again :
    Client → SyncOperation → Option Field → Incident → List Patch → Answer × List Patch
unfolding stored_assignee stored_state
send_again c SyncOperation.update_assignment none inc sent =
    send c none (patch_of inc (assigned_to inc.assigned_to)) sent
send_again c SyncOperation.update_assignment (some p) inc sent =
    send c none (patch_of inc (assigned_to (stored_assignee p))) sent
send_again c SyncOperation.update_status none inc sent =
    send c none (patch_of inc (state (some inc.state))) sent
send_again c SyncOperation.update_status (some p) inc sent =
    send c none (patch_of inc (state (stored_state p))) sent
send_again c _ payload inc sent = (updated, sent)

pub record Run : Type 0 where
  pub rows : Tables
  pub patches : List Patch
  pub recovered : ℕ
  pub dead_lettered : ℕ

unfoldable pub put_failure : SyncFailure → Tables → Tables
put_failure f t = record t { sync_failures = update (λ g. g.id == f.id) (λ _. f) t.sync_failures }

unfoldable pub counted : SyncFailure → SyncFailure
counted f = record f { retry_count = f.retry_count + 1 }

unfoldable pub dead : SyncFailure → SyncFailure
dead f = record f { status = FailureStatus.dead_letter }

unfoldable pub resolved_now : ℕ → SyncFailure → SyncFailure
resolved_now now f = record f { status = FailureStatus.resolved; resolved_at = some now }

-- In seconds: `timedelta(minutes=2 ** retry_count)`.
unfoldable pub postponed : ℕ → SyncFailure → SyncFailure
postponed now f = record f {
  status = FailureStatus.retrying;
  next_retry_at = some (now + 60 * 2 ^ f.retry_count);
}

unfoldable pub bury : SyncFailure → Run → Run
bury f r = record r { rows = put_failure (dead f) r.rows; dead_lettered = r.dead_lettered + 1 }

unfoldable pub settle : ℕ → SyncFailure → Incident → Answer × List Patch → Run → Run
settle now f inc (failed, sent) r = record r {
  rows = put_failure (postponed now f) r.rows;
  patches = sent;
}
settle now f inc (answer, sent) r = record r {
  rows = with_status SyncStatus.synced inc (put_failure (resolved_now now f) r.rows);
  patches = sent;
  recovered = r.recovered + 1;
}

unfoldable pub resend : Client → ℕ → SyncFailure → Option Incident → Run → Run
resend c now f none r = bury f r
resend c now f (some inc) r = settle now f inc (send_again c f.operation f.payload inc r.patches) r

unfoldable pub incident_of : Tables → SyncFailure → Option Incident
incident_of t f = elim f.incident_id [ none ↦ none | some i ↦ get_incident t i ]

unfoldable pub retry : Client → ℕ → SyncFailure → Run → Run
retry c now f r =
    if ltb f.max_retries (f.retry_count + 1)
    then bury (counted f) r
    else resend c now (counted f) (incident_of r.rows f) r

unfoldable pub retry_all : Client → ℕ → List SyncFailure → Run → Run
retry_all c now [] r = r
retry_all c now (f ∷ fs) r = retry_all c now fs (retry c now f r)

pub record Summary : Type 0 where
  pub processed : ℕ
  pub recovered : ℕ
  pub dead_lettered : ℕ

unfoldable pub attempted : Client → ℕ → List Patch → Tables → Run
attempted c now sent t =
    retry_all c now (batch t)
      (record { rows = t; patches = sent; recovered = 0; dead_lettered = 0 })

reported : ℕ → Run → Result (Unit {0}) → Result Summary
reported n r (ok _) =
    ok (record { processed = n; recovered = r.recovered; dead_lettered = r.dead_lettered })
reported n r (err e) = err e

unfoldable pub retry_failed_syncs :
    Client → ℕ → List Patch → Session → Result Summary × Session × List Patch
unfolding reported
retry_failed_syncs c now sent s =
    let r = attempted c now sent s.rows in
    let (done, s') = commit (record s { rows = r.rows }) in
    (reported (length (batch s.rows)) r done, s', r.patches)
