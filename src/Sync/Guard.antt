-- ===== src/Sync/Guard.antt =====
-- What a run over the failures sends while the settings prohibit updates.
use incident.Prelude.{
  ℕ, ◌+◌, Bool, true, Option, none, some, List, [], ◌∷◌, ltb, ◌≡◌, refl, arith, ◌∙◌, ap, Bool-split,
  length, subst,
}
use incident.Models.{all_unique, Incident, Field, SyncOperation, SyncFailure}
use incident.Session.{Tables, Session, Result, Error, ok, err, commit}
use incident.ServiceNow.{Settings, Mode, Patch, Reply, skipped, is_prohibited, update_incident}
use incident.Sync.{
  Client, send, batch, Run, counted, bury, settle, resend, incident_of, retry, retry_all, attempted,
  retry_failed_syncs, send_again, Summary, reported,
}

-- An update that the mode or the settings prohibit sends nothing.
pub update_incident_skipped :
    (config : Settings) (server : List Patch → Reply) (raises : ℕ → Bool) (mode : Option Mode)
    (patch : Patch) (sent : List Patch)
    → is_prohibited config mode ≡ true
    → update_incident config server raises mode patch sent ≡ (skipped, sent)
unfolding update_incident
update_incident_skipped config server raises mode patch sent h = rw h refl

-- One more failure is accounted for, and nothing has been sent.
Closes : Run → Run → Type 0
Closes r r' =
    (r'.patches ≡ r.patches) × (r'.recovered + r'.dead_lettered ≡ r.recovered + r.dead_lettered + 1)

answer_or : Summary → Result Summary → Summary
answer_or d (ok x) = x
answer_or d (err e) = d

not_err : {e : Error} (d : Summary) → err e ≡ ok d → ⊥
not_err d h = cc

module _ (c : Client) (now : ℕ) (guard : is_prohibited c.config none ≡ true) where
  send_skipped : (patch : Patch) (sent : List Patch) → send c none patch sent ≡ (skipped, sent)
  unfolding send
  send_skipped patch sent = update_incident_skipped c.config c.server c.raises none patch sent guard

  settle-Closes :
      (f : SyncFailure) (inc : Incident) (op : SyncOperation) (payload : Option Field) (r : Run)
      → Closes r (settle now f inc (send_again c op payload inc r.patches) r)
  unfolding settle send_again Closes
  settle-Closes f inc SyncOperation.update_assignment none r =
      rw (send_skipped _ r.patches) (refl, omega arith)
  settle-Closes f inc SyncOperation.update_assignment (some p) r =
      rw (send_skipped _ r.patches) (refl, omega arith)
  settle-Closes f inc SyncOperation.update_status none r =
      rw (send_skipped _ r.patches) (refl, omega arith)
  settle-Closes f inc SyncOperation.update_status (some p) r =
      rw (send_skipped _ r.patches) (refl, omega arith)
  settle-Closes f inc SyncOperation.group_notice_email payload r = (refl, omega arith)
  settle-Closes f inc SyncOperation.email_delivery payload r = (refl, omega arith)

  bury-Closes : (f : SyncFailure) (r : Run) → Closes r (bury f r)
  unfolding bury Closes
  bury-Closes f r = (refl, omega arith)

  resend-Closes :
      (f : SyncFailure) (inc : Option Incident) (r : Run) → Closes r (resend c now f inc r)
  unfolding resend
  resend-Closes f none r = bury-Closes f r
  resend-Closes f (some inc) r = settle-Closes f inc f.operation f.payload r

  retry-Closes : (f : SyncFailure) (r : Run) → Closes r (retry c now f r)
  unfolding retry
  retry-Closes f r =
      Bool-split (ltb f.max_retries (f.retry_count + 1)) (λ t. rw t (bury-Closes (counted f) r))
        (λ n. rw n (resend-Closes (counted f) (incident_of r.rows f) r))

  retry_all-closed :
      (fs : List SyncFailure) (r : Run)
      → let r' = retry_all c now fs r in
        (r'.patches ≡ r.patches)
        × (r'.recovered + r'.dead_lettered ≡ r.recovered + r.dead_lettered + length fs)
  unfolding retry_all Closes
  retry_all-closed [] r = (refl, omega arith)
  retry_all-closed (f ∷ fs) r =
      let (same, one) = retry-Closes f r in
      let (rest, all) = retry_all-closed fs (retry c now f r) in
      (rest ∙ same, omega (arith, one, all))

  attempted-closed :
      (sent : List Patch) (t : Tables)
      → let r = attempted c now sent t in
        (r.patches ≡ sent) × (r.recovered + r.dead_lettered ≡ length (batch t))
  unfolding attempted
  attempted-closed sent t =
      let (same, all) =
        retry_all-closed (batch t)
          (record { rows = t; patches = sent; recovered = 0; dead_lettered = 0 }) in
      (same, omega (arith, all))

  -- While the settings prohibit updates a run sends nothing, and yet all that it answers to have
  -- processed are recovered or dead.
  pub retry_failed_syncs-guarded :
      (sent : List Patch) (s : Session) (report : Summary)
      → (retry_failed_syncs c now sent s).0 ≡ ok report
      → ((retry_failed_syncs c now sent s).2 ≡ sent)
        × (report.recovered + report.dead_lettered ≡ report.processed)
  unfolding retry_failed_syncs reported commit answer_or
  retry_failed_syncs-guarded sent s report h =
      let (same, all) = attempted-closed sent s.rows in
      Bool-split (all_unique (attempted c now sent s.rows).rows.assignments)
        (λ t.
          let k = ap (answer_or report) (rw t at h) in
          (same, subst (λ (x : Summary). x.recovered + x.dead_lettered ≡ x.processed) k all))
        (λ f. absurd (not_err report (rw f at h)))
