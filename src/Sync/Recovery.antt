-- ===== src/Sync/Recovery.antt =====
-- What a run over the failures does to them.
use incident.Prelude.{
  ℕ, suc, ◌+◌, ◌≤◌, Bool, true, Option, none, some, List, [], ◌∷◌, ◌==◌, ltb, ◌≡◌, ◌⊎◌, inl, inr,
  refl, ◌∙◌, sym, subst, zero, arith, Memᴰ, Bool-split, select, update, mem-select, mem-sort, sort,
}
use incident.Models.{all_unique, Incident, SyncFailure}
use incident.Session.{Tables, Session, commit, put_incident}
use incident.ServiceNow.{Patch, Answer, skipped, updated, failed}
use incident.Sync.{
  Client, batch, is_retryable, Run, put_failure, counted, dead, resolved_now, postponed, bury,
  settle, resend, incident_of, retry, retry_all, attempted, retry_failed_syncs, send_again,
  with_status, older, take,
}

-- What a failure becomes: dead, resolved, or put off by two to the number of tries in minutes while
-- tries are left.
pub data Settles (now : ℕ) (f g : SyncFailure) : Type 0 where
  buried : g ≡ dead (counted f) → Settles now f g
  done : f.retry_count + 1 ≤ f.max_retries → g ≡ resolved_now now (counted f) → Settles now f g
  put_off : f.retry_count + 1 ≤ f.max_retries → g ≡ postponed now (counted f) → Settles now f g

-- A row after the run: one from before, or what has become of a failure that was to be tried.
pub data Follows (now : ℕ) (before : Tables) (g : SyncFailure) : Type 0 where
  kept : Memᴰ g before.sync_failures → Follows now before g
  tried :
      (f : SyncFailure)
      → Memᴰ f before.sync_failures
      → is_retryable f.status ≡ true
      → Settles now f g
      → Follows now before g

pub AllFollow : ℕ → Tables → Tables → Type 0
AllFollow now before t = (g : SyncFailure) → Memᴰ g t.sync_failures → Follows now before g

mem-update_const :
    (p : SyncFailure → Bool) (f : SyncFailure) (rows : List SyncFailure) {g : SyncFailure}
    → Memᴰ g (update p (λ _. f) rows)
    → Memᴰ g rows ⊎ g ≡ f
unfolding update
mem-update_const p f [] m = elim m [ ]
mem-update_const p f (x ∷ rows) (Memᴰ.head same) =
    Bool-split (p x) (λ t. inr (same ∙ rw t refl)) (λ n. inl (Memᴰ.head (same ∙ rw n refl)))
mem-update_const p f (x ∷ rows) (Memᴰ.tail m) = elim (mem-update_const p f rows m) [
  | inl k ↦ inl (Memᴰ.tail k)
  | inr same ↦ inr same
]

put_failure-AllFollow :
    (now : ℕ) (before t : Tables) (f : SyncFailure)
    → Follows now before f
    → AllFollow now before t
    → AllFollow now before (put_failure f t)
unfolding AllFollow put_failure
put_failure-AllFollow now before t f h all g m =
    elim (mem-update_const (λ g. g.id == f.id) f t.sync_failures m) [
      | inl k ↦ all g k
      | inr same ↦ subst (λ x. Follows now before x) (sym same) h
    ]

module _ (c : Client) (now : ℕ) (before : Tables) where
  settle-AllFollow :
      (f : SyncFailure) (inc : Incident) (a : Answer × List Patch) (r : Run)
      → Follows now before (resolved_now now f)
      → Follows now before (postponed now f)
      → AllFollow now before r.rows
      → AllFollow now before (settle now f inc a r).rows
  unfolding settle with_status put_incident AllFollow
  settle-AllFollow f inc (failed, sent) r h k all =
      put_failure-AllFollow now before r.rows (postponed now f) k all
  settle-AllFollow f inc (updated, sent) r h k all =
      put_failure-AllFollow now before r.rows (resolved_now now f) h all
  settle-AllFollow f inc (skipped, sent) r h k all =
      put_failure-AllFollow now before r.rows (resolved_now now f) h all

  resend-AllFollow :
      (f : SyncFailure) (inc : Option Incident) (r : Run)
      → Follows now before (dead f)
      → Follows now before (resolved_now now f)
      → Follows now before (postponed now f)
      → AllFollow now before r.rows
      → AllFollow now before (resend c now f inc r).rows
  unfolding resend bury
  resend-AllFollow f none r d h k all = put_failure-AllFollow now before r.rows (dead f) d all
  resend-AllFollow f (some inc) r d h k all =
      settle-AllFollow f inc (send_again c f.operation f.payload inc r.patches) r h k all

  retry-AllFollow :
      (f : SyncFailure) (r : Run)
      → Memᴰ f before.sync_failures
      → is_retryable f.status ≡ true
      → AllFollow now before r.rows
      → AllFollow now before (retry c now f r).rows
  unfolding retry bury
  retry-AllFollow f r m waits all =
      Bool-split (ltb f.max_retries (f.retry_count + 1))
        (λ t. rw t (
          put_failure-AllFollow now before r.rows (dead (counted f)) (tried f m waits (buried refl))
            all))
        (λ n. rw n (
          let left : f.retry_count + 1 ≤ f.max_retries = ground arith in
          resend-AllFollow (counted f) (incident_of r.rows f) r (tried f m waits (buried refl))
            (tried f m waits (done left refl)) (tried f m waits (put_off left refl)) all))

  retry_all-AllFollow :
      (fs : List SyncFailure) (r : Run)
      → ((f : SyncFailure)
          → Memᴰ f fs
          → Memᴰ f before.sync_failures × (is_retryable f.status ≡ true))
      → AllFollow now before r.rows
      → AllFollow now before (retry_all c now fs r).rows
  unfolding retry_all
  retry_all-AllFollow [] r h all = all
  retry_all-AllFollow (f ∷ fs) r h all =
      let (m, waits) = h f (Memᴰ.head refl) in
      retry_all-AllFollow fs (retry c now f r) (λ g k. h g (Memᴰ.tail k))
        (retry-AllFollow f r m waits all)

mem-take {ℓ} : {A : Type ℓ} (n : ℕ) (xs : List A) {a : A} → Memᴰ a (take n xs) → Memᴰ a xs
unfolding take
mem-take zero xs m = elim m [ ]
mem-take (suc n) [] m = elim m [ ]
mem-take (suc n) (x ∷ xs) (Memᴰ.head e) = Memᴰ.head e
mem-take (suc n) (x ∷ xs) (Memᴰ.tail m) = Memᴰ.tail (mem-take n xs m)

mem-batch :
    (t : Tables) (f : SyncFailure)
    → Memᴰ f (batch t)
    → Memᴰ f t.sync_failures × (is_retryable f.status ≡ true)
unfolding batch
mem-batch t f m =
    let waits : SyncFailure → Bool = λ g. is_retryable g.status in
    mem-select waits t.sync_failures (
      mem-sort older (select waits t.sync_failures)
        (mem-take 50 (sort older (select waits t.sync_failures)) m))

attempted-AllFollow :
    (c : Client) (now : ℕ) (sent : List Patch) (t : Tables)
    → AllFollow now t (attempted c now sent t).rows
unfolding attempted AllFollow
attempted-AllFollow c now sent t =
    retry_all-AllFollow c now t (batch t)
      (record { rows = t; patches = sent; recovered = 0; dead_lettered = 0 }) (mem-batch t)
      (λ g m. kept m)

-- After a run each failure is as before, or was waiting and is dead, resolved or put off; one that is
-- resolved or put off had a try left.
pub retry_failed_syncs-AllFollow :
    (c : Client) (now : ℕ) (sent : List Patch) (s : Session)
    → AllFollow now s.rows (retry_failed_syncs c now sent s).1.rows
unfolding retry_failed_syncs commit
retry_failed_syncs-AllFollow c now sent s =
    Bool-split (all_unique (attempted c now sent s.rows).rows.assignments)
      (λ t. rw t (attempted-AllFollow c now sent s.rows))
      (λ f. rw f (attempted-AllFollow c now sent s.rows))
