-- ===== src/Handoff/Writes.antt =====
-- What the steps of a hand-off leave of the assignments.
use incident.Prelude.{ℕ, Option, none, some, List, ◌≡◌, ◌∙◌, refl, ap, sym, Bool-split, Text}
use incident.Models.{User, Incident, all_unique, NotificationType, SyncOperation, Field}
use incident.Session.{Tables, Session, Result, Error, ok, err, commit, put_incident, log}
use incident.ServiceNow.{Answer, skipped, updated, failed, Patch}
use incident.Sync.{Client, recorded, dispatched, sync_assignment_to_servicenow, with_status}
use incident.Notices.{create_notification, added, announced, repeated}
use incident.Actions.{World}
use incident.Handoff.{Config, Handover, notify, committed_as, orphaned, followed_up, flushed}

-- The assignments are as they were.
abbrev pub Keeps : Session → Session → Type 0
Keeps s s' = s'.rows.assignments ≡ s.rows.assignments

announced-Keeps :
    (user_id : ℕ) (s : Session) (r : Result (Unit {0})) → Keeps s (announced user_id s r).1
unfolding announced
announced-Keeps user_id s (ok x) = refl
announced-Keeps user_id s (err x) = refl

pub notify-Keeps :
    (type : NotificationType) (incident_id : ℕ) (u : Option User) (s : Session)
    → Keeps s (notify type incident_id u s)
unfolding notify create_notification added repeated
notify-Keeps type incident_id none s = refl
notify-Keeps type incident_id (some u) s = announced-Keeps u.id _ _

recorded-Keeps :
    (now new_id : ℕ) (inc : Incident) (op : SyncOperation) (field : Field) (a : Answer)
    (s : Session)
    → Keeps s (recorded now new_id inc op field a s).1
unfolding recorded with_status put_incident
recorded-Keeps now new_id inc op field skipped s = refl
recorded-Keeps now new_id inc op field updated s = refl
recorded-Keeps now new_id inc op field failed s = refl

pub sync_assignment-Keeps :
    (name : Text) (c : Client) (now new_id : ℕ) (inc : Incident) (u : Option User)
    (sent : List Patch) (s : Session)
    → Keeps s (sync_assignment_to_servicenow name c now new_id inc u sent s).1
unfolding sync_assignment_to_servicenow dispatched
sync_assignment-Keeps name c now new_id inc u sent s = recorded-Keeps now new_id inc _ _ _ s

out_or : Option Handover → Result (Option Handover) → Option Handover
out_or d (ok out) = out
out_or d (err x) = d

not_err : {x : Error} (out : Option Handover) → err x ≡ ok out → ⊥
not_err out h = cc

pub none≢some : {h : Handover} → none ≡ some h → ⊥
none≢some h = cc

-- A hand-off that answers has committed its rows.
committed_as-saved :
    (out : Option Handover) (s : Session) (sent : List Patch) {out' : Option Handover} {w' : World}
    → committed_as out (commit s) sent ≡ (ok out', w')
    → (out ≡ out') × (w'.session.saved ≡ s.rows)
unfolding committed_as commit out_or
committed_as-saved out s sent {out' = out'} {w' = w'} h =
    Bool-split (all_unique s.rows.assignments)
      (λ t.
        let k = rw t at h in
        (
          ap (λ (r : Result (Option Handover) × World). out_or out' r.0) k,
          ap (λ (r : Result (Option Handover) × World). r.1.session.saved) (sym k),
        ))
      (λ f. absurd (not_err out' (ap (λ (r : Result (Option Handover) × World). r.0) (rw f at h))))

pub followed_up-saved :
    (c : Config) (x : Handover) (inc : Incident) (w : World) {out : Option Handover} {w' : World}
    → followed_up c x inc w ≡ (ok out, w')
    → (some x ≡ out) × (w'.session.saved.assignments ≡ w.session.rows.assignments)
unfolding followed_up log
followed_up-saved c x inc w h =
    let (same, saved) = committed_as-saved (some x) _ _ h in
    (
      same,
      ap (λ (t : Tables). t.assignments) saved
          ∙ notify-Keeps _ _ _ _
          ∙ notify-Keeps _ _ _ _
          ∙ sync_assignment-Keeps _ _ _ _ _ _ _ _,
    )

pub flushed-saved :
    (c : Config) (x : Handover) (inc : Incident) (w : World) (r : Result (Unit {0}))
    {out : Option Handover} {w' : World}
    → flushed c x inc w r ≡ (ok out, w')
    → (some x ≡ out) × (w'.session.saved.assignments ≡ w.session.rows.assignments)
unfolding flushed
flushed-saved c x inc w (ok _) h = followed_up-saved c x inc w h
flushed-saved c x inc w (err e) {out = out} h =
    absurd (not_err out (ap (λ (r : Result (Option Handover) × World). r.0) h))

pub orphaned-none :
    (inc : Incident) (w : World) {h : Handover} {w' : World}
    → orphaned inc w ≡ (ok (some h), w')
    → ⊥
unfolding orphaned
orphaned-none inc w h = none≢some (committed_as-saved none _ _ h).0
