-- ===== src/Engine/Members/Sealing.antt =====
-- services/assignment_engine.py, `assign_group`: from the validation of the team to the commit.
use incident.Prelude.{
  ℕ, true, false, ◌&&◌, Option, none, some, List, [], ◌∷◌, ◌==◌, ◌≡◌, refl, sym, ap, ◌∙◌, subst,
  if◌then◌else◌, length, Memᴰ, All, Text, find?, text_eq,
}
use incident.Models.{
  Employee, Team, Incident, IncidentAssignment, AuditAction, NotificationType, Notification,
}
use incident.Session.{Tables, Session, Dispatch, Result, ok, err, value_error, put_incident}
use incident.Notices.{create_notification, added, announced, repeated}
use incident.Engine.Settings.{Engine}
use incident.Engine.Repetition.{GroupOutcome}
use incident.Engine.Group.{
  holder_ids, employee_ids, distinct_ids, complete_cycle, tell_members, tell_group, seal_members,
  assign_members, new_cycle, unless_known, take_members,
}
use incident.Engine.Members.{Taken, Covered, take_members-Covered}
use incident.Actions.{
  World, query, change, flushing, committing, rolling_back, fail, emit, logging, in_session, pure,
  ◌>>◌,
}
use incident.Actions.Keeps.{Keeps, pure-Keeps, seq-Keeps, catching-Keeps, flushing-Keeps}
use incident.Actions.Inversion.{bind_inv, pure_inv, flushing_inv, guard_inv, committing_inv}

abbrev saved : World → Tables
saved w = w.session.saved

announced-saved :
    (user_id : ℕ) (s : Session) (r : Result (Unit {0})) → (announced user_id s r).1.saved ≡ s.saved
unfolding announced
announced-saved user_id s (ok x) = refl
announced-saved user_id s (err e) = refl

added-saved :
    (n : Notification) (s : Session) (rows : List Notification) → (added n s rows).1.saved ≡ s.saved
unfolding added
added-saved n s [] = announced-saved n.user_id _ _
added-saved n s (m ∷ []) = refl
added-saved n s (m ∷ l ∷ rows) = refl

tell_one-Keeps :
    (incident_id : ℕ) (e : Employee) (a : IncidentAssignment) (d : Dispatch)
    → Keeps saved (
        in_session (
          create_notification NotificationType.incident_assigned
            (some incident_id)
            (some a.id)
            e.user_id)
        >> emit d)
unfolding in_session emit create_notification
tell_one-Keeps incident_id e a d =
    seq-Keeps saved _ _
      (λ w. added-saved _ w.session (
        repeated NotificationType.incident_assigned e.user_id (some a.id)
          w.session.rows.notifications))
      (λ w. refl)

tell_members-Keeps :
    (incident_id : ℕ) (emps : List Employee) (rows : List IncidentAssignment)
    → Keeps saved (tell_members incident_id emps rows)
unfolding tell_members
tell_members-Keeps incident_id [] rows = pure-Keeps saved tt
tell_members-Keeps incident_id (e ∷ emps) [] = pure-Keeps saved tt
tell_members-Keeps incident_id (e ∷ emps) (a ∷ rows) =
    seq-Keeps saved _ _ (catching-Keeps saved _ tt (tell_one-Keeps incident_id e a _))
      (tell_members-Keeps incident_id emps rows)

logged-Keeps :
    (action : AuditAction) (incident_id : ℕ) → Keeps saved (logging action incident_id none)
unfolding logging change
logged-Keeps action incident_id = seq-Keeps saved _ _ (λ w. refl) (flushing-Keeps saved)

tell_group-Keeps :
    (team : Team) (incident_id : ℕ) (members : List Employee) (rows : List IncidentAssignment)
    → Keeps saved (tell_group team incident_id members rows)
unfolding tell_group emit
tell_group-Keeps team incident_id members rows =
    seq-Keeps saved _ _ (tell_members-Keeps incident_id members rows) (
      seq-Keeps saved _ _ (λ w. refl)
        (seq-Keeps saved _ _ (λ w. refl) (catching-Keeps saved _ tt (logged-Keeps _ incident_id))))

module _ (c : Engine) (inc : Incident) (team : Team) (cycle : ℕ) (id : Text) where
  -- What a new cycle promises of its outcome, and of what is committed.
  pub record IsSealed (members : List Employee) (out : GroupOutcome) (t : Tables) : Type 0 where
    pub holders : holder_ids out.assignments ≡ employee_ids members
    pub ten :
        (length out.assignments == 10) && (length (distinct_ids (holder_ids out.assignments)) == 10)
        ≡ true
    pub taken : All (Taken inc.id cycle id) out.assignments
    pub committed : All (λ a. Memᴰ a t.assignments) out.assignments

  sealed_commit :
      (members : List Employee) (rows : List IncidentAssignment) (w w' : World) (out : GroupOutcome)
      → (change (complete_cycle c inc team cycle id)
            >> (committing
                >> (tell_group team inc.id members rows
                    >> pure (record { idempotent = false; cycle_id = id; assignments = rows }))))
          w
        ≡ (ok out, w')
      → (out.assignments ≡ rows) × (w'.session.saved.assignments ≡ w.session.rows.assignments)
  unfolding complete_cycle change put_incident
  sealed_commit members rows w w' out h =
      let (u, w₁, changed, h₁) =
        bind_inv (change (complete_cycle c inc team cycle id)) _ w out w' h in
      let (u', w₂, done, h₂) = bind_inv committing _ w₁ out w' h₁ in
      let (u'', w₃, told, h₃) = bind_inv (tell_group team inc.id members rows) _ w₂ out w' h₂ in
      let (same, world) = pure_inv _ out w₃ w' h₃ in
      (
        sym (ap (λ o. o.assignments) same),
        ap (λ v. v.session.saved.assignments) (sym world)
            ∙ ap (λ r. r.1.session.saved.assignments) (sym told)
            ∙ ap (λ t. t.assignments) (tell_group-Keeps team inc.id members rows w₂)
            ∙ ap (λ t. t.assignments) (committing_inv w₁ w₂ u' done)
            ∙ ap (λ r. r.1.session.rows.assignments) (sym changed),
      )

  seal_members-IsSealed :
      (members : List Employee) (w₀ w w' : World) (rows : List IncidentAssignment)
      (out : GroupOutcome)
      → Covered c inc team cycle id members w₀ rows w
      → seal_members c inc team cycle id members rows w ≡ (ok out, w')
      → IsSealed members out w'.session.saved
  unfolding seal_members
  seal_members-IsSealed members w₀ w w' rows out (ids, taken, kept, stays) h =
      let (u, w₁, flushed, h₁) = bind_inv flushing _ w out w' h in
      let same₁ = flushing_inv w w₁ u flushed in
      let (u', w₂, guarded, h₂) =
        bind_inv
          (if (length rows == 10) && (length (distinct_ids (holder_ids rows)) == 10)
            then pure tt
            else (rolling_back >> fail value_error))
          _ w₁ out w' h₁ in
      let (ten, same₂) = guard_inv _ value_error w₁ w₂ u' guarded in
      let (rows_out, saved_rows) = sealed_commit members rows w₂ w' out h₂ in
      let table : w'.session.saved.assignments ≡ w.session.rows.assignments =
        saved_rows ∙ ap (λ v. v.session.rows.assignments) (sym (same₁ ∙ same₂)) in
      record {
        holders = ap holder_ids rows_out ∙ ids;
        ten =
            ap (λ r. (length r == 10) && (length (distinct_ids (holder_ids r)) == 10)) rows_out
            ∙ ten;
        taken = subst (All (Taken inc.id cycle id)) (sym rows_out) taken;
        committed =
            subst (λ t. All (λ a. Memᴰ a t) out.assignments) (sym table)
              (subst (All (λ a. Memᴰ a w.session.rows.assignments)) (sym rows_out) kept);
      }

  pub assign_members-IsSealed :
      (key : Option Text) (members : List Employee) (w w' : World) (out : GroupOutcome)
      → assign_members c inc team cycle id key members w ≡ (ok out, w')
      → IsSealed members out w'.session.saved
  unfolding assign_members
  assign_members-IsSealed key members w w' out h =
      let (known, w₀, asked, h₀) =
        bind_inv (query (λ t. find? (λ x. text_eq x.id id) t.cycles)) _ w out w' h in
      let (u, w₁, made, h₁) =
        bind_inv (unless_known (new_cycle inc team cycle id key) known) _ w₀ out w' h₀ in
      let (rows, w₂, took, h₂) =
        bind_inv (take_members c inc team cycle id members) _ w₁ out w' h₁ in
      seal_members-IsSealed members w₁ w₂ w' rows out
        (take_members-Covered c inc team cycle id members w₁ rows w₂ took) h₂
