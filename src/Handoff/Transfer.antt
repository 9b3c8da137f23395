-- ===== src/Handoff/Transfer.antt =====
-- What a hand-off does to the assignments, and to whom it hands on.
use mathlib.Core.Option.{some-injective}
use incident.Prelude.{
  ℕ, codes, ◌≤◌, true, false, not, Option, none, some, List, [], ◌∷◌, ◌++◌, ◌==◌, ==_iff, ◌≡◌, ◌⊎◌,
  inl, inr, ◌∙◌, refl, ap, sym, subst, arith, Memᴰ, Bool-split, find?, update, mem-select,
  mem-find?, min_from-le, mem-min_from, IsOrder,
}
use incident.Models.{Employee, Incident, IncidentAssignment}
use incident.Session.{Tables, get_user, Result, ok, err, put_incident}
use incident.Shifts.{Moment}
use incident.Workload.{workload}
use incident.Handoff.Causes.{Cause, name_or, successors, successor, lighter}
use incident.Handoff.Writes.{flushed-saved, orphaned-none, none≢some}
use incident.Actions.{World}
use incident.Handoff.{
  Config, Handover, handed_on, transferred, handed_incident, incoming_assignment, hand_to,
  if_locked, execute_handoff, is_row,
}

lighter-IsOrder : (t : Tables) → IsOrder (lighter t)
lighter-IsOrder t = record { total = λ a b h. ground arith; trans = λ a b c h k. ground arith }

-- The one who takes over is eligible, is not the holder, and no other candidate has less to do.
pub record IsSuccessor (t : Tables) (now : Moment) (inc : Incident) (holder x : Employee)
    : Type 0 where
  pub eligible : Memᴰ x (successors t now inc holder)
  pub other : (x.id == holder.id) ≡ false
  pub least :
      (y : Employee) → Memᴰ y (successors t now inc holder) → workload t x.id ≤ workload t y.id

successor-min :
    (t : Tables) (emps : List Employee) {x : Employee}
    → successor t emps ≡ some x
    → Memᴰ x emps × ((y : Employee) → Memᴰ y emps → workload t x.id ≤ workload t y.id)
unfolding successor
successor-min t [] h = cc
successor-min t (e ∷ emps) {x = x} h =
    let same = some-injective _ _ h in
    (
      subst (λ z. Memᴰ z (e ∷ emps)) same (mem-min_from (lighter t) e emps),
      λ y m.
          subst (λ z. workload t z.id ≤ workload t y.id) same
            (ground (arith, min_from-le (lighter-IsOrder t) e emps m)),
    )

successor-IsSuccessor :
    (t : Tables) (now : Moment) (inc : Incident) (holder x : Employee)
    → successor t (successors t now inc holder) ≡ some x
    → IsSuccessor t now inc holder x
unfolding successors
successor-IsSuccessor t now inc holder x h =
    let (m, least) = successor-min t (successors t now inc holder) h in
    record {
      eligible = m;
      other = ground (arith, (mem-select (λ y. not (y.id == holder.id)) _ m).1);
      least = least;
    }

-- The committed assignments after a hand-off of the row `id`: the new one is there, active, for the
-- incident and the one who takes over; the holder's is no longer active.
pub record IsHandedOn (t : Tables) (now : Moment) (inc : Incident) (holder : Employee) (id : ℕ)
    (h : Handover) (saved : List IncidentAssignment) : Type 0 where
  pub chosen : IsSuccessor t now inc holder h.incoming
  pub taken : Memᴰ h.assignment saved
  pub active : h.assignment.is_active ≡ true
  pub of_incident : h.assignment.incident_id ≡ inc.id
  pub of_successor : h.assignment.employee_id ≡ h.incoming.id
  pub released :
      (x : IncidentAssignment)
      → Memᴰ x saved
      → is_row id x ≡ true
      → x ≡ h.assignment ⊎ x.is_active ≡ false

clash : true ≡ false → ⊥
clash h = cc

released-update :
    (id : ℕ) (rows : List IncidentAssignment) (new x : IncidentAssignment)
    → Memᴰ x (update (is_row id) handed_on rows ++ new ∷ [])
    → is_row id x ≡ true
    → x ≡ new ⊎ x.is_active ≡ false
unfolding update
released-update id [] new x (Memᴰ.head same) k = inl same
released-update id [] new x (Memᴰ.tail m) k = elim m [ ]
released-update id (y ∷ rows) new x (Memᴰ.tail m) k = released-update id rows new x m k
released-update id (y ∷ rows) new x (Memᴰ.head same) k =
    Bool-split (is_row id y)
      (λ t.
        let equal : x ≡ handed_on y = same ∙ rw t refl in
        inr (ap (λ (z : IncidentAssignment). z.is_active) equal))
      (λ f.
        let equal : x ≡ y = same ∙ rw f refl in absurd (clash (sym k ∙ ap (is_row id) equal ∙ f)))

taken-update :
    (rows : List IncidentAssignment) (new : IncidentAssignment) → Memᴰ new (rows ++ new ∷ [])
taken-update [] new = Memᴰ.head refl
taken-update (y ∷ rows) new = Memᴰ.tail (taken-update rows new)

hand_to-IsHandedOn :
    (c : Config) (now : Moment) (cause : Cause) (a : IncidentAssignment) (inc : Incident)
    (e : Employee) (x : Option Employee) (w : World) (h : Handover) (w' : World)
    → successor w.session.rows (successors w.session.rows now inc e) ≡ x
    → hand_to c cause a inc e x w ≡ (ok (some h), w')
    → IsHandedOn w.session.rows now inc e a.id h w'.session.saved.assignments
unfolding hand_to transferred put_incident handed_incident incoming_assignment
hand_to-IsHandedOn c now cause a inc e none w h w' s k = absurd (orphaned-none inc w k)
hand_to-IsHandedOn c now cause a inc e (some x) w h w' s k =
    let (same, saved) = flushed-saved c _ _ _ _ k in
    let t = w.session.rows in
    let rows = t.assignments in
    let new : IncidentAssignment =
      incoming_assignment c cause (name_or (codes "Previous Engineer") (get_user t e.user_id))
        (name_or (codes "Incoming Engineer") (get_user t x.user_id)) a inc x in
    subst
      (λ (z : Handover). IsHandedOn w.session.rows now inc e a.id z w'.session.saved.assignments)
      (some-injective _ _ same)
      (record {
        chosen = successor-IsSuccessor w.session.rows now inc e x s;
        taken =
            subst (λ (l : List IncidentAssignment). Memᴰ new l) (sym saved)
              (taken-update (update (is_row a.id) handed_on rows) new);
        active = refl;
        of_incident = refl;
        of_successor = refl;
        released = λ y m at.
            released-update a.id rows new y
              (subst (λ (l : List IncidentAssignment). Memᴰ y l) saved m) at;
      })

out_or : Option Handover → Result (Option Handover) × World → Option Handover
out_or d (ok out, w) = out
out_or d (err x, w) = d

idle :
    {h : Handover} {w w' : World}
    → ◌≡◌ {A = Result (Option Handover) × World} (ok none, w) (ok (some h), w')
    → ⊥
unfolding out_or
idle {h = h} k = none≢some (ap (out_or none) k)

if_locked-IsHandedOn :
    (o : Option IncidentAssignment) (c : Config) (now : Moment) (cause : Cause) (inc : Incident)
    (e : Employee) (w : World) (id : ℕ) (h : Handover) (w' : World)
    → ((b : IncidentAssignment) → o ≡ some b → b.id ≡ id)
    → if_locked o c now cause inc e w ≡ (ok (some h), w')
    → IsHandedOn w.session.rows now inc e id h w'.session.saved.assignments
unfolding if_locked
if_locked-IsHandedOn none c now cause inc e w id h w' of k = absurd (idle k)
if_locked-IsHandedOn (some b) c now cause inc e w id h w' of k =
    Bool-split (not b.is_active) (λ n. absurd (idle (rw n at k)))
      (λ y.
        subst (λ i. IsHandedOn w.session.rows now inc e i h w'.session.saved.assignments)
          (of b refl)
          (hand_to-IsHandedOn c now cause b inc e
            (successor w.session.rows (successors w.session.rows now inc e)) w h w' refl
            (rw y at k)))

-- A hand-off that is carried out gives the incident to the eligible employee with the least to do,
-- who is not the holder, by an active row of their own; the holder's row is no longer active.
pub execute_handoff-IsHandedOn :
    (c : Config) (now : Moment) (cause : Cause) (a : IncidentAssignment) (inc : Incident)
    (e : Employee) (w : World) (h : Handover) (w' : World)
    → execute_handoff c now cause a inc e w ≡ (ok (some h), w')
    → IsHandedOn w.session.rows now inc e a.id h w'.session.saved.assignments
unfolding execute_handoff is_row
execute_handoff-IsHandedOn c now cause a inc e w h w' k =
    if_locked-IsHandedOn (find? (is_row a.id) w.session.rows.assignments) c now cause inc e w a.id h
      w'
      (λ b found. (==_iff b.id a.id).0 (mem-find? (is_row a.id) w.session.rows.assignments found).1)
      k
