-- ===== src/Engine/Members/Covering.antt =====
-- services/assignment_engine.py, `assign_group`: a new cycle from the call to the outcome.
use incident.Prelude.{
  ℕ, true, false, ◌&&◌, Option, none, some, List, ◌==◌, ◌≡◌, ◌⊎◌, inl, inr, refl, sym, ap, ◌∙◌,
  subst, length, Text, Bool-split,
}
use incident.Models.{Employee, Team, Incident, AssignmentCycle, IncidentAssignment}
use incident.Session.{Tables, ok, value_error, get_user}
use incident.Rotation.{active_members, locked_incident, or_number}
use incident.Engine.Settings.{Engine}
use incident.Engine.Repetition.{
  GroupOutcome, or_one, cycle_id_of, if_ten, of_cycle, repeated_cycle, repeated_rows, is_completed,
}
use incident.Engine.Group.{
  distinct_ids, employee_ids, close_older, assign_members, if_valid, assign_cycle, unless_repeated,
  assign_group,
}
use incident.Engine.Members.Sealing.{IsSealed, assign_members-IsSealed}
use incident.Actions.{World, Act, query, change, flushing, catching, ◌>>=◌}
use incident.Actions.Inversion.{bind_inv, query_inv, pure_inv, flushing_inv, catching_inv, if_inv}

if_ten-idempotent :
    (id : Text) (rows : List IncidentAssignment) (out : GroupOutcome)
    → if_ten id rows ≡ some out
    → out.idempotent ≡ true
unfolding if_ten
if_ten-idempotent id rows out h =
    Bool-split (length rows == 10)
      (λ e.
        let same : some (record { idempotent = true; cycle_id = id; assignments = rows })
            ≡ some out =
          rw e at h in
        cc)
      (λ e. let none' : ◌≡◌ {A = Option GroupOutcome} none (some out) = rw e at h in absurd (cc))

of_cycle-idempotent :
    (t : Tables) (x : Option AssignmentCycle) (out : GroupOutcome)
    → of_cycle t x ≡ some out
    → out.idempotent ≡ true
unfolding of_cycle
of_cycle-idempotent t none out h = absurd (cc)
of_cycle-idempotent t (some x) out h =
    Bool-split (is_completed x.status) (λ e. if_ten-idempotent _ _ out (rw e at h))
      (λ e. let none' : ◌≡◌ {A = Option GroupOutcome} none (some out) = rw e at h in absurd (cc))

-- A result that repeats a cycle says so.
SaysSo : Option GroupOutcome → Type 0
SaysSo o = (out : GroupOutcome) → o ≡ some out → out.idempotent ≡ true

none-SaysSo : SaysSo none
unfolding SaysSo
none-SaysSo out h = absurd (cc)

repeated_cycle-SaysSo :
    (i : ℕ) (id : Text) (key : Option Text) (t : Tables) → SaysSo (repeated_cycle i id key t)
unfolding SaysSo repeated_cycle
repeated_cycle-SaysSo i id key t out h = of_cycle-idempotent t _ out h

repeated_rows-SaysSo :
    (i : ℕ) (id : Text) (cycle : ℕ) (t : Tables) → SaysSo (repeated_rows i id cycle t)
unfolding SaysSo repeated_rows
repeated_rows-SaysSo i id cycle t out h = if_ten-idempotent id _ out h

either-SaysSo : (x o : Option GroupOutcome) → SaysSo x → (x ≡ o) ⊎ (none ≡ o) → SaysSo o
either-SaysSo x o s (inl e) = subst SaysSo e s
either-SaysSo x o s (inr e) = subst SaysSo e none-SaysSo

-- What is not a repetition is what comes after.
unless_inv :
    (o : Option GroupOutcome) (rest : Act GroupOutcome) (w w' : World) (out : GroupOutcome)
    → SaysSo o
    → out.idempotent ≡ false
    → unless_repeated o rest w ≡ (ok out, w')
    → rest w ≡ (ok out, w')
unfolding unless_repeated SaysSo
unless_inv none rest w w' out s new h = h
unless_inv (some x) rest w w' out s new h =
    let (same, world) = pure_inv x out w w' h in
    let old : x.idempotent ≡ true = s x refl in absurd (cc (old, same, new))

active_members-close_older :
    (c : Engine) (i cycle : ℕ) (t : Tables) (team_id : ℕ)
    → active_members c.by_code (close_older i cycle t) team_id ≡ active_members c.by_code t team_id
unfolding active_members close_older get_user
active_members-close_older c i cycle t team_id = refl

if_valid_inv :
    (c : Engine) (inc : Incident) (team : Team) (cycle : ℕ) (id : Text) (key : Option Text)
    (members : List Employee) (w w' : World) (out : GroupOutcome)
    → if_valid c inc team cycle id key members w ≡ (ok out, w')
    → assign_members c inc team cycle id key members w ≡ (ok out, w')
unfolding if_valid
if_valid_inv c inc team cycle id key members w w' out h =
    if_inv ((length members == 10) && (length (distinct_ids (employee_ids members)) == 10))
      (assign_members c inc team cycle id key members) value_error w out w' h

assign_cycle-IsSealed :
    (c : Engine) (inc : Incident) (team : Team) (cycle : ℕ) (id : Text) (key : Option Text)
    (w w' : World) (out : GroupOutcome)
    → assign_cycle c inc team cycle id key w ≡ (ok out, w')
    → IsSealed c inc team cycle id
        (active_members c.by_code w.session.rows team.id)
        out
        w'.session.saved
unfolding assign_cycle change
assign_cycle-IsSealed c inc team cycle id key w w' out h =
    let (u, w₁, flushed, h₁) = bind_inv flushing _ w out w' h in
    let same₁ = flushing_inv w w₁ u flushed in
    let (u', w₂, changed, h₂) = bind_inv (change (close_older inc.id cycle)) _ w₁ out w' h₁ in
    let (members, w₃, asked, h₃) =
      bind_inv (query (λ t. active_members c.by_code t team.id)) _ w₂ out w' h₂ in
    let (found, same₃) = query_inv _ w₂ members w₃ asked in
    let names : active_members c.by_code w.session.rows team.id ≡ members =
      ap (λ v. active_members c.by_code v.session.rows team.id) same₁
      ∙ sym (active_members-close_older c inc.id cycle w₁.session.rows team.id)
      ∙ ap (λ r. active_members c.by_code r.1.session.rows team.id) changed
      ∙ found in
    subst (λ ms. IsSealed c inc team cycle id ms out w'.session.saved) (sym names)
      (assign_members-IsSealed c inc team cycle id key members w₃ w' out
        (if_valid_inv c inc team cycle id key members w₃ w' out h₃))

of_locked :
    (c : Engine) (locked : Incident) (team : Team) (cycle : ℕ) (id : Text) (key : Option Text)
    (w w' : World) (out : GroupOutcome)
    → out.idempotent ≡ false
    → (catching (query (repeated_cycle locked.id id key)) none >>= λ first.
          catching (query (repeated_rows locked.id id cycle)) none >>= λ second.
          unless_repeated first (unless_repeated second (assign_cycle c locked team cycle id key)))
        w
      ≡ (ok out, w')
    → IsSealed c locked team cycle id
        (active_members c.by_code w.session.rows team.id)
        out
        w'.session.saved
of_locked c locked team cycle id key w w' out new h =
    let (first, w₁, tried, h₁) =
      bind_inv (catching (query (repeated_cycle locked.id id key)) none) _ w out w' h in
    let (from_cycle, same₁) = catching_inv _ none w first w₁ tried in
    let (second, w₂, tried', h₂) =
      bind_inv (catching (query (repeated_rows locked.id id cycle)) none) _ w₁ out w' h₁ in
    let (from_rows, same₂) = catching_inv _ none w₁ second w₂ tried' in
    let later =
      unless_inv first _ w₂ w' out
        (either-SaysSo _ first (repeated_cycle-SaysSo locked.id id key w.session.rows) from_cycle)
        new h₂ in
    let last =
      unless_inv second _ w₂ w' out
        (either-SaysSo _ second (repeated_rows-SaysSo locked.id id cycle w₁.session.rows) from_rows)
        new later in
    subst
      (λ v.
        IsSealed c locked team cycle id (active_members c.by_code v.session.rows team.id) out
          w'.session.saved)
      (sym (same₁ ∙ same₂)) (assign_cycle-IsSealed c locked team cycle id key w₂ w' out last)

-- A group assignment that goes through, and does not repeat a cycle, gives one row to each active
-- member of the team, in the order of the codes: ten rows with ten different holders, all of the
-- incident and of the cycle, active, marked with the cycle's identifier, and committed.
pub assign_group-Covers :
    (c : Engine) (inc : Incident) (team : Team) (n : Option ℕ) (key : Option Text) (w w' : World)
    (out : GroupOutcome)
    → assign_group c inc team n key w ≡ (ok out, w')
    → out.idempotent ≡ false
    → let locked : Incident = locked_incident w.session.rows inc in
      let cycle : ℕ = or_number n (or_one locked.current_cycle) in
      IsSealed c locked team cycle
        (cycle_id_of locked cycle)
        (active_members c.by_code w.session.rows team.id)
        out
        w'.session.saved
unfolding assign_group
assign_group-Covers c inc team n key w w' out h new =
    let (locked, w₁, asked, h₁) = bind_inv (query (λ t. locked_incident t inc)) _ w out w' h in
    let (found, same₁) = query_inv _ w locked w₁ asked in
    subst
      (λ l.
        IsSealed c l team (or_number n (or_one l.current_cycle))
          (cycle_id_of l (or_number n (or_one l.current_cycle)))
          (active_members c.by_code w.session.rows team.id) out w'.session.saved)
      (sym found)
      (subst
        (λ v.
          IsSealed c locked team (or_number n (or_one locked.current_cycle))
            (cycle_id_of locked (or_number n (or_one locked.current_cycle)))
            (active_members c.by_code v.session.rows team.id) out w'.session.saved)
        (sym same₁) (of_locked c locked team _ _ key w₁ w' out new h₁))
