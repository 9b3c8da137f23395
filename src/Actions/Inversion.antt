-- ===== src/Actions/Inversion.antt =====
-- What a successful run of actions in sequence tells of each of them.
use incident.Prelude.{
  Bool, true, false, if◌then◌else◌, ◌≡◌, refl, sym, ap, ◌⊎◌, inl, inr, Bool-split,
}
use incident.Session.{Tables, Error, Result, ok, err, integrity_error, flush, commit}
use incident.Models.{all_unique}
use incident.Actions.{
  World, Act, continue, either, catching, in_session, query, flushing, committing, rolling_back,
  pure, fail, ◌>>=◌, ◌>>◌,
}

continue_inv :
    {A B : Type 0} (r : Result A × World) (f : A → Act B) (b : B) (w' : World)
    → continue r f ≡ (ok b, w')
    → (a : A) × (w₁ : World) × (r ≡ (ok a, w₁)) × (f a w₁ ≡ (ok b, w'))
continue_inv (ok a, w₁) f b w' h = (a, w₁, refl, h)
continue_inv (err e, w₁) f b w' h = absurd (cc)

pub bind_inv :
    {A B : Type 0} (m : Act A) (f : A → Act B) (w : World) (b : B) (w' : World)
    → (m >>= f) w ≡ (ok b, w')
    → (a : A) × (w₁ : World) × (m w ≡ (ok a, w₁)) × (f a w₁ ≡ (ok b, w'))
unfolding ◌>>=◌
bind_inv m f w b w' h = continue_inv (m w) f b w' h

answered :
    {A : Type 0} (r : Result (Unit {0})) (x a : A) (w w' : World)
    → ◌≡◌ {A = Result A × World} (elim r [ ok _ ↦ ok x | err e ↦ err e ], w) (ok a, w')
    → (x ≡ a) × (w ≡ w')
answered (ok u) x a w w' h = (cc, cc)
answered (err e) x a w w' h = absurd (cc)

pub query_inv :
    {A : Type 0} (f : Tables → A) (w : World) (a : A) (w' : World)
    → query f w ≡ (ok a, w')
    → (f w.session.rows ≡ a) × (w ≡ w')
unfolding query
query_inv f w a w' h = answered (flush w.session) (f w.session.rows) a w w' h

returned :
    {A : Type 0} (x a : A) (w w' : World)
    → ◌≡◌ {A = Result A × World} (ok x, w) (ok a, w')
    → (x ≡ a) × (w ≡ w')
returned x a w w' h = (cc, cc)

pub pure_inv : {A : Type 0} (x a : A) (w w' : World) → pure x w ≡ (ok a, w') → (x ≡ a) × (w ≡ w')
unfolding pure
pure_inv x a w w' h = returned x a w w' h

pub flushing_inv : (w w' : World) (u : Unit {0}) → flushing w ≡ (ok u, w') → w ≡ w'
unfolding flushing
flushing_inv w w' u h = ap (λ r. r.1) h

-- A guard that raises, after a roll-back.
pub guard_inv :
    (b : Bool) (e : Error) (w w' : World) (u : Unit {0})
    → (if b then pure tt else (rolling_back >> fail e)) w ≡ (ok u, w')
    → (b ≡ true) × (w ≡ w')
unfolding pure rolling_back fail ◌>>=◌
guard_inv true e w w' u h = (refl, ap (λ r. r.1) h)
guard_inv false e w w' u h = absurd (cc)

pub committing_inv :
    (w w' : World) (u : Unit {0}) → committing w ≡ (ok u, w') → w'.session.saved ≡ w.session.rows
unfolding committing in_session commit
committing_inv w w' u h =
    Bool-split (all_unique w.session.rows.assignments)
      (λ e. sym (ap (λ r. r.1.session.saved) (rw e at h)))
      (λ e.
        let refused : ◌≡◌ {A = Result (Unit {0}) × World} (err integrity_error, w) (ok u, w') =
          rw e at h in
        absurd (cc))

caught :
    {A : Type 0} (r : Result (Unit {0})) (x b a : A) (w w' : World)
    → ◌≡◌ {A = Result A × World} (either b (elim r [ ok _ ↦ ok x | err e ↦ err e ], w)) (ok a, w')
    → ((x ≡ a) ⊎ (b ≡ a)) × (w ≡ w')
caught (ok u) x b a w w' h = (inl (cc), cc)
caught (err e) x b a w w' h = (inr (cc), cc)

-- A query whose errors are caught.
pub catching_inv :
    {A : Type 0} (f : Tables → A) (b : A) (w : World) (a : A) (w' : World)
    → catching (query f) b w ≡ (ok a, w')
    → ((f w.session.rows ≡ a) ⊎ (b ≡ a)) × (w ≡ w')
unfolding catching query
catching_inv f b w a w' h = caught (flush w.session) (f w.session.rows) b a w w' h

pub if_inv :
    {A : Type 0} (b : Bool) (m : Act A) (e : Error) (w : World) (a : A) (w' : World)
    → (if b then m else fail e) w ≡ (ok a, w')
    → m w ≡ (ok a, w')
unfolding fail
if_inv true m e w a w' h = h
if_inv false m e w a w' h = absurd (cc)
