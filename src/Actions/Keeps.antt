-- ===== src/Actions/Keeps.antt =====
-- Actions that leave a part of the state as it is.
use incident.Prelude.{Bool, true, false, if◌then◌else◌, ◌≡◌, ◌∙◌, refl}
use incident.Session.{Tables, Error, Result, ok, err}
use incident.Actions.{
  World, Act, continue, either, pure, fail, ◌>>=◌, ◌>>◌, catching, query, flushing,
}

module _ {X : Type 0} (part : World → X) where
  abbrev pub Keeps : {A : Type 0} → Act A → Type 0
  Keeps m = (w : World) → part (m w).1 ≡ part w

  pub pure-Keeps : {A : Type 0} (a : A) → Keeps (pure a)
  unfolding pure
  pure-Keeps a w = refl

  pub fail-Keeps : (A : Type 0) (e : Error) → Keeps (fail {A = A} e)
  unfolding fail
  fail-Keeps A e w = refl

  continue-Keeps :
      {A B : Type 0} (r : Result A × World) (f : A → Act B) (x : X)
      → ((a : A) → Keeps (f a))
      → part r.1 ≡ x
      → part (continue r f).1 ≡ x
  continue-Keeps (ok a, w) f x k e = k a w ∙ e
  continue-Keeps (err e', w) f x k e = e

  pub bind-Keeps :
      {A B : Type 0} (m : Act A) (f : A → Act B)
      → Keeps m
      → ((a : A) → Keeps (f a))
      → Keeps (m >>= f)
  unfolding ◌>>=◌
  bind-Keeps m f h k w = continue-Keeps (m w) f (part w) k (h w)

  pub seq-Keeps : {A B : Type 0} (m : Act A) (n : Act B) → Keeps m → Keeps n → Keeps (m >> n)
  seq-Keeps m n h k = bind-Keeps m (λ _. n) h (λ _. k)

  either-Keeps :
      {A : Type 0} (a : A) (r : Result A × World) (x : X) → part r.1 ≡ x → part (either a r).1 ≡ x
  either-Keeps a (ok b, w) x e = e
  either-Keeps a (err b, w) x e = e

  pub catching-Keeps : {A : Type 0} (m : Act A) (a : A) → Keeps m → Keeps (catching m a)
  unfolding catching
  catching-Keeps m a h w = either-Keeps a (m w) (part w) (h w)

  pub query-Keeps : {A : Type 0} (f : Tables → A) → Keeps (query f)
  unfolding query
  query-Keeps f w = refl

  pub flushing-Keeps : Keeps flushing
  unfolding flushing
  flushing-Keeps w = refl

  pub if-Keeps :
      {A : Type 0} (b : Bool) (m n : Act A)
      → (b ≡ true → Keeps m)
      → (b ≡ false → Keeps n)
      → Keeps (if b then m else n)
  if-Keeps true m n h k = h refl
  if-Keeps false m n h k = k refl
