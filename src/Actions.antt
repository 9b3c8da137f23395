-- ===== src/Actions.antt =====
-- What the services do with their session, as a monad: the state is the session with the requests
-- sent to ServiceNow, and what was written before an exception stays written.
pub mod Keeps
pub mod Inversion
use incident.Prelude.{ℕ, Option, none, some, List, ◌++◌, [], ◌∷◌}
use incident.Models.{AuditAction}
use incident.Session.{
  Tables, Session, Dispatch, Error, Result, ok, err, flush, commit, rollback, log,
}
use incident.ServiceNow.{Patch}

pub record World : Type 0 where
  pub session : Session
  pub patches : List Patch

abbrev pub Act : Type 0 → Type 0
Act A = World → Result A × World

unfoldable pub pure : {A : Type 0} → A → Act A
pure a w = (ok a, w)

unfoldable pub fail : {A : Type 0} → Error → Act A
fail e w = (err e, w)

abbrev pub continue : {A B : Type 0} → Result A × World → (A → Act B) → Result B × World
continue (ok a, w) f = f a w
continue (err e, w) f = (err e, w)

infixl 5 ◌>>=◌ ◌>>◌
unfoldable pub ◌>>=◌ : {A B : Type 0} → Act A → (A → Act B) → Act B
◌>>=◌ m f w = continue (m w) f

abbrev pub ◌>>◌ : {A B : Type 0} → Act A → Act B → Act B
m >> n = m >>= λ _. n

abbrev pub either : {A : Type 0} → A → Result A × World → Result A × World
either a (ok b, w) = (ok b, w)
either a (err e, w) = (ok a, w)

-- `try: return m  except Exception: return a`.
unfoldable pub catching : {A : Type 0} → Act A → A → Act A
catching m a w = either a (m w)

abbrev on_session : {A : Type 0} → World → Result A × Session → Result A × World
on_session w (r, s) = (r, record w { session = s })

-- `try: return m  except Exception: return n`, where n does more than give a value.
abbrev pub otherwise : {A : Type 0} → Act A → Result A × World → Result A × World
otherwise n (ok a, w) = (ok a, w)
otherwise n (err e, w) = n w

unfoldable pub recovering : {A : Type 0} → Act A → Act A → Act A
recovering m n w = otherwise n (m w)

-- What a service computes from the rows, or raises.
unfoldable pub raising : {A : Type 0} → Result A → Act A
raising r w = (r, w)

unfoldable pub in_session : {A : Type 0} → (Session → Result A × Session) → Act A
in_session f w = on_session w (f w.session)

abbrev on_both : {A : Type 0} → Result A × Session × List Patch → Result A × World
on_both (r, s, patches) = (r, record { session = s; patches = patches })

unfoldable pub with_patches :
    {A : Type 0} → (List Patch → Session → Result A × Session × List Patch) → Act A
with_patches f w = on_both (f w.patches w.session)

-- A query flushes what is pending first.
unfoldable pub query : {A : Type 0} → (Tables → A) → Act A
query f w = (elim (flush w.session) [ ok _ ↦ ok (f w.session.rows) | err e ↦ err e ], w)

-- An object of the session is changed or added, which is written with the next flush.
unfoldable pub change : (Tables → Tables) → Act (Unit {0})
change f w = (ok tt, record w { session = record w.session { rows = f w.session.rows } })

unfoldable pub flushing : Act (Unit {0})
flushing w = (flush w.session, w)

unfoldable pub committing : Act (Unit {0})
committing = in_session commit

unfoldable pub rolling_back : Act (Unit {0})
rolling_back w = (ok tt, record w { session = rollback w.session })

unfoldable pub emit : Dispatch → Act (Unit {0})
emit d w = (ok tt, record w { session = record w.session { sent = w.session.sent ++ d ∷ [] } })

unfoldable pub logging : AuditAction → ℕ → Option ℕ → Act (Unit {0})
logging action entity employee = do change (log action entity employee); flushing
