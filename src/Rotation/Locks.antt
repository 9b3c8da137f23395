-- ===== src/Rotation/Locks.antt =====
-- services/rotation_service.py: the row lock on the incident.
use incident.Prelude.{◌==◌, ◌≡◌, refl, find?, Option-split, mem-find?, ==_iff}
use incident.Models.{Incident}
use incident.Session.{Tables, get_incident}
use incident.Rotation.{locked_incident}

-- The locked row is the incident's, or the incident itself.
pub locked_incident-id : (t : Tables) (inc : Incident) → (locked_incident t inc).id ≡ inc.id
unfolding locked_incident get_incident
locked_incident-id t inc =
    Option-split (find? (λ (n : Incident). n.id == inc.id) t.incidents) (λ n. rw n refl)
      (λ x found.
        rw found (
          (==_iff x.id inc.id).0
            (mem-find? (λ (n : Incident). n.id == inc.id) t.incidents found).1))
