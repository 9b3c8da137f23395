-- ===== src/WebSocket/Registry.antt =====
-- What holds of the manager's tables in every reachable state.
use incident.Prelude.{
  ℕ, Bool, true, false, not, Option, none, some, List, [], ◌∷◌, ◌++◌, ◌==◌, ==_iff, ◌≡◌, ◌∙◌, refl,
  ap, sym, subst, if◌then◌else◌, Bool-split, select, is_empty, lookup, put, delete, lookup-put,
  lookup-put_other, lookup-delete, lookup-delete_other,
}
use incident.Models.{Role}
use incident.Session.{EventType}
use incident.WebSocket.{
  Manager, sockets, remove, connect, left_with, without, disconnect, disconnect_all, publish,
  send_to_user, send_to_users, publish_each, broadcast_to_admins, broadcast_to_team, broadcast_all,
}

abbrev pub is_some {ℓ} : {A : Type ℓ} → Option A → Bool
is_some none = false
is_some (some a) = true

abbrev pub is_vacant : Option (List ℕ) → Bool
is_vacant none = false
is_vacant (some l) = is_empty l

-- No user is kept with an empty list, and the users with a role are those with a connection.
pub record IsRegistry (m : Manager) : Type 0 where
  pub occupied : (u : ℕ) → is_vacant (lookup u m.active_connections) ≡ false
  pub same_users :
      (u : ℕ) → is_some (lookup u m.active_connections) ≡ is_some (lookup u m.user_roles)

pub data Operation : Type 0 where
  joins : ℕ → ℕ → Role → Operation
  leaves : ℕ → ℕ → Operation
  sends : ℕ → EventType → Operation
  tells_admins tells_all : EventType → Operation
  tells_team : List ℕ → EventType → Operation

pub perform : (ℕ → Bool) → Operation → Manager → Manager
perform alive (joins socket user role) m = connect socket user role m
perform alive (leaves socket user) m = disconnect socket user m
perform alive (sends user event) m = send_to_user alive user event m
perform alive (tells_admins event) m = broadcast_to_admins alive event m
perform alive (tells_all event) m = broadcast_all alive event m
perform alive (tells_team members event) m = broadcast_to_team alive members event m

module _ {ℓ} {A : Type ℓ} where
  lookup-put_at :
      (k v : ℕ) (a : A) (d : List (ℕ × A))
      → lookup v (put k a d) ≡ (if k == v then some a else lookup v d)
  lookup-put_at k v a d =
      Bool-split (k == v)
        (λ t.
          rw t (subst (λ i. lookup i (put k a d) ≡ some a) ((==_iff k v).0 t) (lookup-put k a d)))
        (λ f. rw f (lookup-put_other v k a d f))

  lookup-delete_at :
      (k v : ℕ) (d : List (ℕ × A)) → lookup v (delete k d) ≡ (if k == v then none else lookup v d)
  lookup-delete_at k v d =
      Bool-split (k == v)
        (λ t.
          rw t (subst (λ i. lookup i (delete k d) ≡ none) ((==_iff k v).0 t) (lookup-delete k d)))
        (λ f. rw f (lookup-delete_other v k d f))

-- What `connect` and `left_with` do to the tables.
put-IsRegistry :
    (user : ℕ) (l : List ℕ) (roles : List (ℕ × Role)) (m : Manager)
    → is_empty l ≡ false
    → is_some (lookup user roles) ≡ true
    → ((v : ℕ) → (user == v) ≡ false → lookup v roles ≡ lookup v m.user_roles)
    → IsRegistry m
    → IsRegistry
        (record m { active_connections = put user l m.active_connections; user_roles = roles })
put-IsRegistry user l roles m full present others r = record {
  occupied = λ v.
      rw (lookup-put_at user v l m.active_connections)
        (Bool-split (user == v) (λ t. rw t full) (λ f. rw f (r.occupied v)));
  same_users = λ v. rw (lookup-put_at user v l m.active_connections) (
      Bool-split (user == v)
        (λ t.
          rw t (subst (λ i. true ≡ is_some (lookup i roles)) ((==_iff user v).0 t) (sym present)))
        (λ f. rw f (rw (others v f) (r.same_users v))));
}

delete-IsRegistry :
    (user : ℕ) (m : Manager)
    → IsRegistry m
    → IsRegistry (record m {
      active_connections = delete user m.active_connections;
      user_roles = delete user m.user_roles;
    })
delete-IsRegistry user m r = record {
  occupied = λ v.
      rw (lookup-delete_at user v m.active_connections)
        (Bool-split (user == v) (λ t. rw t refl) (λ f. rw f (r.occupied v)));
  same_users = λ v.
      rw (lookup-delete_at user v m.active_connections, lookup-delete_at user v m.user_roles)
        (Bool-split (user == v) (λ t. rw t refl) (λ f. rw f (r.same_users v)));
}

left_with-IsRegistry :
    (user : ℕ) (l : List ℕ) (m : Manager)
    → is_some (lookup user m.user_roles) ≡ true
    → IsRegistry m
    → IsRegistry (left_with user l m)
unfolding left_with
left_with-IsRegistry user [] m present r = delete-IsRegistry user m r
left_with-IsRegistry user (x ∷ xs) m present r =
    put-IsRegistry user (x ∷ xs) m.user_roles m refl present (λ v h. refl) r

without-IsRegistry :
    (socket user : ℕ) (o : Option (List ℕ)) (m : Manager)
    → lookup user m.active_connections ≡ o
    → IsRegistry m
    → IsRegistry (without socket user o m)
unfolding without
without-IsRegistry socket user none m h r = r
without-IsRegistry socket user (some l) m h r =
    left_with-IsRegistry user (remove socket l) m (sym (r.same_users user) ∙ ap is_some h) r

connect-IsRegistry :
    (socket user : ℕ) (role : Role) (m : Manager)
    → IsRegistry m
    → IsRegistry (connect socket user role m)
unfolding connect
connect-IsRegistry socket user role m r =
    put-IsRegistry user (sockets user m ++ socket ∷ []) (put user role m.user_roles) m
      (filled (sockets user m)) (ap is_some (lookup-put user role m.user_roles))
      (λ v h. lookup-put_other v user role m.user_roles h) r
  where
    filled : (l : List ℕ) → is_empty (l ++ socket ∷ []) ≡ false
    filled [] = refl
    filled (x ∷ l) = refl

disconnect_all-IsRegistry :
    (stale : List ℕ) (user : ℕ) (m : Manager)
    → IsRegistry m
    → IsRegistry (disconnect_all stale user m)
unfolding disconnect_all disconnect
disconnect_all-IsRegistry [] user m r = r
disconnect_all-IsRegistry (s ∷ stale) user m r =
    disconnect_all-IsRegistry stale user (disconnect s user m)
      (without-IsRegistry s user (lookup user m.active_connections) m refl r)

module _ (alive : ℕ → Bool) where
  publish-IsRegistry :
      (user : ℕ) (event : EventType) (targets : List ℕ) (m : Manager)
      → IsRegistry m
      → IsRegistry (publish alive user event targets m)
  unfolding publish
  publish-IsRegistry user event targets m r =
      disconnect_all-IsRegistry (select (λ s. not (alive s)) targets) user _
        (record { occupied = r.occupied; same_users = r.same_users })

  send_to_users-IsRegistry :
      (users : List ℕ) (event : EventType) (m : Manager)
      → IsRegistry m
      → IsRegistry (send_to_users alive users event m)
  unfolding send_to_users send_to_user
  send_to_users-IsRegistry [] event m r = r
  send_to_users-IsRegistry (u ∷ users) event m r =
      send_to_users-IsRegistry users event (send_to_user alive u event m)
        (publish-IsRegistry u event (sockets u m) m r)

  publish_each-IsRegistry :
      (items : List (ℕ × List ℕ)) (event : EventType) (m : Manager)
      → IsRegistry m
      → IsRegistry (publish_each alive items event m)
  unfolding publish_each
  publish_each-IsRegistry [] event m r = r
  publish_each-IsRegistry ((u, l) ∷ items) event m r =
      publish_each-IsRegistry items event (publish alive u event l m)
        (publish-IsRegistry u event l m r)

  perform-IsRegistry :
      (op : Operation) (m : Manager) → IsRegistry m → IsRegistry (perform alive op m)
  unfolding perform disconnect send_to_user broadcast_to_admins broadcast_to_team broadcast_all
  perform-IsRegistry (joins socket user role) m r = connect-IsRegistry socket user role m r
  perform-IsRegistry (leaves socket user) m r =
      without-IsRegistry socket user (lookup user m.active_connections) m refl r
  perform-IsRegistry (sends user event) m r = publish-IsRegistry user event (sockets user m) m r
  perform-IsRegistry (tells_admins event) m r = send_to_users-IsRegistry _ event m r
  perform-IsRegistry (tells_all event) m r = publish_each-IsRegistry m.active_connections event m r
  perform-IsRegistry (tells_team members event) m r = send_to_users-IsRegistry _ event m r

abbrev pub no_one : Manager
no_one = record { active_connections = []; user_roles = []; delivered = [] }

-- One step: an operation, with any sockets alive.
pub data Reachable : Manager → Type 0 where
  start : Reachable no_one
  step :
      {m : Manager} (alive : ℕ → Bool) (op : Operation)
      → Reachable m
      → Reachable (perform alive op m)

-- In every reachable state no user is kept with an empty list of sockets, and the users with a role
-- are those with a connection.
pub Reachable-IsRegistry : {m : Manager} → Reachable m → IsRegistry m
unfolding lookup
Reachable-IsRegistry start = record { occupied = λ u. refl; same_users = λ u. refl }
Reachable-IsRegistry (step {m = m} alive op before) =
    perform-IsRegistry alive op m (Reachable-IsRegistry before)
