-- ===== src/WebSocket.antt =====
-- websocket/manager.py: who is connected, and who gets which event. Users and sockets are numbers;
-- `alive` says to which sockets `send_json` succeeds.
pub mod Delivery
pub mod Registry
use incident.Prelude.{
  ℕ, Bool, true, false, ◌&&◌, ◌||◌, not, Option, none, some, get_or, List, [], ◌∷◌, ◌++◌, map, ◌==◌,
  if◌then◌else◌, select, exists, is_empty, lookup, put, delete,
}
use incident.Models.{Role}
use incident.Session.{EventType}

pub record Manager : Type 0 where
  pub active_connections : List (ℕ × List ℕ)
  pub user_roles : List (ℕ × Role)
  -- What has arrived, at which socket.
  pub delivered : List (ℕ × EventType)

unfoldable pub sockets : ℕ → Manager → List ℕ
sockets user m = get_or (lookup user m.active_connections) []

unfoldable pub connect : ℕ → ℕ → Role → Manager → Manager
connect socket user role m = record m {
  active_connections = put user (sockets user m ++ socket ∷ []) m.active_connections;
  user_roles = put user role m.user_roles;
}

-- `list.remove`: the first occurrence.
unfoldable pub remove : ℕ → List ℕ → List ℕ
remove a [] = []
remove a (x ∷ xs) = let rest = remove a xs in if x == a then xs else x ∷ rest

unfoldable pub left_with : ℕ → List ℕ → Manager → Manager
left_with user [] m = record m {
  active_connections = delete user m.active_connections;
  user_roles = delete user m.user_roles;
}
left_with user (x ∷ xs) m = record m { active_connections = put user (x ∷ xs) m.active_connections }

unfoldable pub without : ℕ → ℕ → Option (List ℕ) → Manager → Manager
without socket user none m = m
without socket user (some open_sockets) m = left_with user (remove socket open_sockets) m

unfoldable pub disconnect : ℕ → ℕ → Manager → Manager
disconnect socket user m = without socket user (lookup user m.active_connections) m

unfoldable pub disconnect_all : List ℕ → ℕ → Manager → Manager
disconnect_all [] user m = m
disconnect_all (s ∷ stale) user m = disconnect_all stale user (disconnect s user m)

unfoldable pub is_listener : Role → Bool
is_listener Role.admin = true
is_listener Role.supervisor = true
is_listener _ = false

module _ (alive : ℕ → Bool) where
  -- One packet to each of the sockets, and the dead ones dropped.
  unfoldable pub publish : ℕ → EventType → List ℕ → Manager → Manager
  publish user event targets m =
      disconnect_all (select (λ s. not (alive s)) targets) user
        (record m { delivered = m.delivered ++ map (λ s. (s, event)) (select alive targets) })

  -- A user without a connection is passed over, as one with an empty list of them would be.
  unfoldable pub send_to_user : ℕ → EventType → Manager → Manager
  send_to_user user event m = publish user event (sockets user m) m

  unfoldable pub send_to_users : List ℕ → EventType → Manager → Manager
  send_to_users [] event m = m
  send_to_users (u ∷ users) event m = send_to_users users event (send_to_user u event m)

  unfoldable pub listeners : List (ℕ × Role) → List ℕ
  listeners roles = map (λ r. r.0) (select (λ r. is_listener r.1) roles)

  unfoldable pub broadcast_to_admins : EventType → Manager → Manager
  broadcast_to_admins event m = send_to_users (listeners m.user_roles) event m

  -- A set, in the order in which its elements came in.
  unfoldable pub distinct : List ℕ → List ℕ
  distinct [] = []
  distinct (u ∷ users) = u ∷ select (λ v. not (v == u)) (distinct users)

  unfoldable pub broadcast_to_team : List ℕ → EventType → Manager → Manager
  broadcast_to_team members event m =
      send_to_users (distinct (members ++ listeners m.user_roles)) event m

  -- Over a copy of the items.
  unfoldable pub publish_each : List (ℕ × List ℕ) → EventType → Manager → Manager
  publish_each [] event m = m
  publish_each ((user, targets) ∷ items) event m =
      publish_each items event (publish user event targets m)

  unfoldable pub broadcast_all : EventType → Manager → Manager
  broadcast_all event m = publish_each m.active_connections event m
