-- ===== src/Tests/WebSocket.antt =====
-- Runs of the websocket manager, and its theorems at a concrete state.
use incident.Prelude.{
  ℕ, Bool, false, ◌++◌, map, [], ◌∷◌, ◌≡◌, refl, ◌==◌, not, lookup, put, delete, select,
}
use incident.Models.{Role}
use incident.Session.{EventType}
use incident.WebSocket.{
  is_listener, Manager, connect, disconnect, disconnect_all, sockets, remove, left_with, without,
  publish, send_to_user, send_to_users, listeners, broadcast_to_admins,
}
use incident.WebSocket.Delivery.{send_to_user_lem}
use incident.WebSocket.Registry.{
  no_one, perform, start, step, joins, sends, IsRegistry, Reachable-IsRegistry,
}

-- Two sockets of user 1, of which the second is dead, and one of an administrator.
abbrev is_alive : ℕ → Bool
is_alive socket = not (socket == 11)

abbrev connected : Manager
connected = connect 20 2 Role.admin (connect 11 1 Role.employee (connect 10 1 Role.employee no_one))

sockets_runs : Unit {0}
unfolding lookup put delete select connect disconnect disconnect_all sockets remove left_with
    without publish send_to_user send_to_users listeners is_listener broadcast_to_admins
sockets_runs = tt

pruned :
    (send_to_user is_alive 1 EventType.my_work_updated connected).active_connections
    ≡ (1, 10 ∷ []) ∷ (2, 20 ∷ []) ∷ []
unfolding sockets_runs
pruned = refl

to_admins :
    (broadcast_to_admins is_alive EventType.coverage_exception connected).delivered
    ≡ (20, EventType.coverage_exception) ∷ []
unfolding sockets_runs
to_admins = refl

send_to_user_example :
    ((send_to_user is_alive 1 EventType.my_work_updated connected).delivered
      ≡ connected.delivered
        ++ map (λ s. (s, EventType.my_work_updated)) (select is_alive (sockets 1 connected)))
    × (sockets 1 (send_to_user is_alive 1 EventType.my_work_updated connected)
        ≡ select is_alive (sockets 1 connected))
    × ((other : ℕ)
        → (1 == other) ≡ false
        → sockets other (send_to_user is_alive 1 EventType.my_work_updated connected)
          ≡ sockets other connected)
send_to_user_example = send_to_user_lem is_alive 1 EventType.my_work_updated connected

Reachable-IsRegistry_example : IsRegistry (
    perform is_alive
      (sends 1 EventType.my_work_updated)
      (perform is_alive (joins 11 1 Role.employee) no_one))
Reachable-IsRegistry_example = Reachable-IsRegistry (
    step is_alive (sends 1 EventType.my_work_updated)
      (step is_alive (joins 11 1 Role.employee) start))
