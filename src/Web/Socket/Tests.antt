-- ===== src/Web/Socket/Tests.antt =====
-- A connection that is made, lost and retried, and the theorems about client/ws.js at that run.
use text.Mathlib.Text.{◌==◌ as str_eq}
use web_dashboard.Prelude.{
  Bool, ℕ, ◌≡◌, refl, ◌⊎◌, true, false, none, some, String, [], ◌∷◌, is_some,
}
use web_dashboard.Host.{is_live}
use web_dashboard.Web.Socket.{
  State, on_status, connecting, connected, reconnecting, disconnected, connects, opens, closes,
  fires, enabled, handle, Reach, here, next, start, new, connect, disconnect,
  default_base_backoff_ms, default_max_backoff_ms,
}
use web_dashboard.Web.Socket.Invariant.{one_connection}
use web_dashboard.Web.Socket.Announced.{IsPaced, IsTimed}
use web_dashboard.Web.Socket.Backoff.{retries-IsPaced}
use web_dashboard.Web.Socket.Closing.{Drift, stay, move, never_gives_up, quiet_after_disconnect}

abbrev S : Type 0
S = State String ℕ

abbrev is_ws : String → Bool
is_ws url = str_eq url "ws://car/ws"

abbrev fresh : S
fresh = start is_ws (new "ws://car/ws" default_base_backoff_ms default_max_backoff_ms)

-- Connected once, lost, and retried after 500 + 5 ms.
abbrev lost : S
lost = handle (closes 0 5) (handle (opens 0) (handle connects fresh))

abbrev retried : S
retried = handle (fires 1) lost

to_lost : Reach fresh lost
unfolding handle enabled new
to_lost = next (closes 0 5) (next (opens 0) (next connects here refl) refl) refl

to_retried : Reach fresh retried
unfolding handle enabled new
to_retried = next (fires 1) to_lost refl

lost_calls :
    lost.calls
    ≡ on_status reconnecting (some (record { wait_ms = 505; attempt = 1 }))
      ∷ on_status disconnected none
      ∷ on_status connected none
      ∷ on_status connecting none
      ∷ []
unfolding handle new
lost_calls = refl

one_connection_example :
    ((i j : ℕ)
      → is_live (retried.host.ready i) ≡ true
      → is_live (retried.host.ready j) ≡ true
      → i ≡ j)
    × ((i : ℕ) → is_live (retried.host.ready i) ≡ true → retried.socket.ws ≡ some i)
    × ((i : ℕ)
        → is_some (retried.host.timers i) ≡ true
        → (retried.socket.reconnect_timer ≡ some i)
          × (retried.socket.ws ≡ none)
          × (retried.socket.manual_close ≡ false))
one_connection_example =
    one_connection is_ws "ws://car/ws" default_base_backoff_ms default_max_backoff_ms to_retried

-- The connection is made again by hand, and then lost, retried, and lost while it connects.
abbrev lost_twice : S
lost_twice =
    handle (closes 2 150)
      (handle (fires 2) (handle (closes 1 7) (connect (record lost { calls = [] }))))

to_lost_twice : Drift (connect (record lost { calls = [] })) lost_twice
unfolding handle enabled connect new
to_lost_twice =
    move (closes 2 150) (move (fires 2) (move (closes 1 7) stay refl refl) refl refl) refl refl

retries-IsPaced_example : IsPaced 500 8000 lost_twice.calls × IsTimed lost_twice
retries-IsPaced_example = retries-IsPaced 500 8000 is_ws "ws://car/ws" to_lost to_lost_twice

to_lost_again : Reach (connect lost) (handle (closes 1 5) (connect lost))
unfolding handle enabled connect new
to_lost_again = next (closes 1 5) here refl

never_gives_up_example :
    let t = handle (closes 1 5) (connect lost) in
    ((i : ℕ) × (t.socket.ws ≡ some i) × (enabled (closes i 0) t ≡ true))
    ⊎ ((i : ℕ) × (t.socket.reconnect_timer ≡ some i)
        × (enabled (fires i) t ≡ true)
        × (let u = handle (fires i) t in
            (u.socket.ws ≡ some t.host.next_socket)
            × (is_live (u.host.ready t.host.next_socket) ≡ true)))
unfolding handle connect new
never_gives_up_example =
    never_gives_up is_ws "ws://car/ws" default_base_backoff_ms default_max_backoff_ms refl to_lost
      to_lost_again refl

-- An address that `new WebSocket` does not take leaves the object without a socket and a timer.
bad_address :
    let t : S = connect (start is_ws (new "car" 500 8000)) in
    (t.socket.ws ≡ none) × (t.calls ≡ on_status connecting none ∷ [])
unfolding connect new
bad_address = (refl, refl)

drifted : Drift (disconnect retried) (handle (closes 1 0) (disconnect retried))
unfolding handle enabled disconnect new
drifted = move (closes 1 0) stay refl refl

quiet_after_disconnect_example :
    let t = handle (closes 1 0) (disconnect retried) in
    (t.host.next_socket ≡ retried.host.next_socket)
    × ((i : ℕ) → is_live (t.host.ready i) ≡ false)
    × ((i : ℕ) → is_some (t.host.timers i) ≡ false)
quiet_after_disconnect_example =
    quiet_after_disconnect is_ws "ws://car/ws" default_base_backoff_ms default_max_backoff_ms
      to_retried drifted
