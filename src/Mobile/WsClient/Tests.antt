-- ===== src/Mobile/WsClient/Tests.antt =====
-- Two connections that overlap, and the theorems about mobile/src/telemetry/ws-client.js there.
use web_dashboard.Prelude.{ℕ, ◌≤◌, ◌≡◌, refl, true, some, [], ◌∷◌}
use web_dashboard.Host.{timeout, interval}
use web_dashboard.Mobile.Protocol.{Payload, create_mark_payload}
use web_dashboard.Mobile.WsClient.{
  Listeners, State, on_state, connecting, connected, reconnecting, disconnected, connects,
  disconnects, opens, closes, enabled, handle, Reach, here, next, start, new, max_backoff_ms,
}
use web_dashboard.Mobile.WsClient.Timers.{one_timer_each}

abbrev all_heard : Listeners
all_heard = record { state = true; frame = true; rtt = true }

abbrev S : Type 0
S = State ℕ

abbrev fresh : S
fresh = start all_heard

abbrev mark : Payload ℕ
mark = create_mark_payload "pit" 5

-- Connected, disconnected, and connected again before the first socket has closed.
abbrev again : S
again =
    handle (connects "ws://car/ws")
      (handle disconnects (handle (opens 0) (handle (connects "ws://car/ws") fresh)))

abbrev opened_once : S
opened_once = handle (opens 0) (handle (connects "ws://car/ws") fresh)

to_opened : Reach fresh opened_once
unfolding handle enabled new
to_opened = next (opens 0) (next (connects "ws://car/ws") here refl) refl

to_again : Reach fresh again
unfolding handle enabled new
to_again = next (connects "ws://car/ws") (next disconnects to_opened refl) refl

-- The late close of the first socket makes the object report a lost connection.
late_close :
    (handle (closes 0) again).calls
    ≡ on_state reconnecting
      ∷ on_state connecting
      ∷ on_state disconnected
      ∷ on_state connected
      ∷ on_state connecting
      ∷ []
unfolding handle new
late_close = refl

one_timer_each_example :
    ((t d : ℕ)
      → opened_once.host.timers t ≡ some (timeout d)
      → (opened_once.client.reconnect_timer ≡ some t) × (1000 ≤ d) × (d ≤ max_backoff_ms))
    × ((t d : ℕ)
        → opened_once.host.timers t ≡ some (interval d)
        → (opened_once.client.ping_timer ≡ some t) × (d ≡ 5000))
    × (1000 ≤ opened_once.client.backoff_ms)
    × (opened_once.client.backoff_ms ≤ max_backoff_ms)
one_timer_each_example = one_timer_each all_heard to_opened
