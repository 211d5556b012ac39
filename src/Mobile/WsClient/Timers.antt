-- ===== src/Mobile/WsClient/Timers.antt =====
-- The timers of mobile/src/telemetry/ws-client.js in every state that calls and events lead to.
use web_dashboard.Prelude.{
  ℕ, ◌≤◌, ◌<◌, ◌≡◌, ◌≢◌, refl, none, some, arith, String, inl, inr, Option-cases,
}
use web_dashboard.Host.{opened, closed, set_ready, clear_timer, Timer, timeout, interval}
use web_dashboard.Wire.{Decoded}
use web_dashboard.Mobile.Protocol.{Payload}
use web_dashboard.Mobile.WsClient.{
  Listeners, State, Event, connects, disconnects, sends, opens, receives, closes, errors, fires,
  handle, Reach, here, next, start, new, connect, disconnect, send_json, on_open, on_close,
  on_receive, take_message, on_timer, on_ping, open_socket, stop_ping, start_ping, clear_reconnect,
  schedule_reconnect, max_backoff_ms, lose, emit_state, connected, reconnecting, Phase,
}

-- A pending timeout is the one in `reconnect_timer`, a pending interval the one in `ping_timer`, and
-- `ping_timer` names a pending interval; delays are in their ranges.
pub record Inv {ℓ} {N : Type ℓ} (s : State N) : Type 0 where
  pub backoff : (1000 ≤ s.client.backoff_ms) × (s.client.backoff_ms ≤ max_backoff_ms)
  pub retry :
      (t d : ℕ)
      → s.host.timers t ≡ some (timeout d)
      → (s.client.reconnect_timer ≡ some t) × (1000 ≤ d) × (d ≤ max_backoff_ms)
  pub ping :
      (t d : ℕ) → s.host.timers t ≡ some (interval d) → (s.client.ping_timer ≡ some t) × (d ≡ 5000)
  pub armed : (t : ℕ) → s.client.ping_timer ≡ some t → s.host.timers t ≡ some (interval 5000)
  pub apart : (t : ℕ) → s.client.ping_timer ≡ some t → s.client.reconnect_timer ≢ some t
  pub old : (t : ℕ) → s.client.reconnect_timer ≡ some t → t < s.host.next_timer
  pub unset : (t : ℕ) → s.host.next_timer ≤ t → s.host.timers t ≡ none

module _ {ℓ} {N : Type ℓ} where
  -- What the invariant reads stays the same.
  Inv-of_same :
      (s t : State N)
      → t.client.backoff_ms ≡ s.client.backoff_ms
      → t.client.reconnect_timer ≡ s.client.reconnect_timer
      → t.client.ping_timer ≡ s.client.ping_timer
      → t.host.timers ≡ s.host.timers
      → t.host.next_timer ≡ s.host.next_timer
      → Inv s
      → Inv t
  Inv-of_same s t b r p h n v = record {
    backoff = rw b v.backoff;
    retry = λ i d. rw (r, h) (v.retry i d);
    ping = λ i d. rw (p, h) (v.ping i d);
    armed = λ i. rw (p, h) (v.armed i);
    apart = λ i. rw (r, p) (v.apart i);
    old = λ i. rw (r, n) (v.old i);
    unset = λ i. rw (n, h) (v.unset i);
  }

  stop_ping-Inv : (s : State N) → Inv s → Inv (stop_ping s)
  unfolding stop_ping
  stop_ping-Inv s v = record {
    backoff = v.backoff;
    retry = λ t d. ground (arith, v.retry t d);
    ping = λ t d. ground (arith, v.ping t d);
    armed = λ t. ground arith;
    apart = λ t. ground arith;
    old = λ t. ground (arith, v.old t);
    unset = λ t. ground (arith, v.unset t);
  }

  start_ping-Inv : (s : State N) → Inv s → Inv (start_ping s)
  unfolding start_ping
  start_ping-Inv s v = record {
    backoff = v.backoff;
    retry = λ t d. ground (arith, v.retry t d);
    ping = λ t d. ground (arith, v.ping t d);
    armed = λ t. ground arith;
    apart = λ t. ground (arith, v.old t);
    old = λ t. ground (arith, v.old t);
    unset = λ t. ground (arith, v.unset t);
  }

  clear_reconnect-Inv : (s : State N) → Inv s → Inv (clear_reconnect s)
  unfolding clear_reconnect
  clear_reconnect-Inv s v = record {
    backoff = v.backoff;
    retry = λ t d. ground (arith, v.retry t d);
    ping = λ t d. ground (arith, v.ping t d);
    armed = λ t. ground (arith, v.armed t, v.apart t);
    apart = λ t. ground arith;
    old = λ t. ground arith;
    unset = λ t. ground (arith, v.unset t);
  }

  schedule_reconnect-Inv : (s : State N) → Inv s → Inv (schedule_reconnect s)
  unfolding schedule_reconnect
  schedule_reconnect-Inv s v = record {
    backoff = omega (arith, v.backoff);
    retry = λ t d. ground (arith, v.retry t d, v.backoff);
    ping = λ t d. ground (arith, v.ping t d);
    armed = λ t. ground (arith, v.armed t, v.apart t, v.unset t);
    apart = λ t. ground (arith, v.armed t, v.unset t);
    old = λ t. ground (arith);
    unset = λ t. ground (arith, v.unset t);
  }

  open_socket-Inv : (s : State N) → Inv s → Inv (open_socket s)
  unfolding open_socket
  open_socket-Inv s =
      Inv-of_same s (open_socket s) (ground arith) (ground arith) (ground arith) (ground arith)
        (ground arith)

  emit_state-Inv : (p : Phase) (s : State N) → Inv s → Inv (emit_state p s)
  unfolding emit_state
  emit_state-Inv p s = Inv-of_same s (emit_state p s) refl refl refl refl refl

  -- `backoff_ms` is reset to a second.
  reset-Inv :
      (s t : State N)
      → t.client.backoff_ms ≡ 1000
      → t.client.reconnect_timer ≡ s.client.reconnect_timer
      → t.client.ping_timer ≡ s.client.ping_timer
      → t.host.timers ≡ s.host.timers
      → t.host.next_timer ≡ s.host.next_timer
      → Inv s
      → Inv t
  reset-Inv s t b r p h n v =
      Inv-of_same (record s { client = record (s.client) { backoff_ms = 1000 } }) t b r p h n
        (record {
          backoff = omega arith;
          retry = v.retry;
          ping = v.ping;
          armed = v.armed;
          apart = v.apart;
          old = v.old;
          unset = v.unset;
        })

  connect-Inv : (url : String) (s : State N) → Inv s → Inv (connect url s)
  unfolding connect
  connect-Inv url s =
      reset-Inv s (connect url s) (ground arith) (ground arith) (ground arith) (ground arith)
        (ground arith)

  disconnect-Inv : (s : State N) → Inv s → Inv (disconnect s)
  unfolding disconnect
  disconnect-Inv s v =
      Inv-of_same (stop_ping (clear_reconnect s)) (disconnect s) (ground arith) (ground arith)
        (ground arith) (ground arith) (ground arith) (stop_ping-Inv _ (clear_reconnect-Inv s v))

  send_json-Inv : (p : Payload N) (s : State N) → Inv s → Inv (send_json p s).0
  unfolding send_json
  send_json-Inv p s =
      Inv-of_same s (send_json p s).0 (ground arith) (ground arith) (ground arith) (ground arith)
        (ground arith)

  on_open-Inv : (id : ℕ) (s : State N) → Inv s → Inv (on_open id s)
  unfolding on_open
  on_open-Inv id s v =
      let s' = emit_state connected (record s {
        client = record (s.client) { backoff_ms = 1000 };
        host = set_ready id opened s.host;
      }) in
      start_ping-Inv s' (reset-Inv s s' refl refl refl refl refl v)

  on_receive-Inv : (now : ℕ) (raw : Decoded N) (s : State N) → Inv s → Inv (on_receive now raw s)
  unfolding on_receive
  on_receive-Inv now none s v = v
  on_receive-Inv now (some none) s v = v
  on_receive-Inv now (some (some m)) s v =
      Inv-of_same s (take_message now m s) (ground arith) (ground arith) (ground arith)
        (ground arith) (ground arith) v

  lose-Inv : (id : ℕ) (s : State N) → Inv s → Inv (lose id s)
  unfolding lose
  lose-Inv id s v =
      let s' = record s { host = set_ready id closed s.host } in
      Inv-of_same (stop_ping s') (lose id s) refl refl refl refl refl
        (stop_ping-Inv s' (Inv-of_same s s' refl refl refl refl refl v))

  on_close-Inv : (id : ℕ) (s : State N) → Inv s → Inv (on_close id s)
  unfolding on_close
  on_close-Inv id s v = ground (
    arith,
    lose-Inv id s v,
    schedule_reconnect-Inv (emit_state reconnecting (lose id s))
        (emit_state-Inv reconnecting (lose id s) (lose-Inv id s v)),
  )

  fired-Inv :
      (id d : ℕ) (s : State N)
      → s.host.timers id ≡ some (timeout d)
      → Inv s
      → Inv (record s { host = clear_timer id s.host })
  unfolding clear_timer
  fired-Inv id d s e v = record {
    backoff = v.backoff;
    retry = λ t d. ground (arith, v.retry t d);
    ping = λ t d. ground (arith, v.ping t d);
    armed = λ t. ground (arith, v.armed t);
    apart = v.apart;
    old = v.old;
    unset = λ t. ground (arith, v.unset t);
  }

  on_ping-Inv : (now : ℕ) (s : State N) → Inv s → Inv (on_ping now s)
  unfolding on_ping
  on_ping-Inv now s =
      Inv-of_same s (on_ping now s) (ground arith) (ground arith) (ground arith) (ground arith)
        (ground arith)

  on_timer-Inv : (id now : ℕ) (s : State N) → Inv s → Inv (on_timer id now s)
  unfolding on_timer
  on_timer-Inv id now s v = elim (Option-cases (s.host.timers id)) [
    | inl e ↦ rw (e, on_timer) v
    | inr (t, e) ↦ on_Timer t e
  ]
    where
      on_Timer : (t : Timer) → s.host.timers id ≡ some t → Inv (on_timer id now s)
      on_Timer (timeout d) e = rw (e, on_timer) (open_socket-Inv _ (fired-Inv id d s e v))
      on_Timer (interval d) e = rw (e, on_timer) (on_ping-Inv now s v)

  pub handle-Inv : (e : Event N) (s : State N) → Inv s → Inv (handle e s)
  unfolding handle
  handle-Inv (connects url) s v = connect-Inv url s v
  handle-Inv disconnects s v = disconnect-Inv s v
  handle-Inv (sends p) s v = send_json-Inv p s v
  handle-Inv (opens id) s v = on_open-Inv id s v
  handle-Inv (receives id now raw) s v = on_receive-Inv now raw s v
  handle-Inv (closes id) s v = on_close-Inv id s v
  handle-Inv (errors id) s v = v
  handle-Inv (fires id now) s v = on_timer-Inv id now s v

  pub Reach-Inv : {s t : State N} → Inv s → Reach s t → Inv t
  Reach-Inv v here = v
  Reach-Inv v (next e r h) = handle-Inv e _ (Reach-Inv v r)

  pub start-Inv : (l : Listeners) → Inv {N = N} (start l)
  unfolding new
  start-Inv l = record {
    backoff = omega arith;
    retry = λ t d. ground arith;
    ping = λ t d. ground arith;
    armed = λ t. ground arith;
    apart = λ t. ground arith;
    old = λ t. ground arith;
    unset = λ t _. refl;
  }

  -- In every state that any order of calls and events leads to, at most one reconnection and one ping
  -- interval are pending: they are the ones that the object would clear. A reconnection waits for 1 to
  -- 15 seconds, a ping interval for 5, and so the next delay lies in the same range.
  pub one_timer_each :
      (l : Listeners) {s : State N}
      → Reach (start l) s
      → ((t d : ℕ)
          → s.host.timers t ≡ some (timeout d)
          → (s.client.reconnect_timer ≡ some t) × (1000 ≤ d) × (d ≤ max_backoff_ms))
        × ((t d : ℕ)
            → s.host.timers t ≡ some (interval d)
            → (s.client.ping_timer ≡ some t) × (d ≡ 5000))
        × (1000 ≤ s.client.backoff_ms)
        × (s.client.backoff_ms ≤ max_backoff_ms)
  one_timer_each l r =
      let v = Reach-Inv (start-Inv l) r in (v.retry, v.ping, v.backoff.0, v.backoff.1)
