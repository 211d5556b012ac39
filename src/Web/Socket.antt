-- ===== src/Web/Socket.antt =====
-- client/ws.js: `TelemetrySocket`, the browser's connection with automatic reconnection.
pub mod Invariant
pub mod Announced
pub mod Backoff
pub mod Closing
mod Tests
use web_dashboard.Prelude.{
  ℕ, suc, ◌+◌, ◌*◌, ◌^◌, min, ◌≡◌, Bool, true, false, not, Option, none, some, String, List, [],
  ◌∷◌, is_some, ltb, ◌==◌, ◌&&◌, if◌then◌else◌,
}
use web_dashboard.Host.{
  ReadyState, opened, closing, closed, timeout, Host, is_live, is_open, is_connecting, is_closed,
  empty_host, add_socket, set_ready, close_socket, send_on, add_timer, clear_timer,
}
use web_dashboard.Wire.{Message, Decoded, is_frame}

-- The `state` of a status.
pub data Phase : Type 0 where
  connecting connected reconnecting disconnected : Phase

-- `{ waitMs, attempt }`.
pub record Retry : Type 0 where
  pub wait_ms : ℕ
  pub attempt : ℕ

-- A call of one of the three callbacks.
pub data Callback {ℓ} (N : Type ℓ) : Type ℓ where
  on_status : Phase → Option Retry → Callback N
  on_message : Option (Message N) → Callback N
  on_frame : Message N → Callback N

pub record Socket : Type 0 where
  pub url : String
  pub base_backoff_ms : ℕ
  pub max_backoff_ms : ℕ
  pub ws : Option ℕ
  pub manual_close : Bool
  pub reconnect_attempt : ℕ
  pub reconnect_timer : Option ℕ

-- The object, its runtime, and the callbacks made so far, the latest first. `accepts` says for which
-- addresses `new WebSocket` makes a socket; it throws for the others. The codec's text of a payload
-- is not modelled: `host.sent` holds the payload.
pub record State {ℓ κ} (P : Type ℓ) (N : Type κ) : Type (ℓ ⊔ κ) where
  pub socket : Socket
  pub host : Host P
  pub accepts : String → Bool
  pub calls : List (Callback N)

abbrev pub default_base_backoff_ms : ℕ
default_base_backoff_ms = 500

abbrev pub default_max_backoff_ms : ℕ
default_max_backoff_ms = 8000

-- The constructor.
unfoldable pub new : String → ℕ → ℕ → Socket
new url base cap = record {
  url = url;
  base_backoff_ms = base;
  max_backoff_ms = cap;
  ws = none;
  manual_close = false;
  reconnect_attempt = 0;
  reconnect_timer = none;
}

-- `this.ws === ws`, for the socket numbered `id`.
abbrev pub is_current : Option ℕ → ℕ → Bool
is_current none id = false
is_current (some w) id = w == id

-- `Math.min(maxBackoffMs, baseBackoffMs * 2 ** reconnectAttempt)`.
unfoldable pub delay : Socket → ℕ
delay k = min k.max_backoff_ms (k.base_backoff_ms * 2 ^ k.reconnect_attempt)

module _ {ℓ} {P : Type ℓ} where
  abbrev pub clear : Option ℕ → Host P → Host P
  clear none h = h
  clear (some id) h = clear_timer id h

  abbrev pub close : Option ℕ → Host P → Host P
  close none h = h
  close (some id) h = close_socket id h

  -- `this.ws && test(this.ws.readyState)`.
  abbrev pub ws_is : (ReadyState → Bool) → Option ℕ → Host P → Bool
  ws_is test none h = false
  ws_is test (some id) h = test (h.ready id)

  abbrev pub send_current : P → Option ℕ → Host P → Host P
  send_current p none h = h
  send_current p (some id) h = send_on id p h

module _ {ℓ κ} {P : Type ℓ} {N : Type κ} where
  abbrev pub emit : Callback N → State P N → State P N
  emit c s = record s { calls = c ∷ s.calls }

  unfoldable pub is_open_now : State P N → Bool
  is_open_now s = ws_is is_open s.socket.ws s.host

  -- An exception of `new WebSocket` leaves the rest as it is. It is passed on by `connect`, and by the
  -- body of the timer to the runtime.
  unfoldable pub open_socket : State P N → State P N
  unfolding add_socket
  open_socket s =
      let s' = emit (on_status connecting none) s in
      if ws_is is_live s.socket.ws s.host
      then s
      else if s.accepts s.socket.url
      then record s' {
        socket = record (s.socket) { ws = some s.host.next_socket };
        host = add_socket s.host;
      }
      else s'

  unfoldable pub connect : State P N → State P N
  unfolding open_socket clear_timer
  connect s = open_socket (record s {
    socket = record (s.socket) {
      manual_close = false;
      reconnect_timer = none;
      reconnect_attempt = 0;
    };
    host = clear s.socket.reconnect_timer s.host;
  })

  unfoldable pub disconnect : State P N → State P N
  unfolding clear_timer close_socket
  disconnect s = record s {
    socket = record (s.socket) { manual_close = true; reconnect_timer = none };
    host = close s.socket.ws (clear s.socket.reconnect_timer s.host);
    calls = on_status disconnected none ∷ s.calls;
  }

  unfoldable pub send : P → State P N → State P N × Bool
  unfolding is_open_now send_on
  send p s =
      if is_open_now s
      then (record s { host = send_current p s.socket.ws s.host }, true)
      else (s, false)

  -- `jitter` is `Math.floor(Math.random() * 200)`.
  unfoldable pub schedule_reconnect : ℕ → State P N → State P N
  unfolding delay add_timer
  schedule_reconnect jitter s =
      let attempt = suc s.socket.reconnect_attempt in
      let wait = delay s.socket + jitter in
      record s {
        socket = record (s.socket) {
          reconnect_attempt = attempt;
          reconnect_timer = some s.host.next_timer;
        };
        host = add_timer (timeout wait) s.host;
        calls =
            on_status reconnecting (some (record { wait_ms = wait; attempt = attempt })) ∷ s.calls;
      }

  -- The `open` event of the socket `id`.
  unfoldable pub on_open : ℕ → State P N → State P N
  unfolding set_ready
  on_open id s =
      let s' = record s { host = set_ready id opened s.host } in
      if is_current s.socket.ws id
      then record s' {
        socket = record (s.socket) { reconnect_attempt = 0 };
        calls = on_status connected none ∷ s.calls;
      }
      else s'

  -- The body of the `message` listener behind its guard; `none` is a decoder that threw.
  unfoldable pub deliver : Decoded N → State P N → State P N
  deliver none s = s
  deliver (some none) s = emit (on_message none) s
  deliver (some (some m)) s =
      let s' = emit (on_message (some m)) s in if is_frame m then emit (on_frame m) s' else s'

  -- The `message` event of the socket `id`, with the text as the codec decodes it.
  unfoldable pub on_receive : ℕ → Decoded N → State P N → State P N
  unfolding deliver
  on_receive id raw s = if is_current s.socket.ws id then deliver raw s else s

  -- The current socket is closed: what the `close` listener does first.
  abbrev pub lose : State P N → State P N
  lose s = record s {
    socket = record (s.socket) { ws = none };
    calls = on_status disconnected none ∷ s.calls;
  }

  -- The `close` event of the socket `id`.
  unfoldable pub on_close : ℕ → ℕ → State P N → State P N
  unfolding set_ready
  on_close id jitter s =
      let s' = record s { host = set_ready id closed s.host } in
      if is_current s.socket.ws id
      then (if s.socket.manual_close then lose s' else schedule_reconnect jitter (lose s'))
      else s'

  -- The timer that `schedule_reconnect` set.
  unfoldable pub on_timer : ℕ → State P N → State P N
  unfolding open_socket clear_timer
  on_timer id s = open_socket (record s {
    socket = record (s.socket) { reconnect_timer = none };
    host = clear_timer id s.host;
  })

-- Calls of the methods, and events of the runtime. With `peer_closes` the server begins the closing
-- handshake, which no listener hears of.
pub data Event {ℓ κ} (P : Type ℓ) (N : Type κ) : Type (ℓ ⊔ κ) where
  connects : Event P N
  disconnects : Event P N
  sends : P → Event P N
  opens : ℕ → Event P N
  receives : ℕ → Decoded N → Event P N
  peer_closes : ℕ → Event P N
  closes : ℕ → ℕ → Event P N
  errors : ℕ → Event P N
  fires : ℕ → Event P N

module _ {ℓ κ} {P : Type ℓ} {N : Type κ} where
  -- What the runtime can do next. A message comes on an open socket only; the jitter is below 200.
  unfoldable pub enabled : Event P N → State P N → Bool
  enabled (opens id) s = ltb id s.host.next_socket && is_connecting (s.host.ready id)
  enabled (receives id raw) s = is_open (s.host.ready id)
  enabled (peer_closes id) s = is_open (s.host.ready id)
  enabled (closes id jitter) s = not (is_closed (s.host.ready id)) && ltb jitter 200
  enabled (fires id) s = is_some (s.host.timers id)
  enabled _ s = true

  -- The `error` listener does nothing.
  unfoldable pub handle : Event P N → State P N → State P N
  unfolding connect disconnect send on_open on_receive on_close on_timer schedule_reconnect
      set_ready
  handle connects s = connect s
  handle disconnects s = disconnect s
  handle (sends p) s = (send p s).0
  handle (opens id) s = on_open id s
  handle (receives id raw) s = on_receive id raw s
  handle (peer_closes id) s = record s { host = set_ready id closing s.host }
  handle (closes id jitter) s = on_close id jitter s
  handle (errors id) s = s
  handle (fires id) s = on_timer id s

  -- The states that any order of calls and events leads to.
  pub data Reach (s : State P N) : State P N → Type (ℓ ⊔ κ) where
    here : Reach s s
    next : {t : State P N} (e : Event P N) → Reach s t → enabled e t ≡ true → Reach s (handle e t)

  abbrev pub start : (String → Bool) → Socket → State P N
  start accepts k = record { socket = k; host = empty_host; accepts = accepts; calls = [] }
