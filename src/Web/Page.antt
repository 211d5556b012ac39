-- ===== src/Web/Page.antt =====
-- client/app.js: the page's connection, its ping timer, its counters of frames, and what it shows of
-- them (with `updateConnection` of client/ui.js). Each press of the connect button makes a new
-- `TelemetrySocket`; the callbacks of all of them act on the same variables.
pub mod Counting
pub mod Frames
pub mod Ping
pub mod Replaced
mod Tests
use text.Mathlib.Text.{◌==◌ as str_eq}
use web_dashboard.Prelude.{
  ℕ, suc, ◌+◌, ◌-◌, Bool, true, false, not, Option, none, some, String, List, [], ◌∷◌, ◌&&◌, ◌||◌,
  ltb, if◌then◌else◌, ◌≡◌, is_some,
}
use web_dashboard.Host.{update}
use web_dashboard.Wire.{Message, Status}
use web_dashboard.Mobile.Protocol.{Fix, Meta, or_else}
use web_dashboard.Web.Socket
use web_dashboard.Web.Socket.{
  Phase, connecting, connected, reconnecting, disconnected, Callback, on_status, on_message,
  on_frame, State, new, default_base_backoff_ms, default_max_backoff_ms, is_open_now, connect,
  disconnect, send, handle, enabled,
}
use web_dashboard.Web.Page.Counting.{Counters, server_drop, no_frames, count_frame}

-- What the page sends; a time is in milliseconds.
pub data Payload {ℓ} (N : Type ℓ) : Type ℓ where
  ping : ℕ → Payload N
  gps : ℕ → Fix N → Meta → Payload N
  mark : ℕ → String → Payload N

-- The sockets are numbered in the order in which they are made, and so are the intervals. `accepts`
-- says for which addresses `new WebSocket` makes a socket.
pub record Page {ℓ} (N : Type ℓ) : Type ℓ where
  pub sockets : ℕ → State (Payload N) N
  pub made : ℕ
  pub socket : Option ℕ
  pub ping_timer : Option ℕ
  pub intervals : ℕ → Bool
  pub next_interval : ℕ
  pub socket_state : Phase
  pub connect_disabled : Bool
  pub disconnect_disabled : Bool
  pub rtt_ms : Option ℕ
  pub counters : Counters N
  pub accepts : String → Bool

abbrev pub frame_staleness_threshold_ms : ℕ
frame_staleness_threshold_ms = 1500

abbrev pub is_connected : Phase → Bool
is_connected connected = true
is_connected _ = false

abbrev pub is_reconnecting : Phase → Bool
is_reconnecting reconnecting = true
is_reconnecting _ = false

abbrev pub is_disconnected : Phase → Bool
is_disconnected disconnected = true
is_disconnected _ = false

-- `clearInterval`.
abbrev pub cleared : Option ℕ → (ℕ → Bool) → ℕ → Bool
cleared none intervals = intervals
cleared (some t) intervals = update intervals t false

module _ {ℓ} {N : Type ℓ} where
  abbrev pub is_pong : Message N → Bool
  is_pong m = elim m.kind [ none ↦ false | some k ↦ str_eq k "pong" ]

  -- The `onMessage` callback, at the time `date` of `Date.now()`.
  unfoldable pub measure : ℕ → Option (Message N) → Page N → Page N
  measure date none p = p
  measure date (some m) p = elim m.t_ms [
    | none ↦ p
    | some t ↦ if is_pong m then record p { rtt_ms = some (date - t) } else p
  ]

  unfoldable pub stop_ping : Page N → Page N
  stop_ping p = record p { ping_timer = none; intervals = cleared p.ping_timer p.intervals }

  unfoldable pub start_ping : Page N → Page N
  unfolding stop_ping
  start_ping p =
      let p' = stop_ping p in
      record p' {
        ping_timer = some p'.next_interval;
        intervals = update p'.intervals p'.next_interval true;
        next_interval = suc p'.next_interval;
      }

  -- The `onStatus` callback, of whichever socket.
  unfoldable pub show_status : Phase → Page N → Page N
  unfolding start_ping stop_ping
  show_status phase p =
      let p' = record p {
        socket_state = phase;
        connect_disabled = is_connected phase;
        disconnect_disabled = not (is_connected phase) && not (is_reconnecting phase);
      } in
      if is_connected phase
      then start_ping p'
      else if is_disconnected phase
      then stop_ping p'
      else p'

-- The two clocks at an event.
pub record Clock : Type 0 where
  pub now_ms : ℕ
  pub date_ms : ℕ

module _ {ℓ} {N : Type ℓ} where
  unfoldable pub call_back : Clock → Callback N → Page N → Page N
  unfolding show_status measure count_frame
  call_back c (on_status phase retry) p = show_status phase p
  call_back c (on_message m) p = measure c.date_ms m p
  call_back c (on_frame m) p = record p { counters = count_frame c.now_ms m p.counters }

  -- The callbacks of one event, the latest first.
  unfoldable pub call_back_all : Clock → List (Callback N) → Page N → Page N
  unfolding call_back
  call_back_all c [] p = p
  call_back_all c (e ∷ es) p = call_back c e (call_back_all c es p)

  -- The socket `k` goes to the state `s`, which holds the callbacks that it made on the way.
  unfoldable pub settle : Clock → ℕ → State (Payload N) N → Page N → Page N
  unfolding call_back_all
  settle c k s p = call_back_all c s.calls (record p { sockets = update p.sockets k s })

  -- A method or an event of the socket `k`.
  unfoldable pub socket_does : Clock → ℕ → Socket.Event (Payload N) N → Page N → Page N
  unfolding settle
  socket_does c k e p = settle c k (handle e (record (p.sockets k) { calls = [] })) p

  abbrev pub leave : Clock → Option ℕ → Page N → Page N
  leave c none p = p
  leave c (some k) p = socket_does c k Socket.disconnects p

  -- `socket = new TelemetrySocket(…)`.
  unfoldable pub new_socket : String → Page N → Page N
  new_socket url p = record p {
    sockets =
        update p.sockets p.made
          (Socket.start p.accepts (new url default_base_backoff_ms default_max_backoff_ms));
    made = suc p.made;
    socket = some p.made;
  }

  -- `connectSocket`, with the address that it makes of the input.
  unfoldable pub connect_socket : Clock → String → Page N → Page N
  unfolding socket_does new_socket
  connect_socket c url p =
      let p' = leave c p.socket p in socket_does c p'.made Socket.connects (new_socket url p')

  unfoldable pub disconnect_socket : Clock → Page N → Page N
  unfolding socket_does stop_ping
  disconnect_socket c p = stop_ping (leave c p.socket p)

  abbrev pub send_to : Clock → Payload N → Option ℕ → Page N → Page N
  send_to c payload none p = p
  send_to c payload (some k) p = socket_does c k (Socket.sends payload) p

  -- The ping interval.
  unfoldable pub on_ping : Clock → Page N → Page N
  unfolding socket_does
  on_ping c p = send_to c (ping c.date_ms) p.socket p

  abbrev pub socket_open : Page N → Bool
  socket_open p = elim p.socket [ none ↦ false | some k ↦ is_open_now (p.sockets k) ]

  -- `sendGpsUplink`; `visible` is `document.visibilityState`, `os` is what `detectClientOs` finds.
  unfoldable pub send_gps_uplink : Clock → Bool → String → Option String → Fix N → Page N → Page N
  unfolding socket_does
  send_gps_uplink c visible os platform fix p =
      let payload = gps c.date_ms fix (record {
        source = "web";
        bg_state = if visible then "foreground" else "background";
        os = os;
        app_ver = "web-mvp-v1";
        device = or_else platform "unknown";
      }) in
      if socket_open p then send_to c payload p.socket p else p

  -- What `sendMark` sends.
  unfoldable pub send_mark : Clock → String → Page N → Page N
  unfolding socket_does
  send_mark c note p = if socket_open p then send_to c (mark c.date_ms note) p.socket p else p

-- The text and the class of the connection's pill.
pub data Pill : Type 0 where
  shows_connected shows_stale shows_disconnected : Pill

-- `stale` of the page's own timer.
abbrev pub frame_is_old : ℕ → Option ℕ → Bool
frame_is_old now none = true
frame_is_old now (some received) = ltb frame_staleness_threshold_ms (now - received)

module _ {ℓ} {N : Type ℓ} where
  unfoldable pub is_stale : ℕ → Page N → Bool
  is_stale now p = not (socket_open p) || frame_is_old now p.counters.last_frame_recv_ms

  -- `updateConnection` on what the timer gives it.
  unfoldable pub pill : ℕ → Page N → Pill
  unfolding is_stale
  pill now p =
      if socket_open p || is_reconnecting p.socket_state
      then (if is_stale now p then shows_stale else shows_connected)
      else shows_disconnected

  -- The drop count that is shown.
  unfoldable pub shown_drop : Page N → ℕ
  shown_drop p =
      elim p.counters.last_can_frame [ none ↦ 0 | some m ↦ server_drop m ]
      + p.counters.local_drop_count

-- The events that the runtime raises, as against calls of the methods.
abbrev pub from_runtime {ℓ κ} : {P : Type ℓ} {N : Type κ} → Socket.Event P N → Bool
from_runtime Socket.connects = false
from_runtime Socket.disconnects = false
from_runtime (Socket.sends p) = false
from_runtime _ = true

-- Presses of the buttons, the ping interval, and what happens to a socket.
pub data Event {ℓ} (N : Type ℓ) : Type ℓ where
  connects : String → Event N
  disconnects : Event N
  pings : ℕ → Event N
  uplinks : Bool → String → Option String → Fix N → Event N
  marks : String → Event N
  happens : ℕ → Socket.Event (Payload N) N → Event N

module _ {ℓ} {N : Type ℓ} where
  unfoldable pub page_handle : Clock → Event N → Page N → Page N
  unfolding connect_socket disconnect_socket on_ping send_gps_uplink send_mark socket_does
  page_handle c (connects url) p = connect_socket c url p
  page_handle c disconnects p = disconnect_socket c p
  page_handle c (pings t) p = if p.intervals t then on_ping c p else p
  page_handle c (uplinks visible os platform fix) p = send_gps_uplink c visible os platform fix p
  page_handle c (marks note) p = send_mark c note p
  page_handle c (happens k e) p =
      if ltb k p.made && from_runtime e && enabled e (p.sockets k) then socket_does c k e p else p

  unfoldable pub page_run : List (Clock × Event N) → Page N → Page N
  page_run [] p = p
  page_run ((c, e) ∷ es) p = page_run es (page_handle c e p)

  abbrev pub blank : (String → Bool) → Page N
  blank accepts = record {
    sockets = λ k. Socket.start accepts (new "" default_base_backoff_ms default_max_backoff_ms);
    made = 0;
    socket = none;
    ping_timer = none;
    intervals = λ t. false;
    next_interval = 1;
    socket_state = disconnected;
    connect_disabled = false;
    disconnect_disabled = false;
    rtt_ms = none;
    counters = no_frames;
    accepts = accepts;
  }
