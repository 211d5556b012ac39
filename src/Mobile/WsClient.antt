-- ===== src/Mobile/WsClient.antt =====
-- mobile/src/telemetry/ws-client.js: `TelemetryWsClient`, the phone's connection.
pub mod Timers
pub mod Orphans
mod Tests
use text.Mathlib.Text.{◌==◌ as str_eq}
use web_dashboard.Prelude.{
  ℕ, ◌*◌, ◌≡◌, min, Bool, true, false, not, Option, none, some, String, List, [], ◌∷◌, ◌&&◌, ◌==◌,
  is_some, ltb, if◌then◌else◌, ℤ, sub_ℕ,
}
use web_dashboard.Host.{
  opened, closed, timeout, interval, Host, is_open, is_connecting, is_closed, empty_host,
  add_socket, set_ready, close_socket, send_on, add_timer, clear_timer,
}
use web_dashboard.Wire.{Message, Decoded, is_frame}
use web_dashboard.Mobile.Protocol.{Payload, create_ping_payload}

-- The states that `onState` is told.
pub data Phase : Type 0 where
  connecting connected reconnecting disconnected : Phase

pub data Callback {ℓ} (N : Type ℓ) : Type ℓ where
  on_state : Phase → Callback N
  on_frame : Message N → Callback N
  on_rtt : ℤ → Callback N

-- Which of the three callbacks the constructor was given.
pub record Listeners : Type 0 where
  pub state : Bool
  pub frame : Bool
  pub rtt : Bool

pub record Client : Type 0 where
  pub listens : Listeners
  pub url : Option String
  pub ws : Option ℕ
  pub reconnect_timer : Option ℕ
  pub ping_timer : Option ℕ
  pub backoff_ms : ℕ
  pub manual_close : Bool
  pub last_ping_at_ms : Option ℕ

-- The object, its runtime, and the callbacks made so far, the latest first.
pub record State {ℓ} (N : Type ℓ) : Type ℓ where
  pub client : Client
  pub host : Host (Payload N)
  pub calls : List (Callback N)

abbrev pub max_backoff_ms : ℕ
max_backoff_ms = 15000

unfoldable pub new : Listeners → Client
new listeners = record {
  listens = listeners;
  url = none;
  ws = none;
  reconnect_timer = none;
  ping_timer = none;
  backoff_ms = 1000;
  manual_close = false;
  last_ping_at_ms = none;
}

-- `if (this.url)`.
abbrev pub has_url : Option String → Bool
has_url none = false
has_url (some u) = not (str_eq u "")

-- `this.lastPingAtMs &&`, with the time of the ping.
abbrev pub awaited_ping : Option ℕ → Option ℕ
awaited_ping none = none
awaited_ping (some t) = if t == 0 then none else some t

-- `payload.type === "pong"`.
abbrev pub is_pong {ℓ} : {N : Type ℓ} → Message N → Bool
is_pong m = elim m.kind [ none ↦ false | some k ↦ str_eq k "pong" ]

module _ {ℓ} {P : Type ℓ} where
  abbrev pub clear : Option ℕ → Host P → Host P
  clear none h = h
  clear (some id) h = clear_timer id h

  abbrev pub close : Option ℕ → Host P → Host P
  close none h = h
  close (some id) h = close_socket id h

  abbrev pub ws_open : Option ℕ → Host P → Bool
  ws_open none h = false
  ws_open (some id) h = is_open (h.ready id)

  abbrev pub send_current : P → Option ℕ → Host P → Host P
  send_current p none h = h
  send_current p (some id) h = send_on id p h

module _ {ℓ} {N : Type ℓ} where
  abbrev pub told : Bool → Callback N → List (Callback N) → List (Callback N)
  told heard c calls = if heard then c ∷ calls else calls

  unfoldable pub emit_state : Phase → State N → State N
  emit_state p s = record s { calls = told s.client.listens.state (on_state p) s.calls }

  unfoldable pub is_open_now : State N → Bool
  is_open_now s = ws_open s.client.ws s.host

  unfoldable pub send_json : Payload N → State N → State N × Bool
  unfolding is_open_now send_on
  send_json p s =
      if is_open_now s
      then (record s { host = send_current p s.client.ws s.host }, true)
      else (s, false)

  unfoldable pub open_socket : State N → State N
  unfolding add_socket emit_state
  open_socket s =
      let s' = emit_state connecting s in
      if has_url s.client.url
      then record s' {
        client = record (s.client) { ws = some s.host.next_socket };
        host = add_socket s.host;
      }
      else s

  unfoldable pub clear_reconnect : State N → State N
  unfolding clear_timer
  clear_reconnect s = record s {
    client = record (s.client) { reconnect_timer = none };
    host = clear s.client.reconnect_timer s.host;
  }

  unfoldable pub stop_ping : State N → State N
  unfolding clear_timer
  stop_ping s = record s {
    client = record (s.client) { ping_timer = none };
    host = clear s.client.ping_timer s.host;
  }

  unfoldable pub start_ping : State N → State N
  unfolding stop_ping add_timer
  start_ping s =
      let s' = stop_ping s in
      record s' {
        client = record (s'.client) { ping_timer = some s'.host.next_timer };
        host = add_timer (interval 5000) s'.host;
      }

  unfoldable pub schedule_reconnect : State N → State N
  unfolding clear_reconnect add_timer
  schedule_reconnect s =
      let s' = clear_reconnect s in
      record s' {
        client = record (s'.client) {
          reconnect_timer = some s'.host.next_timer;
          backoff_ms = min (s.client.backoff_ms * 2) max_backoff_ms;
        };
        host = add_timer (timeout s.client.backoff_ms) s'.host;
      }

  unfoldable pub connect : String → State N → State N
  unfolding open_socket
  connect url s = open_socket (record s {
    client = record (s.client) { url = some url; manual_close = false; backoff_ms = 1000 };
  })

  unfoldable pub disconnect : State N → State N
  unfolding clear_reconnect stop_ping close_socket emit_state
  disconnect s =
      let s' = stop_ping (clear_reconnect s) in
      emit_state disconnected (record s' {
        client = record (s'.client) { manual_close = true; ws = none };
        host = close s.client.ws s'.host;
      })

  -- `onopen` of the socket `id`, whichever it is.
  unfoldable pub on_open : ℕ → State N → State N
  unfolding set_ready emit_state start_ping
  on_open id s = start_ping (
      emit_state connected (record s {
        client = record (s.client) { backoff_ms = 1000 };
        host = set_ready id opened s.host;
      }))

  -- `onmessage` behind its test for a payload, at the time `now`.
  unfoldable pub take_message : ℕ → Message N → State N → State N
  take_message now m s =
      let frame =
        if is_frame m && s.client.listens.frame
        then record s { calls = on_frame m ∷ s.calls }
        else s in
      elim (awaited_ping s.client.last_ping_at_ms) [
        | none ↦ frame
        | some sent ↦
            if is_pong m
            then record s {
              client = record (s.client) { last_ping_at_ms = none };
              calls = told s.client.listens.rtt (on_rtt (sub_ℕ now sent)) s.calls;
            }
            else frame
      ]

  unfoldable pub on_receive : ℕ → Decoded N → State N → State N
  unfolding take_message
  on_receive now none s = s
  on_receive now (some none) s = s
  on_receive now (some (some m)) s = take_message now m s

  -- What `onclose` of the socket `id`, whichever it is, does first.
  unfoldable pub lose : ℕ → State N → State N
  unfolding set_ready stop_ping
  lose id s =
      let s' = stop_ping (record s { host = set_ready id closed s.host }) in
      record s' { client = record (s'.client) { ws = none } }

  unfoldable pub on_close : ℕ → State N → State N
  on_close id s =
      if s.client.manual_close
      then lose id s
      else schedule_reconnect (emit_state reconnecting (lose id s))

  -- The body of the ping interval.
  unfoldable pub on_ping : ℕ → State N → State N
  unfolding send_json create_ping_payload
  on_ping now s =
      let s' = record s { client = record (s.client) { last_ping_at_ms = some now } } in
      if is_open_now s then (send_json (create_ping_payload now) s').0 else s

  -- A timer of this object: a timeout is a reconnection, and an interval a ping. The field
  -- `reconnect_timer` keeps the number of a timeout that has fired.
  unfoldable pub on_timer : ℕ → ℕ → State N → State N
  unfolding open_socket clear_timer on_ping
  on_timer id now s = elim (s.host.timers id) [
    | none ↦ s
    | some (timeout d) ↦ open_socket (record s { host = clear_timer id s.host })
    | some (interval d) ↦ on_ping now s
  ]

-- Calls of the methods, and events of the runtime.
pub data Event {ℓ} (N : Type ℓ) : Type ℓ where
  connects : String → Event N
  disconnects : Event N
  sends : Payload N → Event N
  opens : ℕ → Event N
  receives : ℕ → ℕ → Decoded N → Event N
  closes : ℕ → Event N
  errors : ℕ → Event N
  fires : ℕ → ℕ → Event N

module _ {ℓ} {N : Type ℓ} where
  unfoldable pub enabled : Event N → State N → Bool
  enabled (opens id) s = ltb id s.host.next_socket && is_connecting (s.host.ready id)
  enabled (receives id now raw) s = is_open (s.host.ready id)
  enabled (closes id) s = not (is_closed (s.host.ready id))
  enabled (fires id now) s = is_some (s.host.timers id)
  enabled _ s = true

  unfoldable pub handle : Event N → State N → State N
  unfolding connect disconnect send_json on_open on_receive on_close lose emit_state
      schedule_reconnect on_timer
  handle (connects url) s = connect url s
  handle disconnects s = disconnect s
  handle (sends p) s = (send_json p s).0
  handle (opens id) s = on_open id s
  handle (receives id now raw) s = on_receive now raw s
  handle (closes id) s = on_close id s
  handle (errors id) s = s
  handle (fires id now) s = on_timer id now s

  pub data Reach (s : State N) : State N → Type ℓ where
    here : Reach s s
    next : {t : State N} (e : Event N) → Reach s t → enabled e t ≡ true → Reach s (handle e t)

  abbrev pub start : Listeners → State N
  start l = record { client = new l; host = empty_host; calls = [] }
