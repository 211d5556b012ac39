-- ===== src/Mobile/Screen.antt =====
-- mobile/src/App.js: the whole component, with its connection, its GPS and its uplink. The address
-- that Connect makes of the input stands in Mobile/Address.
pub mod Sound
pub mod Reached
pub mod Unmount
pub mod Told
pub mod Fresh
mod Tests
use web_dashboard.Prelude.{
  ℕ, ◌-◌, Bool, true, false, not, Option, none, some, String, List, [], ◌∷◌, ◌&&◌, ◌||◌, ◌==◌,
  length, take, is_some, ltb, if◌then◌else◌, ℤ, pos, negsuc, sub_ℕ,
}
use web_dashboard.Wire.{Status, Message}
use web_dashboard.Mobile.Protocol.{Fix, Payload}
use web_dashboard.Mobile.Queue.{Codec, Storage}
use web_dashboard.Mobile.WsClient
use web_dashboard.Mobile.WsClient.{
  Phase, connected, disconnected, connecting, reconnecting, Callback, on_state, on_frame, on_rtt,
  State, connects, disconnects, sends, opens, receives, closes, errors, fires, connect, disconnect,
}
use web_dashboard.Mobile.Gps
use web_dashboard.Mobile.Gps.{Device, stop}
use web_dashboard.Mobile.Gps.Control
use web_dashboard.Mobile.Gps.Control.{
  Control, Pilots, starts, stops, ios_toggles, android_toggles, permits, fixed, fails,
}
use web_dashboard.Mobile.App.{App, send_mark, send_gps_uplink, on_connected}

-- The state variables and the refs. `effect_state` is the `connectionState` for which the effect of
-- it last ran; `age_timer` says whether the interval of 100 ms is set, and `listening` whether the
-- listener of `AppState` is.
pub record Screen {ℓ ℓ'} (N : Type ℓ) (S : Type ℓ') : Type (ℓ ⊔ ℓ') where
  pub app : App N S
  pub control : Control
  pub connection_state : Phase
  pub effect_state : Phase
  pub frame_age_ms : Option ℤ
  pub rtt_ms : Option ℤ
  pub seq : Option ℕ
  pub drop_count : ℕ
  pub sig : Option (String → Option N)
  pub gps_fix : Option (Fix N)
  pub bg_state : String
  pub mark_note : String
  pub last_frame_at : Option ℕ
  pub age_timer : Bool
  pub listening : Bool
  pub mounted : Bool

abbrev pub above : ℕ → ℤ → Bool
above bound (pos n) = ltb bound n
above bound (negsuc n) = false

abbrev pub same_phase : Phase → Phase → Bool
same_phase connecting connecting = true
same_phase connected connected = true
same_phase reconnecting reconnecting = true
same_phase disconnected disconnected = true
same_phase _ _ = false

abbrev pub is_connected : Phase → Bool
is_connected p = same_phase p connected

-- The age of the last frame, with `!last`.
abbrev pub age : ℕ → Option ℕ → Option ℤ
age now none = none
age now (some last) = if last == 0 then none else some (sub_ℕ now last)

-- `frame.status?.seq ?? null` and `frame.status?.drop ?? 0`.
abbrev pub seq_of : Option Status → Option ℕ
seq_of none = none
seq_of (some status) = status.seq

abbrev pub drop_of : Option Status → ℕ
drop_of none = 0
drop_of (some status) = elim status.drop [ none ↦ 0 | some n ↦ n ]

-- The callbacks that a call has added to those made before.
abbrev pub added {ℓ} : {N : Type ℓ} → State N → State N → List (Callback N)
added old new = take (length new.calls - length old.calls) new.calls

module _ {ℓ ℓ'} {N : Type ℓ} {S : Type ℓ'} where
  -- `staleCan`.
  unfoldable pub stale_can : Screen N S → Bool
  stale_can s = elim s.frame_age_ms [ none ↦ true | some ms ↦ above 1500 ms ]

  -- The three callbacks that the socket client is given.
  unfoldable pub call_back : ℕ → Callback N → Screen N S → Screen N S
  call_back now (on_state state) s = record s { connection_state = state }
  call_back now (on_frame frame) s = record s {
    sig = frame.sig;
    seq = seq_of frame.status;
    drop_count = drop_of frame.status;
    last_frame_at = some now;
  }
  call_back now (on_rtt ms) s = record s { rtt_ms = some ms }

  -- Callbacks in the order in which they were made, which is from the end of the list.
  unfoldable pub call_back_all : ℕ → List (Callback N) → Screen N S → Screen N S
  unfolding call_back
  call_back_all now [] s = s
  call_back_all now (c ∷ cs) s = call_back now c (call_back_all now cs s)

  -- What the socket client has become in a call or an event at `now`, and the callbacks it made.
  unfoldable pub with_ws : ℕ → State N → Screen N S → Screen N S
  unfolding call_back_all
  with_ws now ws s =
      call_back_all now (added s.app.ws ws) (record s { app = record (s.app) { ws = ws } })

  -- The two clean-ups of the effects of the first render.
  unfoldable pub unmount : Screen N S → Screen N S
  unmount s = record s {
    app = record (s.app) { ws = disconnect s.app.ws };
    control = record (s.control) { gps = stop s.control.gps };
    age_timer = false;
    listening = false;
    mounted = false;
  }

  -- The body of the interval.
  unfoldable pub age_tick : ℕ → Screen N S → Screen N S
  age_tick now s = record s { frame_age_ms = age now s.last_frame_at }

-- The time that an event of the socket brings.
abbrev pub time_of {ℓ} : {N : Type ℓ} → WsClient.Event N → ℕ
time_of (receives id now raw) = now
time_of (fires id now) = now
time_of _ = 0

-- What the user does, what the source of fixes and the socket bring, the interval, a change of the
-- phone's `AppState`, a render and the unmount.
pub data ScreenEvent {ℓ} (N : Type ℓ) : Type ℓ where
  connect_pressed : String → ScreenEvent N
  disconnect_pressed : ScreenEvent N
  gps : Control.Event → ScreenEvent N
  fix : Fix N → ℕ → ℕ → ScreenEvent N
  on_socket : WsClient.Event N → ScreenEvent N
  note_typed : String → ScreenEvent N
  mark_pressed : ℕ → ScreenEvent N
  age_ticks : ℕ → ScreenEvent N
  app_changes : String → ScreenEvent N
  renders : ScreenEvent N
  unmounts : ScreenEvent N

-- The events of the socket that the runtime brings; the others are calls.
abbrev pub from_runtime {ℓ} : {N : Type ℓ} → WsClient.Event N → Bool
from_runtime (connects url) = false
from_runtime disconnects = false
from_runtime (sends p) = false
from_runtime _ = true

-- Buttons are there while the app is mounted; answers and errors come whenever. A fix is `fix`.
abbrev pub gps_enabled : Control.Event → Bool → Bool
gps_enabled fixed mounted_now = false
gps_enabled (permits i answer) mounted_now = true
gps_enabled (fails code) mounted_now = true
gps_enabled _ mounted_now = mounted_now

-- Whether the GPS client has a watch or a bridge.
abbrev pub has_source : Gps.State → Bool
has_source g = is_some g.client.watch_id || g.client.using_bridge

module _ {ℓ ℓ'} {N : Type ℓ} {S : Type ℓ'} where
  unfoldable pub enabled : ScreenEvent N → Screen N S → Bool
  unfolding WsClient.enabled
  enabled (gps e) s = gps_enabled e s.mounted
  enabled (fix f now later) s = has_source s.control.gps
  enabled (on_socket e) s = from_runtime e && WsClient.enabled e s.app.ws
  enabled (age_ticks now) s = s.age_timer
  enabled (app_changes next) s = s.listening
  enabled _ s = s.mounted

module _ {ℓ ℓ'} {N : Type ℓ} {S : Type ℓ'} (codec : Codec (Payload N)) (storage : Storage S) where
  -- The effect of `connectionState`, after a render.
  unfoldable pub run_effects : Screen N S → Screen N S
  unfolding on_connected
  run_effects s =
      let flushed =
        if is_connected s.connection_state then on_connected codec storage s.app else s.app in
      if same_phase s.effect_state s.connection_state
      then s
      else record s { effect_state = s.connection_state; app = flushed }

  unfoldable pub handle : Device → ScreenEvent N → Screen N S → Screen N S
  unfolding with_ws run_effects unmount age_tick Control.handle connect disconnect WsClient.handle
      send_mark send_gps_uplink
  handle d (connect_pressed url) s = with_ws 0 (connect url s.app.ws) s
  handle d disconnect_pressed s = with_ws 0 (disconnect s.app.ws) s
  handle d (gps e) s = record s { control = Control.handle d e s.control }
  handle d (fix f now later) s = record s {
    gps_fix = some f;
    control = Control.handle d fixed s.control;
    app = send_gps_uplink codec storage f now later s.app;
  }
  handle d (on_socket e) s = with_ws (time_of e) (WsClient.handle e s.app.ws) s
  handle d (note_typed text) s = record s { mark_note = text }
  handle d (mark_pressed now) s = record s { app = send_mark s.mark_note now s.app }
  handle d (age_ticks now) s = age_tick now s
  handle d (app_changes next) s = record s {
    app = record (s.app) { app_state = next };
    bg_state = next;
  }
  handle d renders s = run_effects s
  handle d unmounts s = unmount s

  -- An event that cannot come now is passed over.
  unfoldable pub step : Device → ScreenEvent N → Screen N S → Screen N S
  step d e s = if enabled e s then handle d e s else s

  unfoldable pub run : Device → List (ScreenEvent N) → Screen N S → Screen N S
  run d [] s = s
  run d (e ∷ es) s = run d es (step d e s)

-- The component at its first render, with the queue after `init`.
unfoldable pub first {ℓ ℓ'} : {N : Type ℓ} {S : Type ℓ'} → Device → App N S → Screen N S
unfolding Control.first
first d app = record {
  app = app;
  control = Control.first d;
  connection_state = disconnected;
  effect_state = disconnected;
  frame_age_ms = none;
  rtt_ms = none;
  seq = none;
  drop_count = 0;
  sig = none;
  gps_fix = none;
  bg_state = app.app_state;
  mark_note = "";
  last_frame_at = none;
  age_timer = true;
  listening = true;
  mounted = true;
}
