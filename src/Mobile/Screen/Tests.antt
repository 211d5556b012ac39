-- ===== src/Mobile/Screen/Tests.antt =====
-- Runs of mobile/src/App.js on concrete events.
use web_dashboard.Prelude.{ℕ, ◌+◌, ◌≡◌, refl, Bool, true, false, none, some, List, [], ◌∷◌}
use web_dashboard.Wire.{Message}
use web_dashboard.Mobile.Protocol.{Fix, Payload}
use web_dashboard.Mobile.Queue
use web_dashboard.Mobile.Queue.{Codec, Storage, other}
use web_dashboard.Mobile.WsClient
use web_dashboard.Mobile.WsClient.{Listeners, start, opens, receives, closes, here}
use web_dashboard.Mobile.Gps
use web_dashboard.Mobile.Gps.{android, Device, Permission, request_location_permission}
use web_dashboard.Mobile.Gps.Sources.{Idle}
use web_dashboard.Mobile.Gps.Calls.{fresh-Idle}
use web_dashboard.Mobile.Gps.Control
use web_dashboard.Mobile.Gps.Control.{starts, stops, permits}
use web_dashboard.Mobile.App.{App, flush_queued_gps, send_queued}
use web_dashboard.Mobile.App.Accounts.{accounted, IsSound}
use web_dashboard.Mobile.Screen.{
  Screen, ScreenEvent, connect_pressed, gps, fix, on_socket, age_ticks, renders, unmounts, enabled,
  first, run, handle, step, stale_can,
}
use web_dashboard.Mobile.Screen.Sound.{delivered, ShowsGps, run_accounted}
use web_dashboard.Mobile.Screen.Unmount.{unmount_quiet}
use web_dashboard.Mobile.Screen.Fresh.{frame_stays_fresh}

abbrev P : Type 0
P = Payload ℕ

abbrev codec : Codec P
codec = record { stringify = λ _. "[]"; parse = λ _. some other }

abbrev no_store : Storage (Unit {0})
no_store = record { get_item = λ s key. some none; set_item = λ s key value. (s, true) }

abbrev here_now : Fix ℕ
here_now = record { lat = 37; lon = 127; spd = 0; hdg = none; acc = some 5; alt = none }

abbrev listeners : Listeners
listeners = record { state = true; frame = true; rtt = true }

abbrev phone : Device
phone = record {
  os = android;
  version = 33;
  has_background = true;
  has_authorization = false;
  ios_bridge = false;
  android_bridge = false;
}

abbrev app : App ℕ (Unit {0})
app = record {
  ws = start listeners;
  queue = record (Queue.new "k" 1000) { loaded = true };
  store = tt;
  flushing = false;
  queue_depth = 0;
  app_state = "active";
  platform = record { os = some "android"; model = none; brand = some "" };
}

abbrev says_yes : Permission → Bool
says_yes p = true

-- Two fixes, before and after the connection is up.
abbrev day : List (ScreenEvent ℕ)
day =
    gps starts
    ∷ gps (permits 0 says_yes)
    ∷ fix here_now 1 2
    ∷ connect_pressed "ws://car/ws"
    ∷ on_socket (opens 0)
    ∷ renders
    ∷ fix here_now 6 7
    ∷ []

app-IsSound : IsSound app
unfolding Queue.new
app-IsSound = record { loaded = refl; idle = refl; fixes = tt }

button_idle : ShowsGps (first phone app)
unfolding ShowsGps first Control.first
button_idle up = fresh-Idle

run_accounted_example :
    let s = first phone app in
    let t = run codec no_store phone day s in
    (accounted t.app ≡ accounted s.app + delivered codec no_store phone day s)
    × IsSound t.app
    × ShowsGps t
run_accounted_example =
    run_accounted codec no_store phone day (first phone app) (unfold first in app-IsSound)
      button_idle

two_delivered : delivered codec no_store phone day (first phone app) ≡ 2
unfolding delivered first run step handle enabled request_location_permission Gps.start WsClient.new
two_delivered = refl

still_mounted : (run codec no_store phone day (first phone app)).mounted ≡ true
unfolding first run step handle enabled request_location_permission Gps.start WsClient.new
still_mounted = refl

none_asked : (run codec no_store phone day (first phone app)).control.asking ≡ []
unfolding first run step handle enabled request_location_permission Gps.start WsClient.new
none_asked = refl

-- After the unmount the socket reports its close, and the user answers a question that is not open.
abbrev later : List (ScreenEvent ℕ)
later = on_socket (closes 0) ∷ gps (permits 0 says_yes) ∷ fix here_now 8 9 ∷ age_ticks 10 ∷ []

unmount_quiet_example :
    let t = handle codec no_store phone unmounts (run codec no_store phone day (first phone app)) in
    let u = run codec no_store phone later t in
    ((k : ℕ) → t.app.ws.host.timers k ≡ none)
    × (t.app.ws.client.ws ≡ none)
    × (t.listening ≡ false)
    × Idle u.control.gps
    × (u.age_timer ≡ false)
unmount_quiet_example =
    unmount_quiet codec no_store listeners phone app day later here app-IsSound still_mounted
      none_asked

abbrev frame : Message ℕ
frame = record {
  kind = some "frame";
  t_ms = some 5;
  sig = some (λ key. some 1);
  status = some (record { seq = some 3; drop = none });
}

abbrev after : List (ScreenEvent ℕ)
after = on_socket (closes 0) ∷ renders ∷ []

abbrev up : Screen ℕ (Unit {0})
up = run codec no_store phone day (first phone app)

frame_enabled : enabled (on_socket (receives 0 4000 (some (some frame)))) up ≡ true
unfolding first run step handle enabled request_location_permission Gps.start WsClient.new
    flush_queued_gps send_queued Queue.flush Queue.enqueue Queue.new Queue.settle Queue.drain
frame_enabled = refl

all_heard : up.app.ws.client.listens.frame ≡ true
unfolding first run step handle enabled request_location_permission Gps.start WsClient.new
    flush_queued_gps send_queued Queue.flush Queue.enqueue Queue.new Queue.settle Queue.drain
all_heard = refl

still_ticking :
    (run codec no_store phone
      (on_socket (receives 0 4000 (some (some frame))) ∷ after)
      up).age_timer
    ≡ true
unfolding first run step handle enabled request_location_permission Gps.start WsClient.new
    flush_queued_gps send_queued Queue.flush Queue.enqueue Queue.new Queue.settle Queue.drain
still_ticking = refl

frame_stays_fresh_example :
    let t = run codec no_store phone (on_socket (receives 0 4000 (some (some frame))) ∷ after) up in
    stale_can (step codec no_store phone (age_ticks 5501) t) ≡ true
frame_stays_fresh_example =
    frame_stays_fresh codec no_store phone up 0 4000 5501 frame after frame_enabled all_heard refl
      refl refl (refl, (refl, tt)) still_ticking
