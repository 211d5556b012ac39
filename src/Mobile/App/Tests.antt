-- ===== src/Mobile/App/Tests.antt =====
-- An outage of two fixes, and the theorems about mobile/src/App.js there.
use mathlib.Core.List.{map}
use web_dashboard.Prelude.{ℕ, ◌+◌, ◌≡◌, refl, true, false, none, some, List, [], ◌∷◌, arith}
use web_dashboard.Mobile.Protocol.{Fix, Payload}
use web_dashboard.Mobile.Queue.{Queue, Codec, Storage, other}
use web_dashboard.Mobile.Queue
use web_dashboard.Mobile.WsClient.{State, Listeners, start, connects, opens, handle}
use web_dashboard.Mobile.WsClient
use web_dashboard.Mobile.App.{App, AppEvent, fixes, marks, connected, net, on_connected, app_run}
use web_dashboard.Mobile.App.Uplink.{IsConnected, IsReady, sent_more}
use web_dashboard.Mobile.App.Outage.{Timed, queued_payload, uplinks, outage_recovered}
use web_dashboard.Mobile.App.Accounts.{accounted, IsSound}
use web_dashboard.Mobile.App.History.{fixes_accounted}

abbrev P : Type 0
P = Payload ℕ

abbrev codec : Codec P
codec = record { stringify = λ _. "[]"; parse = λ _. some other }

abbrev no_store : Storage (Unit {0})
no_store = record { get_item = λ s key. some none; set_item = λ s key value. (s, true) }

abbrev here : Fix ℕ
here = record { lat = 37; lon = 127; spd = 0; hdg = none; acc = some 5; alt = none }

abbrev listeners : Listeners
listeners = record { state = true; frame = true; rtt = true }

abbrev offline : State ℕ
offline = start listeners

abbrev online : State ℕ
online = handle (opens 0) (handle (connects "ws://car/ws") offline)

abbrev app : State ℕ → App ℕ (Unit {0})
app w = record {
  ws = w;
  queue = record (Queue.new "k" 1000) { loaded = true };
  store = tt;
  flushing = false;
  queue_depth = 0;
  app_state = "active";
  platform = record { os = some "ios"; model = none; brand = some "" };
}

online-IsConnected : IsConnected 0 online
unfolding handle WsClient.new
online-IsConnected = record { held = refl; open_now = refl }

app-IsReady : IsReady 0 (app online)
unfolding Queue.new
app-IsReady = record {
  connected = online-IsConnected;
  loaded = refl;
  idle = refl;
  queue_idle = refl;
}

outage_recovered_example :
    let fs : List (Timed ℕ) = (here, 1, 2) ∷ (here, 3, 4) ∷ [] in
    let a' =
      on_connected codec no_store
        (record (uplinks codec no_store fs (app offline)) { ws = online }) in
    (a'.ws ≡ sent_more 0 (map (queued_payload "active" (app offline).platform) fs) online)
    × (a'.queue.items ≡ [])
unfolding Queue.new WsClient.new WsClient.is_open_now
outage_recovered_example =
    outage_recovered codec no_store 0 ((here, 1, 2) ∷ (here, 3, 4) ∷ []) (app offline) online refl
      refl refl refl (omega arith) (omega arith) online-IsConnected

abbrev day : List (AppEvent ℕ)
day =
    fixes here 1 2
    ∷ net (connects "ws://car/ws")
    ∷ net (opens 0)
    ∷ connected
    ∷ marks "pit" 5
    ∷ fixes here 6 7
    ∷ []

fixes_accounted_example :
    (accounted (app_run codec no_store day (app offline)) ≡ accounted (app offline) + 2)
    × IsSound (app_run codec no_store day (app offline))
unfolding Queue.new
fixes_accounted_example =
    fixes_accounted codec no_store day (app offline)
      (refl, (refl, (refl, (refl, (refl, (refl, tt))))))
      (record { loaded = refl; idle = refl; fixes = tt })
