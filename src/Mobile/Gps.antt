-- ===== src/Mobile/Gps.antt =====
-- mobile/src/telemetry/gps-client.js: `GpsClient`, its permission requests, and the three sources of
-- fixes it chooses from: the watch of the geolocation package and the two native bridges.
pub mod Sources
pub mod Calls
pub mod Control
pub mod Readings
pub mod Fixes
mod Tests
use web_dashboard.Prelude.{
  ℕ, suc, ◌+◌, Bool, true, false, not, Option, none, some, List, [], ◌∷◌, ◌&&◌, ◌||◌, is_some, leb,
  if◌then◌else◌,
}
use web_dashboard.Host.{update}
use web_dashboard.Mobile.Protocol.{Fix}

pub data Os : Type 0 where
  ios android other : Os

-- `Platform` and `NativeModules` of the phone, and what the two packages offer on it.
pub record Device : Type 0 where
  pub os : Os
  pub version : ℕ
  pub has_background : Bool
  pub has_authorization : Bool
  pub ios_bridge : Bool
  pub android_bridge : Bool

pub data Permission : Type 0 where
  always fine background : Permission

-- `requestLocationPermission`, on the user's answers: the permissions that it asks for, in order,
-- and what it returns.
unfoldable pub request_location_permission :
    Device → Bool → (Permission → Bool) → List Permission × Bool
request_location_permission d android_background answer = elim d.os [
  | ios ↦ if d.has_authorization then (always ∷ [], answer always) else ([], true)
  | other ↦ ([], true)
  | android ↦
      if not (answer fine)
      then (fine ∷ [], false)
      else if not (android_background && leb 29 d.version && d.has_background)
      then (fine ∷ [], true)
      else (fine ∷ background ∷ [], answer background)
]

pub record GpsOptions : Type 0 where
  pub high_accuracy : Bool
  pub timeout : ℕ
  pub maximum_age : ℕ
  pub distance_filter : ℕ
  pub significant_changes : Option Bool

abbrev pub gps_options_base : GpsOptions
gps_options_base = record {
  high_accuracy = true;
  timeout = 10000;
  maximum_age = 0;
  distance_filter = 0;
  significant_changes = none;
}

abbrev pub gps_options_ios_significant : GpsOptions
gps_options_ios_significant = record {
  high_accuracy = false;
  timeout = 120000;
  maximum_age = 15000;
  distance_filter = 50;
  significant_changes = some true;
}

abbrev pub is_ios : Os → Bool
is_ios ios = true
is_ios _ = false

abbrev pub is_android : Os → Bool
is_android android = true
is_android _ = false

unfoldable pub build_gps_options : Os → Bool → GpsOptions
build_gps_options os ios_background =
    if is_ios os && ios_background then gps_options_ios_significant else gps_options_base

-- The `options` argument of `start`.
pub record StartOptions : Type 0 where
  pub ios_background : Bool
  pub android_background : Bool
  pub use_significant_changes : Option Bool
  pub interval_ms : Option ℕ
  pub distance_meters : Option ℕ

-- The events of a bridge.
pub data Channel : Type 0 where
  location_update location_error : Channel

-- What the two packages and the bridges have running for the app; watches and listeners are numbered
-- in order of creation.
pub record Sensors : Type 0 where
  pub next : ℕ
  pub watches : ℕ → Option GpsOptions
  pub listeners : ℕ → Option Channel
  pub ios_running : Option Bool
  pub android_running : Option (ℕ × ℕ)

pub data BridgeType : Type 0 where
  ios_bridge android_bridge : BridgeType

pub record Client : Type 0 where
  pub watch_id : Option ℕ
  pub using_bridge : Bool
  pub bridge_type : Option BridgeType
  pub bg_subscriptions : List ℕ

pub record State : Type 0 where
  pub client : Client
  pub sensors : Sensors

abbrev pub new : Client
new = record { watch_id = none; using_bridge = false; bridge_type = none; bg_subscriptions = [] }

abbrev pub quiet_sensors : Sensors
quiet_sensors = record {
  next = 0;
  watches = λ i. none;
  listeners = λ i. none;
  ios_running = none;
  android_running = none;
}

-- `a ?? b`.
abbrev pub or_default {ℓ} : {A : Type ℓ} → Option A → A → A
or_default none b = b
or_default (some a) b = a

-- `a ?? b` where `b` may be missing too.
abbrev pub first_given {ℓ} : {A : Type ℓ} → Option A → Option A → Option A
first_given none b = b
first_given (some a) b = some a

-- The two `addListener` calls.
unfoldable pub add_listeners : Sensors → Sensors
add_listeners n = record n {
  next = suc (suc n.next);
  listeners =
      update (update n.listeners n.next (some location_update)) (suc n.next) (some location_error);
}

unfoldable pub start_via_ios : Device → StartOptions → State → State
unfolding add_listeners build_gps_options
start_via_ios d o s = record {
  client = record (s.client) {
    bg_subscriptions = s.sensors.next ∷ suc s.sensors.next ∷ [];
    using_bridge = true;
    bridge_type = some ios_bridge;
  };
  sensors = record (add_listeners s.sensors) {
    ios_running = some (
        or_default
          (first_given o.use_significant_changes
            (build_gps_options d.os o.ios_background).significant_changes)
          false);
  };
}

unfoldable pub start_via_android : StartOptions → State → State
unfolding add_listeners
start_via_android o s = record {
  client = record (s.client) {
    bg_subscriptions = s.sensors.next ∷ suc s.sensors.next ∷ [];
    using_bridge = true;
    bridge_type = some android_bridge;
  };
  sensors = record (add_listeners s.sensors) {
    android_running = some (or_default o.interval_ms 1000, or_default o.distance_meters 5);
  };
}

unfoldable pub start_watch : Device → StartOptions → State → State
unfolding build_gps_options
start_watch d o s = record {
  client = record (s.client) { watch_id = some s.sensors.next };
  sensors = record (s.sensors) {
    next = suc s.sensors.next;
    watches =
        update s.sensors.watches s.sensors.next (some (build_gps_options d.os o.ios_background));
  };
}

unfoldable pub start : Device → StartOptions → State → State
unfolding start_via_ios start_via_android start_watch
start d o s =
    if is_some s.client.watch_id || s.client.using_bridge
    then s
    else if is_ios d.os && o.ios_background && d.ios_bridge
    then start_via_ios d o s
    else if is_android d.os && o.android_background && d.android_bridge
    then start_via_android o s
    else start_watch d o s

-- `subscription.remove()` on each.
abbrev pub remove_all : List ℕ → (ℕ → Option Channel) → ℕ → Option Channel
remove_all [] listeners = listeners
remove_all (i ∷ is) listeners = remove_all is (update listeners i none)

abbrev pub stop_bridge : Option BridgeType → Sensors → Sensors
stop_bridge none n = n
stop_bridge (some ios_bridge) n = record n { ios_running = none }
stop_bridge (some android_bridge) n = record n { android_running = none }

unfoldable pub leave_bridge : State → State
leave_bridge s =
    let n = stop_bridge s.client.bridge_type s.sensors in
    record {
      client = record (s.client) {
        bg_subscriptions = [];
        using_bridge = false;
        bridge_type = none;
      };
      sensors = record n { listeners = remove_all s.client.bg_subscriptions n.listeners };
    }

unfoldable pub leave_watch : State → State
leave_watch s = elim s.client.watch_id [
  | none ↦ s
  | some id ↦ record {
    client = record (s.client) { watch_id = none };
    sensors = record (s.sensors) { watches = update s.sensors.watches id none };
  }
]

unfoldable pub stop : State → State
unfolding leave_bridge leave_watch
stop s = if s.client.using_bridge then leave_bridge s else leave_watch s
