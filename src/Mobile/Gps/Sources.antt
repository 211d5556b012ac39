-- ===== src/Mobile/Gps/Sources.antt =====
-- mobile/src/telemetry/gps-client.js: which sources of fixes run.
use web_dashboard.Prelude.{
  ℕ, suc, ◌≡◌, ◌≢◌, refl, inl, inr, true, false, none, some, [], ◌∷◌, is_some, arith, ◌&&◌,
  Bool-cases, if◌then◌else◌,
}
use web_dashboard.Mobile.Gps.{
  Device, StartOptions, location_update, location_error, State, BridgeType, ios_bridge,
  android_bridge, start, stop, start_via_ios, start_via_android, start_watch, leave_bridge,
  leave_watch, add_listeners, is_ios, is_android,
}

-- Nothing of the app's delivers fixes, and the object knows of nothing.
pub record Idle (s : State) : Type 0 where
  pub watch_id : s.client.watch_id ≡ none
  pub using : s.client.using_bridge ≡ false
  pub watches : (i : ℕ) → s.sensors.watches i ≡ none
  pub listeners : (i : ℕ) → s.sensors.listeners i ≡ none
  pub ios : s.sensors.ios_running ≡ none
  pub android : s.sensors.android_running ≡ none

-- The watch `w` delivers fixes, and nothing else does.
pub record Watching (w : ℕ) (s : State) : Type 0 where
  pub watch_id : s.client.watch_id ≡ some w
  pub using : s.client.using_bridge ≡ false
  pub watch : is_some (s.sensors.watches w) ≡ true
  pub watches : (i : ℕ) → i ≢ w → s.sensors.watches i ≡ none
  pub listeners : (i : ℕ) → s.sensors.listeners i ≡ none
  pub ios : s.sensors.ios_running ≡ none
  pub android : s.sensors.android_running ≡ none

abbrev pub BridgeRuns : BridgeType → State → Type 0
BridgeRuns ios_bridge s =
    (is_some s.sensors.ios_running ≡ true) × (s.sensors.android_running ≡ none)
BridgeRuns android_bridge s =
    (is_some s.sensors.android_running ≡ true) × (s.sensors.ios_running ≡ none)

-- The bridge `b` delivers fixes, to the one listener `i`, and nothing else does.
pub record Bridged (b : BridgeType) (i : ℕ) (s : State) : Type 0 where
  pub watch_id : s.client.watch_id ≡ none
  pub using : s.client.using_bridge ≡ true
  pub bridge : s.client.bridge_type ≡ some b
  pub subscriptions : s.client.bg_subscriptions ≡ i ∷ suc i ∷ []
  pub watches : (j : ℕ) → s.sensors.watches j ≡ none
  pub located : s.sensors.listeners i ≡ some location_update
  pub failed : s.sensors.listeners (suc i) ≡ some location_error
  pub listeners : (j : ℕ) → j ≢ i → j ≢ suc i → s.sensors.listeners j ≡ none
  pub running : BridgeRuns b s

pub stop_watch-Idle : (w : ℕ) (s : State) → Watching w s → Idle (stop s)
unfolding stop leave_bridge leave_watch
stop_watch-Idle w s v = record {
  watch_id = ground (arith, v.watch_id, v.using);
  using = ground (arith, v.watch_id, v.using);
  watches = λ i. ground (arith, v.watch_id, v.using, v.watches i);
  listeners = λ i. ground (arith, v.watch_id, v.using, v.listeners i);
  ios = ground (arith, v.watch_id, v.using, v.ios);
  android = ground (arith, v.watch_id, v.using, v.android);
}

start_watch-Watching :
    (d : Device) (o : StartOptions) (s : State)
    → Idle s
    → Watching s.sensors.next (start_watch d o s)
unfolding start_watch
start_watch-Watching d o s v = record {
  watch_id = refl;
  using = v.using;
  watch = ground arith;
  watches = λ i other. ground (arith, v.watches i);
  listeners = v.listeners;
  ios = v.ios;
  android = v.android;
}

start_via_ios-Bridged :
    (d : Device) (o : StartOptions) (s : State)
    → Idle s
    → Bridged ios_bridge s.sensors.next (start_via_ios d o s)
unfolding start_via_ios add_listeners
start_via_ios-Bridged d o s v = record {
  watch_id = v.watch_id;
  using = refl;
  bridge = refl;
  subscriptions = refl;
  watches = v.watches;
  located = ground arith;
  failed = ground arith;
  listeners = λ j h h'. ground (arith, v.listeners j);
  running = (refl, v.android);
}

start_via_android-Bridged :
    (o : StartOptions) (s : State)
    → Idle s
    → Bridged android_bridge s.sensors.next (start_via_android o s)
unfolding start_via_android add_listeners
start_via_android-Bridged o s v = record {
  watch_id = v.watch_id;
  using = refl;
  bridge = refl;
  subscriptions = refl;
  watches = v.watches;
  located = ground arith;
  failed = ground arith;
  listeners = λ j h h'. ground (arith, v.listeners j);
  running = (refl, v.ios);
}

pub stop_bridge-Idle : (b : BridgeType) (i : ℕ) (s : State) → Bridged b i s → Idle (stop s)
unfolding stop leave_bridge
stop_bridge-Idle ios_bridge i s v = record {
  watch_id = ground (arith, v.watch_id, v.using);
  using = ground (arith, v.using);
  watches = λ j. ground (arith, v.using, v.bridge, v.watches j);
  listeners = λ j. ground (arith, v.using, v.bridge, v.subscriptions, v.listeners j);
  ios = ground (arith, v.using, v.bridge);
  android = ground (arith, v.using, v.bridge, v.running.1);
}
stop_bridge-Idle android_bridge i s v = record {
  watch_id = ground (arith, v.watch_id, v.using);
  using = ground (arith, v.using);
  watches = λ j. ground (arith, v.using, v.bridge, v.watches j);
  listeners = λ j. ground (arith, v.using, v.bridge, v.subscriptions, v.listeners j);
  ios = ground (arith, v.using, v.bridge, v.running.1);
  android = ground (arith, v.using, v.bridge);
}

pub stop-Idle-Idle : (s : State) → Idle s → Idle (stop s)
unfolding stop leave_bridge leave_watch
stop-Idle-Idle s v = record {
  watch_id = ground (arith, v.watch_id, v.using);
  using = ground (arith, v.watch_id, v.using);
  watches = λ i. ground (arith, v.watch_id, v.using, v.watches i);
  listeners = λ i. ground (arith, v.watch_id, v.using, v.listeners i);
  ios = ground (arith, v.watch_id, v.using, v.ios);
  android = ground (arith, v.watch_id, v.using, v.android);
}

-- The source that `start` chooses.
pub data Kind : Type 0 where
  by_watch : Kind
  by_bridge : BridgeType → Kind

abbrev pub choice : Device → StartOptions → Kind
choice d o =
    if is_ios d.os && o.ios_background && d.ios_bridge
    then by_bridge ios_bridge
    else if is_android d.os && o.android_background && d.android_bridge
    then by_bridge android_bridge
    else by_watch

-- The source `k` delivers fixes, and nothing else does.
unfoldable pub Runs : Kind → State → Type 0
Runs by_watch s = (w : ℕ) × Watching w s
Runs (by_bridge b) s = (i : ℕ) × Bridged b i s

module _ (d : Device) (o : StartOptions) (s : State) (v : Idle s) where
  via_ios :
      is_ios d.os && o.ios_background && d.ios_bridge ≡ true
      → (start d o s ≡ start_via_ios d o s) × (choice d o ≡ by_bridge ios_bridge)
  unfolding start
  via_ios h = ground (arith, v.watch_id, v.using)

  via_android :
      is_ios d.os && o.ios_background && d.ios_bridge ≡ false
      → is_android d.os && o.android_background && d.android_bridge ≡ true
      → (start d o s ≡ start_via_android o s) × (choice d o ≡ by_bridge android_bridge)
  unfolding start
  via_android h h' = ground (arith, v.watch_id, v.using)

  via_watch :
      is_ios d.os && o.ios_background && d.ios_bridge ≡ false
      → is_android d.os && o.android_background && d.android_bridge ≡ false
      → (start d o s ≡ start_watch d o s) × (choice d o ≡ by_watch)
  unfolding start
  via_watch h h' = ground (arith, v.watch_id, v.using)

  pub start-Runs : Runs (choice d o) (start d o s)
  unfolding Runs
  start-Runs = elim (Bool-cases (is_ios d.os && o.ios_background && d.ios_bridge)) [
    | inl h ↦ let e = via_ios h in rw (e.0, e.1) ((s.sensors.next, start_via_ios-Bridged d o s v))
    | inr h ↦ elim (Bool-cases (is_android d.os && o.android_background && d.android_bridge)) [
      | inl h' ↦
          let e = via_android h h' in
          rw (e.0, e.1) ((s.sensors.next, start_via_android-Bridged o s v))
      | inr h' ↦
          let e = via_watch h h' in rw (e.0, e.1) ((s.sensors.next, start_watch-Watching d o s v))
    ]
  ]
