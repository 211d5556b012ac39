-- ===== src/Web/Dashboard.antt =====
-- client/app.js: the page's parts together, the 100 ms interval that shows them, the GPS button with
-- what it says until there is a fix, and sendMark.
pub mod Agree
pub mod Frames
pub mod Sound
pub mod Told
pub mod Waits
mod Tests
use web_dashboard.Prelude.{
  ℕ, suc, ◌-◌, Bool, true, false, not, Option, none, some, String, List, [], ◌∷◌, ◌||◌, ◌==◌,
  if◌then◌else◌, is_some, ℤ, pos,
}
use web_dashboard.Host.{update}
use web_dashboard.Wire.{Message}
use web_dashboard.Mobile.Address.{Text, text}
use web_dashboard.Mobile.Protocol
use web_dashboard.Web.Geo.{Point, GpsFix}
use web_dashboard.Web.Blend.{Fix}
use web_dashboard.Web.Gps
use web_dashboard.Web.Gps.{Mode, Position, Tracker, View, set_mode, start, read_position, keep_fix}
use web_dashboard.Web.Map
use web_dashboard.Web.Map.{NaverMap, add_mark}
use web_dashboard.Web.Roadview
use web_dashboard.Web.Roadview.{Roadview, Reply, on_reply}
use web_dashboard.Web.Charts.{Chart, new as new_chart, add_sample, add_marker, in_series}
use web_dashboard.Web.Auth.{includes, to_lower}
use web_dashboard.Web.Panel.{Panel, Connection, update_gps, update_connection, update_gauges}
use web_dashboard.Web.Page
use web_dashboard.Web.Page.{Page, Clock, Pill, pill, shown_drop, send_gps_uplink, page_handle}
use web_dashboard.Web.Page.Counting.{frame_seq}

-- `gpsStateOverride`.
pub record Override : Type 0 where
  pub text : String
  pub class_name : String

-- `timers` are the timeouts of the GPS button that are running.
pub record Dashboard : Type 0 where
  pub page : Page ℤ
  pub tracker : Tracker
  pub map : NaverMap
  pub roadview : Roadview
  pub speed_chart : Chart ℤ
  pub dyn_chart : Chart ℤ
  pub gauges : String → Option ℤ
  pub connection : Option Connection
  pub panel : Panel
  pub last_gps_view : Option View
  pub override : Option Override
  pub no_fix_timer : Option ℕ
  pub timers : ℕ → Bool
  pub next_timer : ℕ
  pub start_disabled : Bool
  pub secure : Bool

-- `applyGpsOverrideIfNeeded`.
abbrev pub override_with : Option Override → Option Fix → Dashboard → Dashboard
override_with none fix d = d
override_with (some o) none d = record d {
  panel = record (d.panel) { state = (o.text, o.class_name) };
}
override_with (some o) (some fix) d = record d { override = none }

unfoldable pub apply_gps_override_if_needed : View → Dashboard → Dashboard
apply_gps_override_if_needed view d = override_with d.override view.fix d

-- A fix as the map and the panorama read it.
abbrev pub as_gps_fix : Fix → GpsFix
as_gps_fix fix = record {
  lat = some (fix.at.lat);
  lon = some (fix.at.lon);
  hdg = fix.hdg;
  acc = fix.acc;
}

abbrev pub fix_of_option : Option Fix → Option GpsFix
fix_of_option none = none
fix_of_option (some fix) = some (as_gps_fix fix)

abbrev pub fix_of : View → Option GpsFix
fix_of view = fix_of_option view.fix

abbrev pub signals : Option (Message ℤ) → Option (String → Option ℤ)
signals none = none
signals (some m) = m.sig

-- The gauges and the charts, where there are signals.
unfoldable pub show_signals : ℕ → Option (String → Option ℤ) → Dashboard → Dashboard
unfolding add_sample
show_signals t none d = d
show_signals t (some sig) d = record d {
  gauges = update_gauges sig d.gauges;
  speed_chart = add_sample t sig d.speed_chart;
  dyn_chart = add_sample t sig d.dyn_chart;
}

-- `describeGpsError`, of the error's code.
abbrev pub describe_gps_error : ℕ → String
describe_gps_error code =
    if code == 1
    then "gps-denied"
    else if code == 2
    then "gps-unavailable"
    else if code == 3
    then "gps-timeout"
    else "gps-error"

-- `detectClientOs`, of `navigator.userAgent`; the expressions have the flag `i`.
unfoldable pub detect_client_os : Text → String
unfolding includes to_lower
detect_client_os user_agent =
    let ua = to_lower user_agent in
    if includes ua (text "ipad") || includes ua (text "iphone") || includes ua (text "ipod")
    then "iOS"
    else if includes ua (text "android")
    then "Android"
    else if includes ua (text "mac os x") || includes ua (text "macintosh")
    then "macOS"
    else if includes ua (text "windows")
    then "Windows"
    else "Unknown"

-- What a fix is sent as.
abbrev pub payload_fix : Fix → Protocol.Fix ℤ
payload_fix fix = record {
  lat = fix.at.lat;
  lon = fix.at.lon;
  spd = fix.spd;
  hdg = fix.hdg;
  acc = elim fix.acc [ none ↦ none | some acc ↦ some (pos acc) ];
  alt = fix.alt;
}

-- `document.visibilityState` and what `navigator` says.
pub record Browser : Type 0 where
  pub visible : Bool
  pub user_agent : Text
  pub platform : Option String

unfoldable pub set_gps_override : String → String → Dashboard → Dashboard
set_gps_override text class_name d = record d {
  override = some (record { text = text; class_name = class_name });
}

-- `clearTimeout`, where there is a timer.
abbrev pub clear_no_fix : Option ℕ → (ℕ → Bool) → ℕ → Bool
clear_no_fix none timers = timers
clear_no_fix (some t) timers = update timers t false

abbrev pub override_at_start : Bool → Option Override
override_at_start true = none
override_at_start false = some (record { text = "gps-no-fix(http)"; class_name = "stale" })

-- The end of the button's listener, with what `start` made of the tracker and whether it returned.
unfoldable pub started : Tracker × Bool → Dashboard → Dashboard
unfolding set_gps_override
started (g, true) d = record d { tracker = g; start_disabled = true }
started (g, false) d = set_gps_override "gps-not-supported" "disconnected" d

-- The click on the GPS button.
unfoldable pub start_gps : Dashboard → Dashboard
unfolding start started
start_gps d = started (start d.tracker) (record d {
  override = override_at_start d.secure;
  no_fix_timer = some d.next_timer;
  timers = update (clear_no_fix d.no_fix_timer d.timers) d.next_timer true;
  next_timer = suc d.next_timer;
})

-- The timeout of the GPS button, 12 seconds after the click.
unfoldable pub on_no_fix : ℕ → Dashboard → Dashboard
unfolding set_gps_override
on_no_fix t d =
    let d' = record d { timers = update d.timers t false } in
    if is_some d.tracker.last_fix
    then d'
    else set_gps_override (if d.secure then "gps-no-fix" else "gps-no-fix(https권장)") "stale" d'

-- The `onFix` callback, with the tracker that has the fix.
unfoldable pub on_fix : Clock → Browser → Option Fix → Dashboard → Dashboard
unfolding send_gps_uplink detect_client_os
on_fix c b none d = d
on_fix c b (some fix) d = record d {
  tracker = keep_fix (some fix) d.tracker;
  override = none;
  page =
      send_gps_uplink c b.visible (detect_client_os b.user_agent) b.platform (payload_fix fix)
        d.page;
}

-- A position of the watch: the tracker's callback and then the page's.
unfoldable pub on_position : Clock → Browser → Position → Dashboard → Dashboard
unfolding read_position on_fix
on_position c b position d = on_fix c b (read_position position c.now_ms c.date_ms) d

-- `sendMark`.
unfoldable pub send_mark : Clock → String → Dashboard → Dashboard
unfolding add_marker Page.send_mark add_mark
send_mark c note d = record d {
  speed_chart = add_marker c.date_ms "MARK" d.speed_chart;
  dyn_chart = add_marker c.date_ms "MARK" d.dyn_chart;
  page = Page.send_mark c note d.page;
  map = elim d.last_gps_view [ none ↦ d.map | some view ↦ add_mark (fix_of view) note d.map ];
}

module _ (metres : Point → Point → Option ℕ) where
  -- The last lines of the interval, with the view of the tracker.
  unfoldable pub show_view : ℕ → Tracker × View → Dashboard → Dashboard
  unfolding update_gps apply_gps_override_if_needed Map.update_from_fix Roadview.update_from_fix
  show_view now (g, view) d =
      let d' =
        apply_gps_override_if_needed view
          (record d { tracker = g; last_gps_view = some view; panel = update_gps view d.panel }) in
      record d' {
        map = Map.update_from_fix (fix_of view) view.stale d'.map;
        roadview = (Roadview.update_from_fix metres (fix_of view) view.stale now d'.roadview).0;
      }

  -- The interval.
  unfoldable pub tick : Clock → Dashboard → Dashboard
  unfolding show_view show_signals update_connection Gps.tick
  tick c d =
      let d1 = show_signals c.date_ms (signals d.page.counters.last_can_frame) d in
      let d2 = record d1 { connection = some (update_connection c.now_ms d1.page) } in
      show_view c.now_ms (Gps.tick c.now_ms d2.tracker) d2

-- The interval, the GPS button and its timeouts, the callbacks of the watch, the choice of the mode,
-- the mark button, the ends of the panorama's requests, and the events of the connection.
pub data Event : Type 0 where
  ticks : Clock → Event
  starts_gps : Event
  fires : ℕ → Event
  positions : ℕ → Clock → Browser → Position → Event
  errors : ℕ → ℕ → Event
  modes : Mode → Event
  marks : Clock → String → Event
  replies : Clock → Reply → Event
  happens : Clock → Page.Event ℤ → Event

module _ (metres : Point → Point → Option ℕ) where
  unfoldable pub handle : Event → Dashboard → Dashboard
  unfolding tick start_gps on_no_fix on_position set_gps_override set_mode send_mark on_reply
      page_handle
  handle (ticks c) d = tick metres c d
  handle starts_gps d = if d.start_disabled then d else start_gps d
  handle (fires t) d = if d.timers t then on_no_fix t d else d
  handle (positions w c b position) d =
      if d.tracker.watches w then on_position c b position d else d
  handle (errors w code) d =
      if d.tracker.watches w then set_gps_override (describe_gps_error code) "disconnected" d else d
  handle (modes m) d = record d { tracker = set_mode m d.tracker }
  handle (marks c note) d = send_mark c note d
  handle (replies c r) d = record d { roadview = on_reply r c.now_ms c.date_ms d.roadview }
  handle (happens c e) d = record d { page = page_handle c e d.page }

  unfoldable pub run : List Event → Dashboard → Dashboard
  run [] d = d
  run (e ∷ es) d = run es (handle e d)

-- The page when it is loaded; `secure` is `window.isSecureContext`, and `accepts` says for which
-- addresses `new WebSocket` makes a socket.
abbrev pub opened : (String → Bool) → Bool → Tracker → NaverMap → Roadview → Dashboard
opened accepts secure tracker map roadview = record {
  page = Page.blank accepts;
  tracker = tracker;
  map = map;
  roadview = roadview;
  speed_chart = new_chart 60000 ("ws_fl" ∷ "ws_fr" ∷ []);
  dyn_chart = new_chart 60000 ("yaw" ∷ "ay" ∷ []);
  gauges = λ key. none;
  connection = none;
  panel = record { state = ("idle", "neutral"); shown = none; age_ms = none; arrow = pos 0 };
  last_gps_view = none;
  override = none;
  no_fix_timer = none;
  timers = λ t. false;
  next_timer = 1;
  start_disabled = false;
  secure = secure;
}
