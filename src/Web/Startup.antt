-- ===== src/Web/Startup.antt =====
-- client/app.js, client/naver-map.js, client/naver-roadview.js: `initPublicConfig` with `init` of the
-- map and of the panorama, which both wait for the script of the map service.
pub mod Ends
pub mod Outcomes
mod Tests
use text.Mathlib.Text.{◌==◌ as str_eq}
use web_dashboard.Prelude.{
  ℕ, suc, Bool, true, false, not, Option, none, some, String, List, [], ◌∷◌, ◌&&◌, ltb,
  if◌then◌else◌,
}
use web_dashboard.Web.Map.{
  NaverMap, Hint, new as new_map, auth_failure, no_client_id, map_ready, failed_init,
}
use web_dashboard.Web.Roadview.{Roadview, new as new_roadview}

-- The service: whether its script defines `naver.maps`, and with which message a constructor throws.
-- The map's init makes a map and what is on it: the first constructor throws, or none does.
pub record Service : Type 0 where
  pub defines_maps : Bool
  pub makes_map : Option String
  pub makes_panorama : ℕ → Option String

-- The `script` element of the map service, which fires one event.
pub data Script : Type 0 where
  absent loading loaded failed : Script

-- What `/api/public-config` comes to: the client id, a status code, or an exception's message.
pub data Config : Type 0 where
  answered : Option String → Config
  refused : ℕ → Config
  threw : String → Config

-- The text of the panorama's status.
pub data Status : Type 0 where
  config_refused : ℕ → Status
  config_failed : String → Status
  no_id in_progress ready : Status
  init_failed : String → Status

-- Where `initPublicConfig` waits: for its `fetch`, for the script in either `init`, or in `sleep` after
-- a number of attempts, with the last exception.
pub data Stage : Type 0 where
  fetching map_waits roadview_waits : Stage
  sleeping : ℕ → String → Stage
  finished : Stage

-- `auth_failed` is `window.__naverAuthFailed`; `fits` counts the calls of `fitViewportLayout`.
pub record Startup : Type 0 where
  pub maps_defined : Bool
  pub script : Script
  pub auth_failed : Bool
  pub map : NaverMap
  pub roadview : Roadview
  pub status : Option Status
  pub stage : Stage
  pub fits : ℕ

abbrev pub no_maps : String
no_maps = "NAVER Maps 객체를 찾을 수 없음"

abbrev pub load_failed : String
load_failed = "Naver Maps script load failed"

abbrev pub is_absent : Script → Bool
is_absent absent = true
is_absent _ = false

-- `!clientId`.
abbrev pub is_missing : Option String → Bool
is_missing none = true
is_missing (some id) = str_eq id ""

unfoldable pub finish : Status → Startup → Startup
finish status s = record s { status = some status; stage = finished; fits = suc s.fits }

-- `loadNaverScript`, where `naver.maps` is not defined: a new script, or the one that is there.
unfoldable pub load_script : Startup → Startup
load_script s = if is_absent s.script then record s { script = loading } else s

module _ (service : Service) where
  -- The end of an attempt to make the panorama.
  unfoldable pub attempted : Option String → ℕ → Startup → Startup
  unfolding finish
  attempted none i s = finish ready (record s { roadview = record (s.roadview) { ready = true } })
  attempted (some err) i s = record s { stage = sleeping (suc i) err }

  -- The panorama's `init` once the script is loaded.
  unfoldable pub roadview_goes_on : Startup → Startup
  unfolding finish attempted
  roadview_goes_on s =
      if s.maps_defined
      then attempted (service.makes_panorama 0) 0 s
      else finish (init_failed no_maps) s

  -- `init` of the panorama, with a client id.
  unfoldable pub roadview_init : Startup → Startup
  unfolding load_script roadview_goes_on
  roadview_init s =
      let s' = record s { status = some in_progress } in
      if s'.maps_defined
      then roadview_goes_on s'
      else record (load_script s') { stage = roadview_waits }

  abbrev pub hint_map : Hint → Startup → Startup
  hint_map hint s = record s { map = record (s.map) { hint = some hint } }

  abbrev pub made_map : Option String → Startup → Startup
  made_map (some err) s = hint_map (failed_init err) s
  made_map none s = record s {
    map = record (s.map) {
      ready = true;
      auth_failed = s.auth_failed;
      hint = some (if s.auth_failed then auth_failure else map_ready);
    };
  }

  -- The map's `init` once the script is loaded, and the panorama's `init` after it.
  unfoldable pub map_goes_on : Startup → Startup
  unfolding roadview_init
  map_goes_on s =
      roadview_init
        (if s.maps_defined then made_map service.makes_map s else hint_map (failed_init no_maps) s)

  -- `init` of both.
  unfoldable pub init : Option String → Startup → Startup
  unfolding load_script map_goes_on finish
  init id s =
      if is_missing id
      then finish no_id (hint_map no_client_id s)
      else if s.maps_defined
      then map_goes_on s
      else record (load_script s) { stage = map_waits }

  unfoldable pub on_config : Config → Startup → Startup
  unfolding init
  on_config (answered id) s = init id s
  on_config (refused code) s = record s { status = some (config_refused code); stage = finished }
  on_config (threw message) s = record s { status = some (config_failed message); stage = finished }

  -- The listeners of the script's events.
  unfoldable pub on_load : Stage → Startup → Startup
  unfolding map_goes_on roadview_goes_on
  on_load map_waits s = map_goes_on s
  on_load roadview_waits s = roadview_goes_on s
  on_load _ s = s

  unfoldable pub on_error : Stage → Startup → Startup
  unfolding roadview_init finish
  on_error map_waits s = roadview_init (hint_map (failed_init load_failed) s)
  on_error roadview_waits s = finish (init_failed load_failed) s
  on_error _ s = s

  -- The end of `sleep(200)`: the next attempt, of five.
  unfoldable pub on_wake : Stage → Startup → Startup
  unfolding attempted finish
  on_wake (sleeping i err) s =
      if ltb i 5 then attempted (service.makes_panorama i) i s else finish (init_failed err) s
  on_wake _ s = s

pub data Event : Type 0 where
  config_comes : Config → Event
  script_loads script_fails wakes : Event

abbrev pub is_loading : Script → Bool
is_loading loading = true
is_loading _ = false

abbrev pub is_fetching : Stage → Bool
is_fetching fetching = true
is_fetching _ = false

abbrev pub is_sleeping : Stage → Bool
is_sleeping (sleeping i err) = true
is_sleeping _ = false

-- When an event can come.
abbrev pub enabled : Event → Startup → Bool
enabled (config_comes c) s = is_fetching s.stage
enabled script_loads s = is_loading s.script
enabled script_fails s = is_loading s.script
enabled wakes s = is_sleeping s.stage

module _ (service : Service) where
  unfoldable pub handle : Event → Startup → Startup
  unfolding on_config on_load on_error on_wake
  handle (config_comes c) s = on_config service c s
  handle script_loads s =
      on_load service s.stage (record s { script = loaded; maps_defined = service.defines_maps })
  handle script_fails s = on_error service s.stage (record s { script = failed })
  handle wakes s = on_wake service s.stage s

  unfoldable pub run : List Event → Startup → Startup
  run [] s = s
  run (e ∷ es) s = run es (handle e s)

-- The page when `initPublicConfig` starts.
abbrev pub start : ℕ → ℕ → Startup
start zoom limit = record {
  maps_defined = false;
  script = absent;
  auth_failed = false;
  map = new_map false zoom limit;
  roadview = new_roadview false;
  status = none;
  stage = fetching;
  fits = 0;
}
