-- ===== src/Mobile/Gps/Control.antt =====
-- mobile/src/App.js: the GPS buttons, the two background toggles, and what they show.
pub mod Shown
pub mod Modes
use web_dashboard.Prelude.{
  ℕ, zero, suc, Bool, true, false, not, Option, none, some, List, [], ◌∷◌, ◌++◌, ◌==◌,
  if◌then◌else◌, ◌≡◌,
}
use web_dashboard.Mobile.Gps.{
  Os, ios, android, Device, Permission, request_location_permission, StartOptions, State, start,
  stop, is_ios, is_android,
}
use web_dashboard.Mobile.Gps.Calls.{fresh}

-- The texts of `gpsState`.
pub data GpsText : Type 0 where
  gps_idle gps_ok gps_denied gps_unavailable gps_timeout gps_error gps_stopped : GpsText

-- `describeGpsError`, on `Number(err?.code)`, `none` where that is not a whole number.
unfoldable pub describe_gps_error : Option ℕ → GpsText
describe_gps_error none = gps_error
describe_gps_error (some code) =
    if code == 1
    then gps_denied
    else if code == 2
    then gps_unavailable
    else if code == 3
    then gps_timeout
    else gps_error

-- The toggles as a press of the GPS button has found them.
pub record Pilots : Type 0 where
  pub ios_pilot : Bool
  pub android_pilot : Bool

-- `asking` holds, for each `startGps` that waits for the user's permission, the toggles it has read.
pub record Control : Type 0 where
  pub gps : State
  pub pilots : Pilots
  pub gps_running : Bool
  pub gps_state : GpsText
  pub asking : List Pilots

unfoldable pub first : Device → Control
first d = record {
  gps = fresh;
  pilots = record { ios_pilot = is_ios d.os; android_pilot = is_android d.os };
  gps_running = false;
  gps_state = gps_idle;
  asking = [];
}

abbrev pub start_options : Pilots → StartOptions
start_options p = record {
  ios_background = p.ios_pilot;
  android_background = p.android_pilot;
  use_significant_changes = none;
  interval_ms = none;
  distance_meters = none;
}

unfoldable pub start_gps_watch : Device → Pilots → Control → Control
start_gps_watch d p c = record c { gps = start d (start_options p) c.gps; gps_running = true }

-- `startGps` up to its await.
unfoldable pub press_start : Control → Control
press_start c = record c { asking = c.asking ++ c.pilots ∷ [] }

-- `startGps` after its await, with the toggles that it has read before.
unfoldable pub on_permission : Device → Pilots → (Permission → Bool) → Control → Control
unfolding start_gps_watch
on_permission d p answer c =
    if (request_location_permission d p.android_pilot answer).1
    then start_gps_watch d p c
    else record c { gps_state = gps_denied }

unfoldable pub stop_gps : Control → Control
stop_gps c = record c { gps = stop c.gps; gps_running = false; gps_state = gps_stopped }

-- The part that the two toggles share, on the toggles as they are now to be.
unfoldable pub set_pilots : Device → Pilots → Control → Control
unfolding start_gps_watch
set_pilots d p c =
    if c.gps_running
    then start_gps_watch d p (record c { pilots = p; gps = stop c.gps })
    else record c { pilots = p }

unfoldable pub toggle_ios : Device → Control → Control
toggle_ios d c = set_pilots d (record (c.pilots) { ios_pilot = not c.pilots.ios_pilot }) c

unfoldable pub toggle_android : Device → Control → Control
toggle_android d c =
    set_pilots d (record (c.pilots) { android_pilot = not c.pilots.android_pilot }) c

abbrev pub asked_at : ℕ → List Pilots → Option Pilots
asked_at i [] = none
asked_at zero (p ∷ ps) = some p
asked_at (suc i) (p ∷ ps) = asked_at i ps

abbrev pub without : ℕ → List Pilots → List Pilots
without i [] = []
without zero (p ∷ ps) = ps
without (suc i) (p ∷ ps) = p ∷ without i ps

-- The end of the question with the toggles `p`, if there is one.
unfoldable pub end_question : Device → Option Pilots → (Permission → Bool) → Control → Control
unfolding on_permission
end_question d none answer c = c
end_question d (some p) answer c = on_permission d p answer c

unfoldable pub answer_asked : Device → ℕ → (Permission → Bool) → Control → Control
unfolding end_question
answer_asked d i answer c =
    end_question d (asked_at i c.asking) answer (record c { asking = without i c.asking })

-- A press of a button, the user's answers to the i-th open question, and the two callbacks of the
-- source of fixes.
pub data Event : Type 0 where
  starts stops ios_toggles android_toggles : Event
  permits : ℕ → (Permission → Bool) → Event
  fixed : Event
  fails : Option ℕ → Event

unfoldable pub handle : Device → Event → Control → Control
unfolding press_start stop_gps toggle_ios toggle_android set_pilots answer_asked end_question
    on_permission start_gps_watch describe_gps_error
handle d starts c = press_start c
handle d stops c = stop_gps c
handle d ios_toggles c = toggle_ios d c
handle d android_toggles c = toggle_android d c
handle d (permits i answer) c = answer_asked d i answer c
handle d fixed c = record c { gps_state = gps_ok }
handle d (fails code) c = record c { gps_state = describe_gps_error code }

unfoldable pub run : Device → List Event → Control → Control
run d [] c = c
run d (e ∷ es) c = run d es (handle d e c)
