-- ===== src/Mobile/Gps/Tests.antt =====
-- Runs of mobile/src/telemetry/gps-client.js and of the GPS buttons on concrete phones.
use web_dashboard.Prelude.{◌≡◌, refl, Bool, true, false, none, some, List, [], ◌∷◌, ℤ, pos, negsuc}
use web_dashboard.Mobile.Protocol.{Fix}
use web_dashboard.Mobile.Gps.{
  android, Device, Permission, fine, background, request_location_permission, StartOptions, start,
  stop,
}
use web_dashboard.Mobile.Gps.Readings.{Coords, BridgeData}
use web_dashboard.Mobile.Gps.Sources.{Idle, choice, Runs}
use web_dashboard.Mobile.Gps.Calls.{Call, starts, stops, run, fresh, OneSource, one_source}
use web_dashboard.Mobile.Gps.Control
use web_dashboard.Mobile.Gps.Control.{Event, first, start_options}
use web_dashboard.Mobile.Gps.Control.Modes.{ShowsMode, mode_shown}

abbrev phone : Device
phone = record {
  os = android;
  version = 34;
  has_background = true;
  has_authorization = false;
  ios_bridge = false;
  android_bridge = true;
}

abbrev yes_to_all : Permission → Bool
yes_to_all p = true

abbrev in_background : StartOptions
in_background = start_options (record { ios_pilot = false; android_pilot = true })

abbrev calls : List Call
calls = starts in_background ∷ starts in_background ∷ stops ∷ starts in_background ∷ []

one_source_example :
    OneSource (run phone calls fresh)
    × Idle (stop (run phone calls fresh))
    × Runs (choice phone in_background) (start phone in_background (stop (run phone calls fresh)))
one_source_example = one_source phone calls in_background

both_asked : request_location_permission phone true yes_to_all ≡ (fine ∷ background ∷ [], true)
unfolding request_location_permission
both_asked = refl

abbrev presses : List Event
presses =
    Control.starts ∷ Control.permits 0 yes_to_all ∷ Control.fixed ∷ Control.android_toggles ∷ []

mode_shown_example :
    ShowsMode phone
      (Control.run phone presses (first phone)).gps_running
      (Control.run phone presses (first phone)).pilots
      (Control.run phone presses (first phone)).gps
unfolding first Control.handle Control.press_start Control.answer_asked Control.end_question
    Control.on_permission Control.start_gps_watch request_location_permission
mode_shown_example = mode_shown phone presses refl

abbrev below_zero : ℤ → Bool
below_zero (pos n) = false
below_zero (negsuc n) = true

abbrev coords : Coords ℤ
coords = record {
  latitude = pos 37;
  longitude = pos 127;
  speed = some (pos 12);
  heading = some (pos 90);
  accuracy = some (pos 5);
  altitude = none;
}

abbrev standing : BridgeData ℤ
standing = record {
  latitude = some (pos 37);
  longitude = some (pos 127);
  speed = some (negsuc 0);
  heading = some (negsuc 0);
  accuracy = none;
  altitude = none;
}

abbrev standing_fix : Fix ℤ
standing_fix = record {
  lat = pos 37;
  lon = pos 127;
  spd = pos 0;
  hdg = none;
  acc = none;
  alt = none;
}
