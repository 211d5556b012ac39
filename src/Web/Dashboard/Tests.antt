-- ===== src/Web/Dashboard/Tests.antt =====
-- Events of the page of client/app.js.
use web_dashboard.Prelude.{
  String, Bool, if◌then◌else◌, ℕ, ◌≡◌, refl, true, Option, none, some, List, [], ◌∷◌, arith, pos,
}
use web_dashboard.Mobile.Address.{Text, text, after_prefix}
use web_dashboard.Web.Geo.{Point, valid_point, normalize_pan, normalize_heading}
use web_dashboard.Web.Blend.{
  Fix, smooth_fix, lerp_fix, lerp, lerp_heading, blend_hdg, blend_acc, blend_alt,
}
use web_dashboard.Web.Gps
use web_dashboard.Web.Gps.{hold, Position, make_fix, read_position, tick_at, target}
use web_dashboard.Web.Gps.Settle.{quarter}
use web_dashboard.Web.Map
use web_dashboard.Web.Roadview
use web_dashboard.Web.Auth.{includes, to_lower}
use web_dashboard.Web.Page.{Clock}
use web_dashboard.Web.Dashboard.{
  Dashboard, Browser, Event, ticks, starts_gps, fires, positions, errors, marks, handle, run,
  opened, tick, detect_client_os, describe_gps_error, start_gps, started, on_position, on_fix,
  show_view, show_signals, apply_gps_override_if_needed,
}
use web_dashboard.Web.Panel.{update_gps}
use web_dashboard.Web.Dashboard.Sound.{IsSound, run-IsSound}
use web_dashboard.Web.Dashboard.Told.{no_fix_told, error_told, fix_ends_override}
use web_dashboard.Web.Dashboard.Agree.{run_agrees}

abbrev apart : Point → Point → Option ℕ
apart p q = some 0

abbrev any : String → Bool
any url = true

abbrev page : Dashboard
page = opened any true (Gps.new hold quarter 4000 true) (Map.new true 16 1200) (Roadview.new true)

abbrev at : ℕ → Clock
at now = record { now_ms = now; date_ms = now }

abbrev phone : Text
phone = text "Mozilla/5.0 (iPhone; CPU iPhone OS 17_0 like Mac OS X)"

abbrev browser : Browser
browser = record { visible = true; user_agent = phone; platform = some "iPhone" }

phone_os : detect_client_os phone ≡ "iOS"
unfolding detect_client_os includes to_lower after_prefix
phone_os = refl

abbrev position : Position
position = record {
  timestamp = 1000;
  latitude = some (pos 37_566_500);
  longitude = some (pos 126_978_000);
  speed = none;
  heading = some (pos 90_000_000);
  accuracy = some 5000;
  altitude = none;
}

abbrev events : List Event
events = ticks (at 100) ∷ starts_gps ∷ positions 0 (at 200) browser position ∷ []

abbrev quiet : List Event
quiet = ticks (at 100) ∷ marks (at 150) "note" ∷ ticks (at 200) ∷ []

run-IsSound_example : IsSound (run apart events page)
run-IsSound_example =
    run-IsSound apart any events true true hold quarter 4000 (Map.new true 16 1200)
      (Roadview.new true) (omega arith)

no_fix_told_example :
    let waiting = run apart quiet (handle apart starts_gps page) in
    (tick apart (at 13000) (run apart quiet (handle apart (fires 1) waiting))).panel.state
    ≡ ("gps-no-fix", "stale")
unfolding Gps.new
no_fix_told_example = no_fix_told apart quiet quiet (at 13000) page refl refl refl refl refl

-- The page with its watch running.
-- The click has set the timeout 1.
abbrev watching : Dashboard
watching = handle apart starts_gps page

error_told_example :
    let waiting = run apart quiet (handle apart (errors 0 1) watching) in
    ((tick apart (at 900) waiting).panel.state ≡ (describe_gps_error 1, "disconnected"))
    × ((tick apart (at 900) (run apart quiet (handle apart (fires 1) waiting))).panel.state ≡ (
        if watching.timers 1
        then (if watching.secure then "gps-no-fix" else "gps-no-fix(https권장)", "stale")
        else (describe_gps_error 1, "disconnected")))
unfolding handle start_gps started Gps.new Gps.start
error_told_example = error_told apart 0 1 1 quiet quiet (at 900) watching refl refl refl refl

abbrev first_fix : Fix
first_fix = record {
  t_ms = 1000;
  recv_ms = 200;
  at = record { lat = pos 37_566_500; lon = pos 126_978_000 };
  spd = pos 0;
  hdg = some (pos 90_000_000);
  acc = some 5000;
  alt = none;
}

shown_fix : (tick apart (at 300) (run apart events page)).panel.shown ≡ some first_fix
unfolding run handle tick start_gps started on_position on_fix read_position make_fix valid_point
    normalize_heading Gps.new Gps.start Gps.tick tick_at target show_view show_signals
    apply_gps_override_if_needed update_gps smooth_fix lerp_fix lerp lerp_heading blend_hdg
    blend_acc blend_alt
shown_fix = refl

run_agrees_example :
    let d = run apart events page in
    (d.map.ready ≡ true → (tick apart (at 300) d).map.marker ≡ some (first_fix.at))
    × (d.roadview.ready ≡ true
        → (tick apart (at 300) d).roadview.pan ≡ some (normalize_pan first_fix.hdg))
run_agrees_example =
    run_agrees apart any events (at 300) true true hold quarter 4000 (Map.new true 16 1200)
      (Roadview.new true) first_fix (omega arith) shown_fix

-- The page with a first fix, and an error after it.
abbrev failing : Dashboard
failing = record page {
  tracker = record (page.tracker) { last_fix = some first_fix };
  override = some (record { text = "gps-timeout"; class_name = "disconnected" });
}

fix_ends_override_example :
    ((tick apart (at 9000) failing).override ≡ none)
    × ((tick apart (at 9000) failing).panel.state ≡ ("stale", "stale"))
unfolding Gps.new
fix_ends_override_example = fix_ends_override apart (at 9000) failing first_fix refl
