-- ===== src/Web/Gps/Tests.antt =====
-- Runs of client/gps.js on concrete positions.
use web_dashboard.Prelude.{
  ℕ, ◌≡◌, refl, true, arith, Option, none, some, List, [], ◌∷◌, pos, negsuc, abs_ℕ, ◌+ℤ◌, ◌≤◌, ◌*◌,
}
use web_dashboard.Web.Geo.{degree, valid_point, normalize_heading}
use web_dashboard.Web.Geo.Angles.{IsHeading, SameDirection}
use web_dashboard.Web.Blend.{Fix, lerp_heading}
use web_dashboard.Web.Blend.Between.{Every, delta, turned, lerp_heading_lem}
use web_dashboard.Web.Gps.Accuracy.{unknown_accuracy}
use web_dashboard.Web.Gps.Settle.{quarter, Holds, all_ticks, ticks_settle}
use web_dashboard.Web.Gps.{
  lerp, hold, Tracker, Position, Transition, new, make_fix, read_position, Event, starts, positions,
  ticks, run, handle, start, on_position, tick, tick_at,
}

abbrev position : ℕ → ℕ → Position
position t lat = record {
  timestamp = t;
  latitude = some (pos lat);
  longitude = some (pos 126_978_000);
  speed = none;
  heading = some (negsuc 89_999_999);
  accuracy = some 5;
  altitude = none;
}

abbrev events : List Event
events =
    starts
    ∷ starts
    ∷ positions 0 (position 1000 37_566_500) 400 0
    ∷ positions 0 (position 1100 37_566_600) 500 0
    ∷ positions 0 (position 1200 137_566_600) 600 0
    ∷ ticks 550
    ∷ []

abbrev duration_of : Option Transition → Option ℕ
duration_of none = none
duration_of (some t) = some t.duration_ms

quick_fixes : duration_of (run events (new lerp quarter 4000 true)).transition ≡ some 250
unfolding run handle start new on_position read_position make_fix valid_point tick tick_at
quick_fixes = refl

abbrev fix_at_lat : ℕ → Fix
fix_at_lat lat = record {
  t_ms = 1000;
  recv_ms = 400;
  at = record { lat = pos lat; lon = pos 126_978_000 };
  spd = pos 0;
  hdg = some (pos 270_000_000);
  acc = some 5;
  alt = none;
}

-- The last fix is nine millionths of a degree further than the one displayed.
abbrev behind : Tracker
behind = record (new hold quarter 4000 true) {
  last_fix = some (fix_at_lat 37_566_509);
  display_fix = some (fix_at_lat 37_566_500);
}

ticks_settle_example :
    Holds 3 (fix_at_lat 37_566_509) (run (all_ticks (10 ∷ 20 ∷ 30 ∷ 40 ∷ 50 ∷ 60 ∷ [])) behind)
unfolding new
ticks_settle_example =
    ticks_settle 6 (10 ∷ 20 ∷ 30 ∷ 40 ∷ 50 ∷ 60 ∷ []) (fix_at_lat 37_566_509) behind (omega arith)
      (record {
        mode = refl;
        ema = refl;
        last = refl;
        shown = fix_at_lat 37_566_500;
        display = refl;
        near = record { lat = omega arith; lon = omega arith };
      })

lerp_heading_lem_example :
    (abs_ℕ (delta (pos 350_000_000) (pos 10_000_000)) ≤ 180 * degree)
    × SameDirection (pos 350_000_000 +ℤ delta (pos 350_000_000) (pos 10_000_000)) (pos 10_000_000)
    × Every IsHeading (lerp_heading (pos 350_000_000) (pos 10_000_000) quarter)
    × Every
        (λ h. SameDirection h (turned (pos 350_000_000) (pos 10_000_000) quarter))
        (lerp_heading (pos 350_000_000) (pos 10_000_000) quarter)
lerp_heading_lem_example =
    lerp_heading_lem (pos 350_000_000) (pos 10_000_000) quarter (refl, omega arith)
      (refl, omega arith)

abbrev no_accuracy : Position
no_accuracy = record (position 1000 37_566_500) { accuracy = none }

abbrev inaccurate : Fix
inaccurate = record (fix_at_lat 37_566_500) { acc = none }

unknown_accuracy_example :
    (shown : Fix) × ((tick 500 (on_position no_accuracy 400 0 (new lerp quarter 4000 true))).1.fix
      ≡ some shown)
    × (shown.acc ≡ some 0)
unfolding read_position make_fix valid_point normalize_heading
unknown_accuracy_example =
    unknown_accuracy lerp quarter 4000 400 0 500 true no_accuracy inaccurate refl refl
