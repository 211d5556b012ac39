-- ===== src/Web/Dashboard/Sound.antt =====
-- client/app.js: the timer of the GPS button and the tracker, after any events.
use web_dashboard.Prelude.{
  String, Bool, ℕ, suc, ◌≡◌, ◌≤◌, refl, ap, ◌∙◌, sym, subst, Bool, true, false, Option, none, some,
  List, [], ◌∷◌, arith, is_some, if-holds,
}
use web_dashboard.Host.{update}
use web_dashboard.Web.Geo.{Point}
use web_dashboard.Web.Blend.{Fix, Alpha}
use web_dashboard.Web.Blend.Between.{Every, IsValid}
use web_dashboard.Web.Gps
use web_dashboard.Web.Gps.{Tracker, Mode, Position, View, set_mode, keep_fix, read_position}
use web_dashboard.Web.Gps.Watch
use web_dashboard.Web.Map.{NaverMap}
use web_dashboard.Web.Roadview.{Roadview}
use web_dashboard.Web.Page.{Clock}
use web_dashboard.Web.Dashboard.{
  Dashboard, Browser, set_gps_override, clear_no_fix, override_at_start, started, start_gps,
  on_no_fix, on_fix, on_position, send_mark, tick, Event, ticks, starts_gps, fires, positions,
  errors, modes, marks, replies, happens, handle, run, opened,
}
use web_dashboard.Web.Dashboard.Frames.{tick-Displays}

-- A timer that is running is the one in `gpsNoFixTimer`, and the tracker is sound.
pub record IsSound (d : Dashboard) : Type 0 where
  pub timer : (t : ℕ) → d.timers t ≡ true → d.no_fix_timer ≡ some t
  pub tracker : Watch.IsSound d.tracker

cleared_off :
    (o : Option ℕ) (timers : ℕ → Bool) (t : ℕ)
    → ((u : ℕ) → timers u ≡ true → o ≡ some u)
    → clear_no_fix o timers t ≡ false
cleared_off none timers t h = ground (arith, h t)
cleared_off (some u) timers t h = ground (arith, h t)

tick-IsSound :
    (metres : Point → Point → Option ℕ) (c : Clock) (d : Dashboard)
    → IsSound d
    → IsSound (tick metres c d)
tick-IsSound metres c d h =
    let e = tick-Displays metres c d in
    record {
      timer = λ t on. e.button.no_fix_timer ∙ h.timer t (sym (ap (λ f. f t) e.button.timers) ∙ on);
      tracker =
          subst Watch.IsSound (sym e.tracker) (Watch.tick-IsSound c.now_ms d.tracker h.tracker);
    }

only_next :
    (n t : ℕ) (timers : ℕ → Bool)
    → timers t ≡ false
    → update timers n true t ≡ true
    → some n ≡ some t
only_next n t timers off on = ground arith

started_frame :
    (gv : Tracker × Bool) (x : Dashboard)
    → ((started gv x).timers ≡ x.timers) × ((started gv x).no_fix_timer ≡ x.no_fix_timer)
unfolding started set_gps_override
started_frame (g, true) x = (refl, refl)
started_frame (g, false) x = (refl, refl)

started-tracker :
    (gv : Tracker × Bool) (x : Dashboard)
    → Watch.IsSound gv.0
    → Watch.IsSound x.tracker
    → Watch.IsSound (started gv x).tracker
unfolding started set_gps_override
started-tracker (g, true) x hg hx = hg
started-tracker (g, false) x hg hx = hx

started-IsSound : (d : Dashboard) → IsSound d → IsSound (start_gps d)
unfolding start_gps
started-IsSound d h =
    let x = record d {
      override = override_at_start d.secure;
      no_fix_timer = some d.next_timer;
      timers = update (clear_no_fix d.no_fix_timer d.timers) d.next_timer true;
      next_timer = suc d.next_timer;
    } in
    let gv = Gps.start d.tracker in
    let f = started_frame gv x in
    record {
      timer = λ t on.
          f.1
          ∙ only_next d.next_timer t (clear_no_fix d.no_fix_timer d.timers)
              (cleared_off d.no_fix_timer d.timers t h.timer) (sym (ap (λ g. g t) (f.0)) ∙ on);
      tracker = started-tracker gv x (Watch.start-IsSound d.tracker h.tracker) h.tracker;
    }

off_timer : (t u : ℕ) (timers : ℕ → Bool) → update timers t false u ≡ true → timers u ≡ true
off_timer t u timers on = ground arith

on_no_fix-IsSound : (t : ℕ) (d : Dashboard) → IsSound d → IsSound (on_no_fix t d)
unfolding on_no_fix set_gps_override
on_no_fix-IsSound t d h =
    let timer : (u : ℕ) → update d.timers t false u ≡ true → d.no_fix_timer ≡ some u =
      λ u on. h.timer u (off_timer t u d.timers on) in
    if-holds IsSound (is_some d.tracker.last_fix) _ _
      (record { timer = timer; tracker = h.tracker })
      (record { timer = timer; tracker = h.tracker })

on_fix-IsSound :
    (c : Clock) (b : Browser) (fix : Option Fix) (d : Dashboard)
    → Every IsValid fix
    → IsSound d
    → IsSound (on_fix c b fix d)
unfolding on_fix
on_fix-IsSound c b none d v h = h
on_fix-IsSound c b (some fix) d v h = record {
  timer = h.timer;
  tracker = Watch.keep_fix-IsSound (some fix) d.tracker v h.tracker;
}

handle-IsSound :
    (metres : Point → Point → Option ℕ) (e : Event) (d : Dashboard)
    → IsSound d
    → IsSound (handle metres e d)
unfolding handle on_position set_gps_override send_mark set_mode Gps.handle
handle-IsSound metres (ticks c) d h = tick-IsSound metres c d h
handle-IsSound metres starts_gps d h =
    if-holds IsSound d.start_disabled d (start_gps d) h (started-IsSound d h)
handle-IsSound metres (fires t) d h =
    if-holds IsSound (d.timers t) (on_no_fix t d) d (on_no_fix-IsSound t d h) h
handle-IsSound metres (positions w c b position) d h =
    if-holds IsSound (d.tracker.watches w) _ d
      (on_fix-IsSound c b (read_position position c.now_ms c.date_ms) d
        (Watch.read_position-IsValid position c.now_ms c.date_ms) h)
      h
handle-IsSound metres (errors w code) d h =
    if-holds IsSound (d.tracker.watches w) _ d (record { timer = h.timer; tracker = h.tracker }) h
handle-IsSound metres (modes m) d h = record {
  timer = h.timer;
  tracker = Watch.handle-IsSound (Gps.modes m) d.tracker h.tracker;
}
handle-IsSound metres (marks c note) d h = record { timer = h.timer; tracker = h.tracker }
handle-IsSound metres (replies c r) d h = record { timer = h.timer; tracker = h.tracker }
handle-IsSound metres (happens c e) d h = record { timer = h.timer; tracker = h.tracker }

run_from-IsSound :
    (metres : Point → Point → Option ℕ) (es : List Event) (d : Dashboard)
    → IsSound d
    → IsSound (run metres es d)
unfolding run
run_from-IsSound metres [] d h = h
run_from-IsSound metres (e ∷ es) d h =
    run_from-IsSound metres es (handle metres e d) (handle-IsSound metres e d h)

-- After any events from the loading of the page on: at most one timeout of the GPS button is running,
-- the one that the next click would clear; and the tracker is sound, so that at most one watch runs
-- and every fix that it holds or displays lies on the globe.
pub run-IsSound :
    (metres : Point → Point → Option ℕ) (accepts : String → Bool) (es : List Event)
    (secure supported : Bool) (mode : Mode) (ema : Alpha) (stale : ℕ) (map : NaverMap)
    (roadview : Roadview)
    → ema.num ≤ ema.den
    → IsSound
        (run metres es (opened accepts secure (Gps.new mode ema stale supported) map roadview))
unfolding Gps.run
run-IsSound metres accepts es secure supported mode ema stale map roadview h =
    run_from-IsSound metres es
      (opened accepts secure (Gps.new mode ema stale supported) map roadview)
      (record {
        timer = λ t on. ground arith;
        tracker = Watch.run-IsSound mode ema stale supported [] h;
      })
