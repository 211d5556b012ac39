-- ===== src/Web/Dashboard/Told.antt =====
-- client/app.js: what the state of the GPS says while there is no fix, and once there is one.
use web_dashboard.Prelude.{
  ℕ, suc, ◌-◌, ◌≡◌, refl, ap, ◌∙◌, sym, subst, Bool, true, false, Option, none, some, List, ltb,
  arith, if◌then◌else◌, is_some,
}
use web_dashboard.Host.{update}
use web_dashboard.Web.Geo.{Point}
use web_dashboard.Web.Blend.{Fix}
use web_dashboard.Web.Gps
use web_dashboard.Web.Gps.{Tracker, View, no_view, tick_at, set_mode}
use web_dashboard.Web.Gps.Watch.{start_frame}
use web_dashboard.Web.Page.{Clock}
use web_dashboard.Web.Dashboard.{
  Dashboard, Override, set_gps_override, override_at_start, started, start_gps, on_no_fix, tick,
  Event, starts_gps, fires, errors, handle, run, describe_gps_error, clear_no_fix,
}
use web_dashboard.Web.Dashboard.Frames.{tick-Displays, override_after, state_after}
use web_dashboard.Web.Dashboard.Waits.{all_quiet, Waits, run-Waits, waiting-state}

start_returns : (g : Tracker) → g.supported ≡ true → (Gps.start g).1 ≡ true
unfolding Gps.start
start_returns g h = ground arith

started_returned :
    (gv : Tracker × Bool) (x : Dashboard)
    → gv.1 ≡ true
    → started gv x ≡ record x { tracker = gv.0; start_disabled = true }
unfolding started
started_returned (g, true) x h = refl
started_returned (g, false) x h = ground arith

-- After the click, with a geolocation.
start-Waits :
    (metres : Point → Point → Option ℕ) (d : Dashboard)
    → d.start_disabled ≡ false
    → d.tracker.supported ≡ true
    → d.tracker.last_fix ≡ none
    → Waits (override_at_start d.secure) d.next_timer true d.secure (handle metres starts_gps d)
unfolding handle start_gps
start-Waits metres d enabled supported missing =
    let x = record d {
      override = override_at_start d.secure;
      no_fix_timer = some d.next_timer;
      timers = update (clear_no_fix d.no_fix_timer d.timers) d.next_timer true;
      next_timer = suc d.next_timer;
    } in
    let gv = Gps.start d.tracker in
    let step =
      ap (λ b. if b then d else started gv x) enabled
      ∙ started_returned gv x (start_returns d.tracker supported) in
    subst (Waits (override_at_start d.secure) d.next_timer true d.secure) (sym step) (record {
      no_fix = (start_frame d.tracker).0 ∙ missing;
      override = refl;
      timer = ground arith;
      context = refl;
    })

abbrev pub no_fix_override : Bool → Override
no_fix_override secure = record {
  text = if secure then "gps-no-fix" else "gps-no-fix(https권장)";
  class_name = "stale";
}

fires-Waits :
    (metres : Point → Point → Option ℕ) (o : Option Override) (t : ℕ) (secure : Bool)
    (d : Dashboard)
    → Waits o t true secure d
    → Waits (some (no_fix_override secure)) t false secure (handle metres (fires t) d)
unfolding handle on_no_fix set_gps_override
fires-Waits metres o t secure d h =
    let d' = record d { timers = update d.timers t false } in
    let told = record d' { override = some (no_fix_override d.secure) } in
    let step =
      ap (λ b. if b then on_no_fix t d else d) h.timer
      ∙ ap (λ l. if is_some l then d' else told) h.no_fix in
    subst (Waits (some (no_fix_override secure)) t false secure) (sym step) (record {
      no_fix = h.no_fix;
      override = ap (λ b. some (no_fix_override b)) h.context;
      timer = ground arith;
      context = h.context;
    })

-- A click on the GPS button, with a geolocation and without a fix; then events that are neither from
-- the GPS nor from its button, the end of the click's timeout, and such events again: the interval
-- shows that there is no fix, in the words for a secure or an insecure page.
pub no_fix_told :
    (metres : Point → Point → Option ℕ) (es fs : List Event) (c : Clock) (d : Dashboard)
    → d.start_disabled ≡ false
    → d.tracker.supported ≡ true
    → d.tracker.last_fix ≡ none
    → all_quiet es ≡ true
    → all_quiet fs ≡ true
    → let waiting = run metres es (handle metres starts_gps d) in
      (tick metres c (run metres fs (handle metres (fires d.next_timer) waiting))).panel.state
      ≡ (if d.secure then "gps-no-fix" else "gps-no-fix(https권장)", "stale")
no_fix_told metres es fs c d enabled supported missing qe qf =
    let t = d.next_timer in
    let d0 = handle metres starts_gps d in
    let d1 = run metres es d0 in
    let d2 = handle metres (fires t) d1 in
    let o = override_at_start d.secure in
    let w1 =
      run-Waits metres es o t true d.secure d0 qe
        (start-Waits metres d enabled supported missing) in
    let told = some (no_fix_override d.secure) in
    let w2 = fires-Waits metres o t d.secure d1 w1 in
    let w3 = run-Waits metres fs told t false d.secure d2 qf w2 in
    waiting-state metres c (no_fix_override d.secure) t false d.secure (run metres fs d2) w3

-- The end of a timeout, set or not.
fires-words :
    (metres : Point → Point → Option ℕ) (o : Override) (t : ℕ) (on secure : Bool) (fs : List Event)
    (c : Clock) (d : Dashboard)
    → all_quiet fs ≡ true
    → Waits (some o) t on secure d
    → (tick metres c (run metres fs (handle metres (fires t) d))).panel.state
      ≡ (if on then ((no_fix_override secure).text, "stale") else (o.text, o.class_name))
unfolding handle
fires-words metres o t true secure fs c d q h =
    let told = some (no_fix_override secure) in
    waiting-state metres c (no_fix_override secure) t false secure _
      (run-Waits metres fs told t false secure _ q (fires-Waits metres (some o) t secure d h))
fires-words metres o t false secure fs c d q h = waiting-state metres c o t false secure _ (
    run-Waits metres fs (some o) t false secure _ q (
      subst (Waits (some o) t false secure) (sym (ap (λ b. if b then on_no_fix t d else d) h.timer))
        h))

-- An error of the running watch before the first fix is shown, by its code, at every interval while
-- only events come that are neither from the GPS nor from its button nor the end of a timeout. When
-- the timeout `t` ends after that, and again only such events come, the interval shows that there is
-- no fix if the timeout was pending, and still the error if it was not.
pub error_told :
    (metres : Point → Point → Option ℕ) (w code t : ℕ) (es fs : List Event) (c : Clock)
    (d : Dashboard)
    → d.tracker.watches w ≡ true
    → d.tracker.last_fix ≡ none
    → all_quiet es ≡ true
    → all_quiet fs ≡ true
    → let waiting = run metres es (handle metres (errors w code) d) in
      ((tick metres c waiting).panel.state ≡ (describe_gps_error code, "disconnected"))
      × ((tick metres c (run metres fs (handle metres (fires t) waiting))).panel.state ≡ (
          if d.timers t
          then (if d.secure then "gps-no-fix" else "gps-no-fix(https권장)", "stale")
          else (describe_gps_error code, "disconnected")))
unfolding handle set_gps_override
error_told metres w code t es fs c d watched missing qe qf =
    let o : Override = record { text = describe_gps_error code; class_name = "disconnected" } in
    let told = record d { override = some o } in
    let h =
      subst (Waits (some o) t (d.timers t) d.secure) (sym (ap (λ b. if b then told else d) watched))
        (record { no_fix = missing; override = refl; timer = refl; context = refl }) in
    let d1 = handle metres (errors w code) d in
    let h1 = run-Waits metres es (some o) t (d.timers t) d.secure d1 qe h in
    (
      waiting-state metres c o t (d.timers t) d.secure (run metres es d1) h1,
      fires-words metres o t (d.timers t) d.secure fs c (run metres es d1) qf h1,
    )

tick_with_fix :
    (now : ℕ) (g : Tracker) (f : Fix)
    → g.last_fix ≡ some f
    → let view = (Gps.tick now g).1 in
      (is_some view.fix ≡ true) × (view.stale ≡ ltb g.stale_ms (now - f.recv_ms))
unfolding Gps.tick tick_at
tick_with_fix now g f h = rw h (refl, refl)

with_fix :
    (fix : Option Fix) (stale : Bool) (o : Option Override)
    → is_some fix ≡ true
    → (override_after fix o ≡ none)
      × (state_after fix stale o
          ≡ (if stale then "stale" else "tracking", if stale then "stale" else "connected"))
with_fix none stale o h = ground arith
with_fix (some fix) true o h = (refl, refl)
with_fix (some fix) false o h = (refl, refl)

-- Once the tracker has a fix, the interval takes any override away, also one for an error that came
-- since, and the state says only whether the last fix is older than the tracker allows.
pub fix_ends_override :
    (metres : Point → Point → Option ℕ) (c : Clock) (d : Dashboard) (f : Fix)
    → d.tracker.last_fix ≡ some f
    → let old = ltb d.tracker.stale_ms (c.now_ms - f.recv_ms) in
      ((tick metres c d).override ≡ none)
      × ((tick metres c d).panel.state
          ≡ (if old then "stale" else "tracking", if old then "stale" else "connected"))
fix_ends_override metres c d f h =
    let e = tick-Displays metres c d in
    let view = (Gps.tick c.now_ms d.tracker).1 in
    let v = tick_with_fix c.now_ms d.tracker f h in
    let w = with_fix view.fix view.stale d.override (v.0) in
    (
      e.override ∙ w.0,
      e.state
          ∙ w.1
          ∙ ap (λ s. (if s then "stale" else "tracking", if s then "stale" else "connected")) (v.1),
    )
