-- ===== src/Web/Dashboard/Waits.antt =====
-- client/app.js: the page while it waits for a first fix.
use web_dashboard.Prelude.{
  ℕ, ◌≡◌, ap, ◌∙◌, Bool, true, false, Option, none, some, List, [], ◌∷◌, ◌&&◌, arith,
}
use web_dashboard.Web.Geo.{Point}
use web_dashboard.Web.Gps
use web_dashboard.Web.Gps.{Tracker, View, no_view, tick_at, set_mode}
use web_dashboard.Web.Page.{Clock}
use web_dashboard.Web.Dashboard.{
  Dashboard, Override, send_mark, tick, Event, ticks, starts_gps, fires, positions, errors, modes,
  marks, replies, happens, handle, run,
}
use web_dashboard.Web.Dashboard.Frames.{tick-Displays, override_after, state_after}

-- An event that neither comes from the GPS nor is a click on its button.
abbrev pub is_quiet : Event → Bool
is_quiet starts_gps = false
is_quiet (fires t) = false
is_quiet (positions w c b position) = false
is_quiet (errors w code) = false
is_quiet _ = true

abbrev pub all_quiet : List Event → Bool
all_quiet [] = true
all_quiet (e ∷ es) = is_quiet e && all_quiet es

-- No fix yet, the override `o`, and the timer `t` running or not.
pub record Waits (o : Option Override) (t : ℕ) (on secure : Bool) (d : Dashboard) : Type 0 where
  pub no_fix : d.tracker.last_fix ≡ none
  pub override : d.override ≡ o
  pub timer : d.timers t ≡ on
  pub context : d.secure ≡ secure

tick_without_fix : (now : ℕ) (g : Tracker) → g.last_fix ≡ none → Gps.tick now g ≡ (g, no_view)
unfolding Gps.tick tick_at
tick_without_fix now g h = ap (λ l. tick_at l now g) h

pub tick-Waits :
    (metres : Point → Point → Option ℕ) (c : Clock) (o : Option Override) (t : ℕ) (on secure : Bool)
    (d : Dashboard)
    → Waits o t on secure d
    → Waits o t on secure (tick metres c d)
tick-Waits metres c o t on secure d h =
    let e = tick-Displays metres c d in
    let gv = tick_without_fix c.now_ms d.tracker h.no_fix in
    record {
      no_fix = ap (λ g. g.last_fix) (e.tracker ∙ ap (λ v. v.0) gv) ∙ h.no_fix;
      override = e.override ∙ ap (λ v. override_after v.1.fix d.override) gv ∙ h.override;
      timer = ap (λ f. f t) e.button.timers ∙ h.timer;
      context = e.button.secure ∙ h.context;
    }

handle-Waits :
    (metres : Point → Point → Option ℕ) (e : Event) (o : Option Override) (t : ℕ) (on secure : Bool)
    (d : Dashboard)
    → is_quiet e ≡ true
    → Waits o t on secure d
    → Waits o t on secure (handle metres e d)
unfolding handle send_mark set_mode
handle-Waits metres (ticks c) o t on secure d q h = tick-Waits metres c o t on secure d h
handle-Waits metres starts_gps o t on secure d q h = ground arith
handle-Waits metres (fires u) o t on secure d q h = ground arith
handle-Waits metres (positions w c b p) o t on secure d q h = ground arith
handle-Waits metres (errors w code) o t on secure d q h = ground arith
handle-Waits metres (modes m) o t on secure d q h = record {
  no_fix = h.no_fix;
  override = h.override;
  timer = h.timer;
  context = h.context;
}
handle-Waits metres (marks c note) o t on secure d q h = record {
  no_fix = h.no_fix;
  override = h.override;
  timer = h.timer;
  context = h.context;
}
handle-Waits metres (replies c r) o t on secure d q h = record {
  no_fix = h.no_fix;
  override = h.override;
  timer = h.timer;
  context = h.context;
}
handle-Waits metres (happens c e) o t on secure d q h = record {
  no_fix = h.no_fix;
  override = h.override;
  timer = h.timer;
  context = h.context;
}

pub run-Waits :
    (metres : Point → Point → Option ℕ) (es : List Event) (o : Option Override) (t : ℕ)
    (on secure : Bool) (d : Dashboard)
    → all_quiet es ≡ true
    → Waits o t on secure d
    → Waits o t on secure (run metres es d)
unfolding run
run-Waits metres [] o t on secure d q h = h
run-Waits metres (e ∷ es) o t on secure d q h =
    run-Waits metres es o t on secure (handle metres e d) (ground (arith, q))
      (handle-Waits metres e o t on secure d (ground (arith, q)) h)

-- With an override and no fix, the interval shows the override.
pub waiting-state :
    (metres : Point → Point → Option ℕ) (c : Clock) (o : Override) (t : ℕ) (on secure : Bool)
    (d : Dashboard)
    → Waits (some o) t on secure d
    → (tick metres c d).panel.state ≡ (o.text, o.class_name)
waiting-state metres c o t on secure d h =
    let e = tick-Displays metres c d in
    e.state
    ∙ ap (λ v. state_after v.1.fix v.1.stale d.override)
        (tick_without_fix c.now_ms d.tracker h.no_fix)
    ∙ ap (state_after none true) h.override
