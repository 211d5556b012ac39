-- ===== src/Web/Dashboard/Frames.antt =====
-- client/app.js: what the interval leaves alone, and what it shows of the tracker's view.
use web_dashboard.Prelude.{
  ℕ, ◌≡◌, refl, ap, ◌∙◌, subst, Bool, true, false, Option, none, some, String, if◌then◌else◌, ℤ,
}
use web_dashboard.Web.Geo.{Point}
use web_dashboard.Web.Blend.{Fix}
use web_dashboard.Web.Gps
use web_dashboard.Web.Gps.{Tracker, View, tick_at, target}
use web_dashboard.Web.Page.{Clock}
use web_dashboard.Web.Map
use web_dashboard.Web.Roadview
use web_dashboard.Web.Panel.{Panel, update_gps, update_gps_with, update_connection}
use web_dashboard.Web.Dashboard.{
  Dashboard, Override, override_with, apply_gps_override_if_needed, show_signals, signals,
  show_view, tick, fix_of,
}

-- The parts of the page that the GPS button works on.
pub record SameButton (d e : Dashboard) : Type 0 where
  pub timers : e.timers ≡ d.timers
  pub no_fix_timer : e.no_fix_timer ≡ d.no_fix_timer
  pub secure : e.secure ≡ d.secure

show_signals-SameButton :
    (t : ℕ) (s : Option (String → Option ℤ)) (d : Dashboard) → SameButton d (show_signals t s d)
unfolding show_signals
show_signals-SameButton t none d = record { timers = refl; no_fix_timer = refl; secure = refl }
show_signals-SameButton t (some sig) d = record {
  timers = refl;
  no_fix_timer = refl;
  secure = refl;
}

show_signals_frame :
    (t : ℕ) (s : Option (String → Option ℤ)) (d : Dashboard)
    → let e = show_signals t s d in
      (e.tracker ≡ d.tracker)
      × (e.override ≡ d.override)
      × (e.map ≡ d.map)
      × (e.roadview ≡ d.roadview)
unfolding show_signals
show_signals_frame t none d = (refl, refl, refl, refl)
show_signals_frame t (some sig) d = (refl, refl, refl, refl)

-- `gpsStateOverride` after the interval, and what the state says.
abbrev pub override_after : Option Fix → Option Override → Option Override
override_after none o = o
override_after (some fix) o = none

abbrev pub state_after : Option Fix → Bool → Option Override → String × String
state_after none stale none = ("idle", "neutral")
state_after none stale (some o) = (o.text, o.class_name)
state_after (some fix) true o = ("stale", "stale")
state_after (some fix) false o = ("tracking", "connected")

override_with_frame :
    (o : Option Override) (f : Option Fix) (x : Dashboard)
    → let e = override_with o f x in
      SameButton x e
      × (e.tracker ≡ x.tracker)
      × (e.map ≡ x.map)
      × (e.roadview ≡ x.roadview)
      × (e.panel.shown ≡ x.panel.shown)
override_with_frame none f x =
    (record { timers = refl; no_fix_timer = refl; secure = refl }, refl, refl, refl, refl)
override_with_frame (some o) none x =
    (record { timers = refl; no_fix_timer = refl; secure = refl }, refl, refl, refl, refl)
override_with_frame (some o) (some fix) x =
    (record { timers = refl; no_fix_timer = refl; secure = refl }, refl, refl, refl, refl)

override_with_kept :
    (o : Option Override) (f : Option Fix) (x : Dashboard)
    → x.override ≡ o
    → (override_with o f x).override ≡ override_after f o
override_with_kept none none x h = h
override_with_kept none (some fix) x h = h
override_with_kept (some o) none x h = h
override_with_kept (some o) (some fix) x h = refl

fix_state :
    (b : Bool) (fix : Fix) (o : Option Override)
    → (if b then ("stale", "stale") else ("tracking", "connected")) ≡ state_after (some fix) b o
fix_state true fix o = refl
fix_state false fix o = refl

override_with-state :
    (o : Option Override) (f : Option Fix) (view : View) (p : Panel) (x : Dashboard)
    → x.panel ≡ update_gps_with f view p
    → (override_with o f x).panel.state ≡ state_after f view.stale o
override_with-state none none view p x h = ap (λ q. q.state) h
override_with-state none (some fix) view p x h = ap (λ q. q.state) h ∙ fix_state view.stale fix none
override_with-state (some o) none view p x h = refl
override_with-state (some o) (some fix) view p x h =
    ap (λ q. q.state) h ∙ fix_state view.stale fix (some o)

update_gps-shown : (f : Option Fix) (view : View) (p : Panel) → (update_gps_with f view p).shown ≡ f
update_gps-shown none view p = refl
update_gps-shown (some fix) view p = refl

-- What the interval makes of a view of the tracker `g`.
pub record Displays (metres : Point → Point → Option ℕ) (now : ℕ) (g : Tracker) (view : View)
    (d e : Dashboard) : Type 0 where
  pub button : SameButton d e
  pub tracker : e.tracker ≡ g
  pub override : e.override ≡ override_after view.fix d.override
  pub state : e.panel.state ≡ state_after view.fix view.stale d.override
  pub shown : e.panel.shown ≡ view.fix
  pub map : e.map ≡ Map.update_from_fix (fix_of view) view.stale d.map
  pub roadview :
      e.roadview ≡ (Roadview.update_from_fix metres (fix_of view) view.stale now d.roadview).0

show_view-Displays :
    (metres : Point → Point → Option ℕ) (now : ℕ) (g : Tracker) (view : View) (d : Dashboard)
    → Displays metres now g view d (show_view metres now (g, view) d)
unfolding show_view apply_gps_override_if_needed update_gps
show_view-Displays metres now g view d =
    let x = record d {
      tracker = g;
      last_gps_view = some view;
      panel = update_gps_with view.fix view d.panel;
    } in
    let f = override_with_frame d.override view.fix x in
    record {
      button = record { timers = f.0.timers; no_fix_timer = f.0.no_fix_timer; secure = f.0.secure };
      tracker = f.1;
      override = override_with_kept d.override view.fix x refl;
      state = override_with-state d.override view.fix view d.panel x refl;
      shown = f.4 ∙ update_gps-shown view.fix view d.panel;
      map = ap (Map.update_from_fix (fix_of view) view.stale) (f.2);
      roadview = ap (λ r. (Roadview.update_from_fix metres (fix_of view) view.stale now r).0) (f.3);
    }

-- The page before may be another one that agrees in what is read.
rebase :
    (metres : Point → Point → Option ℕ) (now : ℕ) (g : Tracker) (view : View) (d d' e : Dashboard)
    → SameButton d d'
    → d'.override ≡ d.override
    → d'.map ≡ d.map
    → d'.roadview ≡ d.roadview
    → Displays metres now g view d' e
    → Displays metres now g view d e
rebase metres now g view d d' e b o m r h = record {
  button = record {
    timers = h.button.timers ∙ b.timers;
    no_fix_timer = h.button.no_fix_timer ∙ b.no_fix_timer;
    secure = h.button.secure ∙ b.secure;
  };
  tracker = h.tracker;
  override = h.override ∙ ap (override_after view.fix) o;
  state = h.state ∙ ap (state_after view.fix view.stale) o;
  shown = h.shown;
  map = h.map ∙ ap (Map.update_from_fix (fix_of view) view.stale) m;
  roadview =
      h.roadview ∙ ap (λ v. (Roadview.update_from_fix metres (fix_of view) view.stale now v).0) r;
}

-- The interval, of the page as it was before.
pub tick-Displays :
    (metres : Point → Point → Option ℕ) (c : Clock) (d : Dashboard)
    → let (g, view) = Gps.tick c.now_ms d.tracker in
      Displays metres c.now_ms g view d (tick metres c d)
unfolding tick
tick-Displays metres c d =
    let s = signals d.page.counters.last_can_frame in
    let d1 = show_signals c.date_ms s d in
    let d2 = record d1 { connection = some (update_connection c.now_ms d1.page) } in
    let f = show_signals_frame c.date_ms s d in
    let b = show_signals-SameButton c.date_ms s d in
    let gv = Gps.tick c.now_ms d1.tracker in
    subst
      (λ g.
        Displays metres c.now_ms (Gps.tick c.now_ms g).0 (Gps.tick c.now_ms g).1 d
          (show_view metres c.now_ms gv d2))
      (f.0)
      (rebase metres c.now_ms gv.0 gv.1 d d2 (show_view metres c.now_ms gv d2)
        (record { timers = b.timers; no_fix_timer = b.no_fix_timer; secure = b.secure }) (f.1) (f.2)
        (f.3) (show_view-Displays metres c.now_ms gv.0 gv.1 d2))
