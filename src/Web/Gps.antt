-- ===== src/Web/Gps.antt =====
-- client/gps.js: `GpsTracker`, the watch of the browser's geolocation, the fixes that it keeps and the
-- one that it displays. Times are whole milliseconds.
pub mod Accuracy
pub mod Settle
pub mod Watch
mod Tests
use web_dashboard.Prelude.{
  ℕ, suc, ◌-◌, min, max, ◌*◌, Bool, true, false, not, Option, none, some, List, [], ◌∷◌, ◌&&◌, ltb,
  leb, is_some, if◌then◌else◌, ℤ, pos, ◌==◌,
}
use web_dashboard.Host.{update}
use web_dashboard.Web.Blend.{Alpha, Fix, smooth_fix, lerp_fix}
use web_dashboard.Web.Geo.{Point, GpsFix, valid_point, normalize_heading}

pub data Mode : Type 0 where
  hold lerp : Mode

-- A `position` of the geolocation; `none` is a value that is not finite.
pub record Position : Type 0 where
  pub timestamp : ℕ
  pub latitude : Option ℤ
  pub longitude : Option ℤ
  pub speed : Option ℤ
  pub heading : Option ℤ
  pub accuracy : Option ℕ
  pub altitude : Option ℤ

pub record Transition : Type 0 where
  pub from : Fix
  pub to : Fix
  pub start_ms : ℕ
  pub duration_ms : ℕ

-- `supported` is `navigator.geolocation`, and `watches` its running watches, by number.
pub record Tracker : Type 0 where
  pub mode : Mode
  pub ema_alpha : Alpha
  pub stale_ms : ℕ
  pub watch_id : Option ℕ
  pub prev_fix : Option Fix
  pub last_fix : Option Fix
  pub display_fix : Option Fix
  pub transition : Option Transition
  pub supported : Bool
  pub next_watch : ℕ
  pub watches : ℕ → Bool

unfoldable pub new : Mode → Alpha → ℕ → Bool → Tracker
new mode ema stale supported = record {
  mode = mode;
  ema_alpha = ema;
  stale_ms = stale;
  watch_id = none;
  prev_fix = none;
  last_fix = none;
  display_fix = none;
  transition = none;
  supported = supported;
  next_watch = 0;
  watches = λ w. false;
}

unfoldable pub set_mode : Mode → Tracker → Tracker
set_mode mode g = record g { mode = mode }

-- `start`, and whether it returned; it throws where there is no geolocation.
unfoldable pub start : Tracker → Tracker × Bool
start g = if not g.supported then (g, false) else if is_some g.watch_id then (g, true) else (
  record g {
    watch_id = some g.next_watch;
    next_watch = suc g.next_watch;
    watches = update g.watches g.next_watch true;
  },
  true,
)

abbrev pub clear_watch : Option ℕ → (ℕ → Bool) → ℕ → Bool
clear_watch none watches = watches
clear_watch (some w) watches = update watches w false

unfoldable pub stop : Tracker → Tracker
stop g = record g {
  watch_id = none;
  watches = if g.supported then clear_watch g.watch_id g.watches else g.watches;
}

-- `x ?? 0` on a number that may not be finite.
abbrev pub or_zero : Option ℤ → ℤ
or_zero none = pos 0
or_zero (some x) = x

-- `timestamp || Date.now()`.
abbrev pub stamp : ℕ → ℕ → ℕ
stamp timestamp date = if timestamp == 0 then date else timestamp

unfoldable pub make_fix : Point → Position → ℕ → ℕ → Fix
make_fix p position now date = record {
  t_ms = stamp position.timestamp date;
  recv_ms = now;
  at = p;
  spd = or_zero position.speed;
  hdg = normalize_heading position.heading;
  acc = position.accuracy;
  alt = position.altitude;
}

-- `clamp(value, min, max)` of the time between two fixes, which may be negative.
abbrev pub duration : ℕ → ℕ → ℕ
duration earlier later = max 250 (min 2000 (later - earlier))

abbrev pub transition_to : Option Fix → Fix → ℕ → Option Transition → Option Transition
transition_to none fix now before = before
transition_to (some prev) fix now before =
    some
      (record { from = prev; to = fix; start_ms = now; duration_ms = duration prev.t_ms fix.t_ms })

-- The displayed fix, where there is one already.
abbrev pub or_fix : Option Fix → Fix → Fix
or_fix none fix = fix
or_fix (some shown) fix = shown

-- The watch's callback with a valid fix; `none` is an invalid position.
abbrev pub keep_fix : Option Fix → Tracker → Tracker
keep_fix none g = g
keep_fix (some fix) g = record g {
  prev_fix = g.last_fix;
  last_fix = some fix;
  transition = transition_to g.last_fix fix fix.recv_ms g.transition;
  display_fix = some (or_fix g.display_fix fix);
}

abbrev pub coordinates : Position → GpsFix
coordinates position = record {
  lat = position.latitude;
  lon = position.longitude;
  hdg = position.heading;
  acc = position.accuracy;
}

abbrev pub fix_at : Option Point → Position → ℕ → ℕ → Option Fix
fix_at none position now date = none
fix_at (some p) position now date = some (make_fix p position now date)

-- The test of `isValidLatLon`, and the fix.
unfoldable pub read_position : Position → ℕ → ℕ → Option Fix
unfolding make_fix
read_position position now date =
    fix_at (valid_point (some (coordinates position))) position now date

unfoldable pub on_position : Position → ℕ → ℕ → Tracker → Tracker
unfolding read_position
on_position position now date g = keep_fix (read_position position now date) g

-- The transition once its time is over, in the mode that shows it.
abbrev pub after_tick : Mode → ℕ → Option Transition → Option Transition
after_tick hold now t = t
after_tick lerp now none = none
after_tick lerp now (some t) = if leb t.duration_ms (now - t.start_ms) then none else some t

-- What `tick` aims at: a point of the transition, in the mode that shows it, or the last fix.
unfoldable pub target : Mode → ℕ → Option Transition → Fix → Fix
unfolding lerp_fix
target hold now t last = last
target lerp now none last = last
target lerp now (some t) last =
    lerp_fix t.from t.to
      (record { num = min (now - t.start_ms) t.duration_ms; den = t.duration_ms })

-- What `tick` returns.
pub record View : Type 0 where
  pub fix : Option Fix
  pub stale : Bool
  pub age_ms : Option ℕ

abbrev pub no_view : View
no_view = record { fix = none; stale = true; age_ms = none }

unfoldable pub tick_at : Option Fix → ℕ → Tracker → Tracker × View
unfolding smooth_fix target
tick_at none now g = (g, no_view)
tick_at (some last) now g =
    let shown = smooth_fix g.display_fix (target g.mode now g.transition last) g.ema_alpha in
    let age = now - last.recv_ms in
    (
      record g { transition = after_tick g.mode now g.transition; display_fix = some shown },
      record { fix = some shown; stale = ltb g.stale_ms age; age_ms = some age },
    )

unfoldable pub tick : ℕ → Tracker → Tracker × View
unfolding tick_at
tick now g = tick_at g.last_fix now g

pub data Event : Type 0 where
  starts stops : Event
  modes : Mode → Event
  positions : ℕ → Position → ℕ → ℕ → Event
  ticks : ℕ → Event

-- A position comes from a running watch only.
unfoldable pub handle : Event → Tracker → Tracker
unfolding start stop set_mode on_position tick
handle starts g = (start g).0
handle stops g = stop g
handle (modes m) g = set_mode m g
handle (positions w position now date) g =
    if g.watches w then on_position position now date g else g
handle (ticks now) g = (tick now g).0

unfoldable pub run : List Event → Tracker → Tracker
run [] g = g
run (e ∷ es) g = run es (handle e g)
