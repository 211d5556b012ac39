-- ===== src/Web/Gps/Watch.antt =====
-- client/gps.js: which watch runs, and what the kept fixes are like.
use web_dashboard.Prelude.{
  ℕ, min, ◌*◌, ◌-◌, ◌≤◌, ◌≡◌, refl, inl, inr, subst, sym, Option-cases, Bool-cases, Bool, true,
  false, Option, none, some, List, [], ◌∷◌, arith, ℤ, abs_ℕ, leb,
}
use web_dashboard.Web.Geo.{degree, Point, GpsFix, valid_point, normalize_heading}
use web_dashboard.Web.Geo.Angles.{IsHeading, wrapped-IsHeading}
use web_dashboard.Web.Blend.{Alpha, Fix}
use web_dashboard.Web.Blend.Between.{Every, IsValid, lerp_fix-IsValid, smooth_fix-IsValid}
use web_dashboard.Web.Gps.{
  Mode, hold, lerp, Position, Fix, Transition, Tracker, new, set_mode, start, stop, make_fix,
  transition_to, keep_fix, or_fix, target, tick_at, coordinates, read_position, on_position,
  after_tick, tick, Event, starts, stops, modes, positions, ticks, handle, run,
}

pub record IsSmooth (t : Transition) : Type 0 where
  pub from : IsValid t.from
  pub to : IsValid t.to
  pub least : 250 ≤ t.duration_ms
  pub most : t.duration_ms ≤ 2000

-- At most one watch runs, the one in `watch_id`; every fix kept is valid; a transition leads between
-- valid fixes and takes from 250 to 2000 ms.
pub record IsSound (g : Tracker) : Type 0 where
  pub watch : (w : ℕ) → g.watches w ≡ true → g.watch_id ≡ some w
  pub last : Every IsValid g.last_fix
  pub prev : Every IsValid g.prev_fix
  pub transition : Every IsSmooth g.transition
  pub ema : g.ema_alpha.num ≤ g.ema_alpha.den
  pub display : Every IsValid g.display_fix
  pub unsupported : (w : ℕ) → g.supported ≡ false → g.watches w ≡ false

valid_point-bounds :
    (f : GpsFix) (p : Point)
    → valid_point (some f) ≡ some p
    → abs_ℕ p.lat ≤ 90 * degree × abs_ℕ p.lon ≤ 180 * degree
unfolding valid_point
valid_point-bounds f p h = (ground arith, ground arith)

normalized-IsHeading : (d : Option ℤ) → Every IsHeading (normalize_heading d)
unfolding normalize_heading
normalized-IsHeading none = tt
normalized-IsHeading (some d) = wrapped-IsHeading d

pub read_position-IsValid :
    (position : Position) (now date : ℕ) → Every IsValid (read_position position now date)
unfolding read_position make_fix
read_position-IsValid position now date =
    elim (Option-cases (valid_point (some (coordinates position)))) [
      | inl e ↦ rw e tt
      | inr (p, e) ↦
          let b = valid_point-bounds (coordinates position) p e in
          rw e (record { lat = b.0; lon = b.1; hdg = normalized-IsHeading position.heading })
    ]

transition-IsSmooth :
    (prev : Option Fix) (fix : Fix) (now : ℕ) (t : Option Transition)
    → Every IsValid prev
    → IsValid fix
    → Every IsSmooth t
    → Every IsSmooth (transition_to prev fix now t)
transition-IsSmooth none fix now t hp hf ht = ht
transition-IsSmooth (some prev) fix now t hp hf ht = record {
  from = hp;
  to = hf;
  least = omega arith;
  most = omega arith;
}

or_fix-IsValid :
    (shown : Option Fix) (fix : Fix)
    → Every IsValid shown
    → IsValid fix
    → IsValid (or_fix shown fix)
or_fix-IsValid none fix hs hf = hf
or_fix-IsValid (some f) fix hs hf = hs

pub keep_fix-IsSound :
    (fix : Option Fix) (g : Tracker) → Every IsValid fix → IsSound g → IsSound (keep_fix fix g)
keep_fix-IsSound none g h v = v
keep_fix-IsSound (some fix) g h v = record {
  watch = v.watch;
  last = h;
  prev = v.last;
  transition = transition-IsSmooth g.last_fix fix fix.recv_ms g.transition v.last h v.transition;
  ema = v.ema;
  display = or_fix-IsValid g.display_fix fix v.display h;
  unsupported = v.unsupported;
}

after_tick-IsSmooth :
    (m : Mode) (now : ℕ) (t : Option Transition)
    → Every IsSmooth t
    → Every IsSmooth (after_tick m now t)
after_tick-IsSmooth hold now t h = h
after_tick-IsSmooth lerp now none h = tt
after_tick-IsSmooth lerp now (some t) h = elim (Bool-cases (leb t.duration_ms (now - t.start_ms))) [
  | inl over ↦ rw over tt
  | inr under ↦ rw under h
]

pub start_frame :
    (g : Tracker)
    → let g' = (start g).0 in
      (g'.last_fix ≡ g.last_fix)
      × (g'.prev_fix ≡ g.prev_fix)
      × (g'.transition ≡ g.transition)
      × (g'.ema_alpha ≡ g.ema_alpha)
      × (g'.display_fix ≡ g.display_fix)
unfolding start
start_frame g = ground arith

pub start-IsSound : (g : Tracker) → IsSound g → IsSound (start g).0
unfolding start
start-IsSound g v =
    let f = start_frame g in
    record {
      watch = λ w. ground (arith, v.watch w);
      last = subst (Every IsValid) (sym f.0) v.last;
      prev = subst (Every IsValid) (sym f.1) v.prev;
      transition = subst (Every IsSmooth) (sym f.2) v.transition;
      ema = subst (λ a. a.num ≤ a.den) (sym f.3) v.ema;
      display = subst (Every IsValid) (sym f.4) v.display;
      unsupported = λ w. ground (arith, v.unsupported w);
    }

stop-IsSound : (g : Tracker) → IsSound g → IsSound (stop g)
unfolding stop
stop-IsSound g v = record {
  watch = λ w. ground (arith, v.watch w, v.unsupported w);
  last = v.last;
  prev = v.prev;
  transition = v.transition;
  ema = v.ema;
  display = v.display;
  unsupported = λ w. ground (arith, v.unsupported w);
}

target-IsValid :
    (m : Mode) (now : ℕ) (t : Option Transition) (last : Fix)
    → Every IsSmooth t
    → IsValid last
    → IsValid (target m now t last)
unfolding target
target-IsValid hold now t last ht h = h
target-IsValid lerp now none last ht h = h
target-IsValid lerp now (some t) last ht h =
    lerp_fix-IsValid t.from t.to
      (record { num = min (now - t.start_ms) t.duration_ms; den = t.duration_ms }) (omega arith)
      ht.from ht.to

tick_at-IsSound :
    (last : Option Fix) (now : ℕ) (g : Tracker)
    → Every IsValid last
    → IsSound g
    → IsSound (tick_at last now g).0
unfolding tick_at
tick_at-IsSound none now g h v = v
tick_at-IsSound (some last) now g h v = record {
  watch = v.watch;
  last = v.last;
  prev = v.prev;
  transition = after_tick-IsSmooth g.mode now g.transition v.transition;
  ema = v.ema;
  display =
      smooth_fix-IsValid g.display_fix (target g.mode now g.transition last) g.ema_alpha v.ema
        v.display (target-IsValid g.mode now g.transition last v.transition h);
  unsupported = v.unsupported;
}

pub tick-IsSound : (now : ℕ) (g : Tracker) → IsSound g → IsSound (tick now g).0
unfolding tick
tick-IsSound now g v = tick_at-IsSound g.last_fix now g v.last v

pub handle-IsSound : (e : Event) (g : Tracker) → IsSound g → IsSound (handle e g)
unfolding handle set_mode on_position
handle-IsSound starts g v = start-IsSound g v
handle-IsSound stops g v = stop-IsSound g v
handle-IsSound (modes m) g v = record {
  watch = v.watch;
  last = v.last;
  prev = v.prev;
  transition = v.transition;
  ema = v.ema;
  display = v.display;
  unsupported = v.unsupported;
}
handle-IsSound (positions w position now date) g v = elim (Bool-cases (g.watches w)) [
  | inl on ↦ rw on (
      keep_fix-IsSound (read_position position now date) g (read_position-IsValid position now date)
        v)
  | inr off ↦ rw off v
]
handle-IsSound (ticks now) g v = tick-IsSound now g v

run-from-IsSound : (es : List Event) (g : Tracker) → IsSound g → IsSound (run es g)
unfolding run
run-from-IsSound [] g v = v
run-from-IsSound (e ∷ es) g v = run-from-IsSound es (handle e g) (handle-IsSound e g v)

-- After any calls of `start`, `stop`, `setMode` and `tick` and any positions, valid or not, from the
-- running watches: at most one watch runs, the one that `stop` would clear; the last two fixes, the
-- ends of the transition and the displayed fix lie on the globe, with a heading from 0 up to 360
-- degrees where they have one; and a transition takes from 250 to 2000 ms.
pub run-IsSound :
    (mode : Mode) (ema : Alpha) (stale : ℕ) (supported : Bool) (es : List Event)
    → ema.num ≤ ema.den
    → IsSound (run es (new mode ema stale supported))
unfolding new
run-IsSound mode ema stale supported es h =
    run-from-IsSound es (new mode ema stale supported) (record {
      watch = λ w. ground arith;
      last = tt;
      prev = tt;
      transition = tt;
      ema = h;
      display = tt;
      unsupported = λ w h. refl;
    })

-- The fix that `tick` returns.
tick_at-Every :
    (last : Option Fix) (now : ℕ) (g : Tracker)
    → Every IsValid last
    → IsSound g
    → Every IsValid (tick_at last now g).1.fix
unfolding tick_at
tick_at-Every none now g h v = tt
tick_at-Every (some last) now g h v =
    smooth_fix-IsValid g.display_fix (target g.mode now g.transition last) g.ema_alpha v.ema
      v.display (target-IsValid g.mode now g.transition last v.transition h)

pub tick-Every : (now : ℕ) (g : Tracker) → IsSound g → Every IsValid (tick now g).1.fix
unfolding tick
tick-Every now g v = tick_at-Every g.last_fix now g v.last v
