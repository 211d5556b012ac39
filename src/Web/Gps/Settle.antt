-- ===== src/Web/Gps/Settle.antt =====
-- client/gps.js: in the mode `hold` the displayed fix comes to the last one.
use web_dashboard.Prelude.{
  ℕ, zero, suc, ◌+◌, ◌-◌, ◌/◌, ◌≤◌, ◌≡◌, refl, some, List, [], ◌∷◌, ℤ, pos, negsuc, pos_part,
  neg_part, abs_ℕ, ◌+ℤ◌, ◌-ℤ◌, scale, arith, length,
}
use web_dashboard.Web.Blend.{Alpha, Fix, lerp, lerp_fix, smooth_fix}
use web_dashboard.Web.Gps.{hold, Tracker, target, tick_at, tick, Event, ticks, handle, run}

-- The page's `emaAlpha`, 0.25.
abbrev pub quarter : Alpha
quarter = record { num = 1; den = 4 }

scale-quarter :
    (x : ℤ) → (pos_part (scale x 1 4) ≡ pos_part x / 4) × (neg_part (scale x 1 4) ≡ neg_part x / 4)
scale-quarter (pos n) = (omega arith, omega arith)
scale-quarter (negsuc n) = (ground arith, ground arith)

-- The parts of a step that is a quarter of the way from `a` to `b`.
left_over :
    (a b s : ℤ)
    → pos_part s ≡ pos_part (b -ℤ a) / 4
    → neg_part s ≡ neg_part (b -ℤ a) / 4
    → abs_ℕ (b -ℤ (a +ℤ s)) ≡ abs_ℕ (b -ℤ a) - abs_ℕ (b -ℤ a) / 4
left_over (pos a) (pos b) (pos s) p n = ground arith
left_over (pos a) (pos b) (negsuc s) p n = ground arith
left_over (pos a) (negsuc b) (pos s) p n = ground arith
left_over (pos a) (negsuc b) (negsuc s) p n = ground arith
left_over (negsuc a) (pos b) (pos s) p n = ground arith
left_over (negsuc a) (pos b) (negsuc s) p n = ground arith
left_over (negsuc a) (negsuc b) (pos s) p n = ground arith
left_over (negsuc a) (negsuc b) (negsuc s) p n = ground arith

-- A quarter of the way leaves three quarters, rounded up.
lerp-closer : (a b : ℤ) → abs_ℕ (b -ℤ lerp a b quarter) ≡ abs_ℕ (b -ℤ a) - abs_ℕ (b -ℤ a) / 4
unfolding lerp
lerp-closer a b = let s = scale-quarter (b -ℤ a) in left_over a b (scale (b -ℤ a) 1 4) (s.0) (s.1)

-- Both coordinates within `k` of those of `f`.
pub record Near (k : ℕ) (f : Fix) (c : Fix) : Type 0 where
  pub lat : abs_ℕ (f.at.lat -ℤ c.at.lat) ≤ k
  pub lon : abs_ℕ (f.at.lon -ℤ c.at.lon) ≤ k

smooth_fix-Near :
    (k k' : ℕ) (c f : Fix) → k - k / 4 ≤ k' → Near k f c → Near k' f (smooth_fix (some c) f quarter)
unfolding smooth_fix lerp_fix
smooth_fix-Near k k' c f h n = record {
  lat = omega (arith, lerp-closer c.at.lat f.at.lat, n.lat);
  lon = omega (arith, lerp-closer c.at.lon f.at.lon, n.lon);
}

-- A tracker in the mode `hold` that has the last fix `f` and displays one within `k` of it.
pub record Holds (k : ℕ) (f : Fix) (g : Tracker) : Type 0 where
  pub mode : g.mode ≡ hold
  pub ema : g.ema_alpha ≡ quarter
  pub last : g.last_fix ≡ some f
  pub shown : Fix
  pub display : g.display_fix ≡ some shown
  pub near : Near k f shown

tick-Holds :
    (k k' now : ℕ) (f : Fix) (g : Tracker)
    → k - k / 4 ≤ k'
    → Holds k f g
    → Holds k' f (tick now g).0
unfolding tick tick_at target
tick-Holds k k' now f g h v =
    let steps : (tick now g).0.display_fix ≡ some (smooth_fix (some v.shown) f quarter) =
      rw (v.last, v.mode, v.display, v.ema) refl in
    record {
      mode = rw (v.last) v.mode;
      ema = rw (v.last) v.ema;
      last = rw (v.last) refl;
      shown = smooth_fix (some v.shown) f quarter;
      display = steps;
      near = smooth_fix-Near k k' v.shown f h v.near;
    }

abbrev pub all_ticks : List ℕ → List Event
all_ticks [] = []
all_ticks (now ∷ nows) = ticks now ∷ all_ticks nows

-- In the mode `hold`, with the page's `emaAlpha` and no new position: when the displayed place is at
-- most `k + 3` millionths of a degree from the last fix, either way, then after `k` ticks or more it
-- is at most 3 from it.
pub ticks_settle :
    (k : ℕ) (nows : List ℕ) (f : Fix) (g : Tracker)
    → k ≤ length nows
    → Holds (k + 3) f g
    → Holds 3 f (run (all_ticks nows) g)
unfolding run handle
ticks_settle zero [] f g h v = v
ticks_settle zero (now ∷ nows) f g h v =
    ticks_settle zero nows f (tick now g).0 (omega arith) (tick-Holds 3 3 now f g (omega arith) v)
ticks_settle (suc k) [] f g h v = elim h [ ]
ticks_settle (suc k) (now ∷ nows) f g h v =
    ticks_settle k nows f (tick now g).0 (omega arith)
      (tick-Holds (suc k + 3) (k + 3) now f g (omega arith) v)
