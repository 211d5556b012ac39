-- ===== src/Web/Gps/Accuracy.antt =====
-- client/gps.js: a fix without an accuracy.
use web_dashboard.Prelude.{◌≡◌, refl, ap, ℕ, Option, none, some, Bool}
use web_dashboard.Web.Blend.{Alpha, Fix, lerp_fix, smooth_fix, blend_acc}
use web_dashboard.Web.Gps.{
  Mode, hold, lerp, Position, new, read_position, on_position, target, tick_at, tick,
}

blend_acc-none : (a b : Option ℕ) (alpha : Alpha) → a ≡ none → b ≡ none → blend_acc a b alpha ≡ 0
unfolding blend_acc
blend_acc-none a b alpha ea eb = rw (ea, eb) refl

-- When the first position that a tracker keeps has no accuracy, the next `tick` returns a fix with the
-- accuracy 0, in both modes.
pub unknown_accuracy :
    (mode : Mode) (ema : Alpha) (stale now date later : ℕ) (supported : Bool) (position : Position)
    (f : Fix)
    → read_position position now date ≡ some f
    → f.acc ≡ none
    → (shown : Fix) × ((tick later
          (on_position position now date (new mode ema stale supported))).1.fix
        ≡ some shown)
      × (shown.acc ≡ some 0)
unfolding on_position tick tick_at new target smooth_fix lerp_fix
unknown_accuracy hold ema stale now date later supported position f made missing =
    (lerp_fix f f ema, rw made refl, ap some (blend_acc-none f.acc f.acc ema missing missing))
unknown_accuracy lerp ema stale now date later supported position f made missing =
    (lerp_fix f f ema, rw made refl, ap some (blend_acc-none f.acc f.acc ema missing missing))
