-- ===== src/Web/Blend.antt =====
-- client/gps.js: a fix, and the blends of two fixes that are displayed between them. A blend is
-- rounded towards the first of the two: a place to millionths of a degree, and so on.

pub mod Between
use web_dashboard.Prelude.{
  ℕ, ◌+◌, ◌*◌, Option, none, some, ℤ, pos, pos_part, ◌+ℤ◌, ◌-ℤ◌, rem, scale,
}
use web_dashboard.Web.Geo.{degree, turn, Point, normalize_heading}

-- The speed and the altitude are whole numbers of a unit that the code does not depend on, and so is
-- the accuracy.
pub record Fix : Type 0 where
  pub t_ms : ℕ
  pub recv_ms : ℕ
  pub at : Point
  pub spd : ℤ
  pub hdg : Option ℤ
  pub acc : Option ℕ
  pub alt : Option ℤ

-- A number from 0 to 1.
pub record Alpha : Type 0 where
  pub num : ℕ
  pub den : ℕ

unfoldable pub lerp : ℤ → ℤ → Alpha → ℤ
lerp a b alpha = a +ℤ scale (b -ℤ a) alpha.num alpha.den

-- `lerpHeading` of two headings that are there.
unfoldable pub lerp_heading : ℤ → ℤ → Alpha → Option ℤ
lerp_heading a b alpha =
    let delta = rem (b -ℤ a +ℤ pos (540 * degree)) turn -ℤ pos (180 * degree) in
    normalize_heading (some (a +ℤ scale delta alpha.num alpha.den))

-- The cases of `hdg`.
unfoldable pub blend_hdg : Option ℤ → Option ℤ → Alpha → Option ℤ
unfolding lerp_heading
blend_hdg none target alpha = target
blend_hdg (some a) none alpha = none
blend_hdg (some a) (some b) alpha = lerp_heading a b alpha

-- `lerp(current.acc ?? target.acc ?? 0, target.acc ?? 0, alpha)`.
unfoldable pub blend_acc : Option ℕ → Option ℕ → Alpha → ℕ
unfolding lerp
blend_acc none none alpha = 0
blend_acc none (some b) alpha = pos_part (lerp (pos b) (pos b) alpha)
blend_acc (some a) none alpha = pos_part (lerp (pos a) (pos 0) alpha)
blend_acc (some a) (some b) alpha = pos_part (lerp (pos a) (pos b) alpha)

unfoldable pub blend_alt : Option ℤ → Option ℤ → Alpha → Option ℤ
unfolding lerp
blend_alt none target alpha = target
blend_alt (some a) none alpha = none
blend_alt (some a) (some b) alpha = some (lerp a b alpha)

-- `lerpFix`.
unfoldable pub lerp_fix : Fix → Fix → Alpha → Fix
unfolding lerp blend_hdg blend_acc blend_alt
lerp_fix from to alpha = record to {
  at = record { lat = lerp from.at.lat to.at.lat alpha; lon = lerp from.at.lon to.at.lon alpha };
  spd = lerp from.spd to.spd alpha;
  hdg = blend_hdg from.hdg to.hdg alpha;
  acc = some (blend_acc from.acc to.acc alpha);
  alt = blend_alt from.alt to.alt alpha;
}

-- `smoothFix`, whose second case is the same as `lerpFix`.
unfoldable pub smooth_fix : Option Fix → Fix → Alpha → Fix
unfolding lerp_fix
smooth_fix none target alpha = target
smooth_fix (some current) target alpha = lerp_fix current target alpha
