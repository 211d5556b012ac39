-- ===== src/Web/Blend/Between.antt =====
-- client/gps.js: a blend of two numbers lies between them, and a blend of two fixes is a fix.
use native.Mathlib.Nat.{div-le_of_le-mul, mul-le-mul_right, mul_comm}
use web_dashboard.Prelude.{
  ℕ, suc, ◌+◌, ◌-◌, ◌*◌, ◌/◌, ◌≤◌, subst, Option, none, some, ℤ, pos, negsuc, abs_ℕ, pos_part,
  neg_part, ◌+ℤ◌, ◌-ℤ◌, scale, rem, arith,
}
use web_dashboard.Web.Geo.{degree, turn, normalize_heading}
use web_dashboard.Web.Geo.Angles.{
  IsHeading, wrapped-IsHeading, SameDirection, wrapped-SameDirection,
}
use web_dashboard.Web.Blend.{Alpha, Fix, lerp, lerp_fix, smooth_fix, lerp_heading, blend_hdg}

part_le : (m n d : ℕ) → n ≤ d → m * n / d ≤ m
part_le m n d h = div-le_of_le-mul d (subst (λ x. x ≤ d * m) (mul_comm n m) (mul-le-mul_right m h))

scale-pos : (x : ℤ) (n d : ℕ) → n ≤ d → pos_part (scale x n d) ≤ pos_part x
scale-pos (pos m) n d h = part_le m n d h
scale-pos (negsuc m) n d h = ground arith

scale-neg : (x : ℤ) (n d : ℕ) → n ≤ d → neg_part (scale x n d) ≤ neg_part x
scale-neg (pos m) n d h = ground arith
scale-neg (negsuc m) n d h = ground (arith, part_le (suc m) n d h)

-- `a` and a part of the way from `a` to `b`.
add_part-abs_ℕ :
    (a b s : ℤ) (m : ℕ)
    → pos_part s ≤ pos_part (b -ℤ a)
    → neg_part s ≤ neg_part (b -ℤ a)
    → abs_ℕ a ≤ m
    → abs_ℕ b ≤ m
    → abs_ℕ (a +ℤ s) ≤ m
add_part-abs_ℕ (pos a) (pos b) (pos s) m p n ha hb = ground arith
add_part-abs_ℕ (pos a) (pos b) (negsuc s) m p n ha hb = ground arith
add_part-abs_ℕ (pos a) (negsuc b) (pos s) m p n ha hb = ground arith
add_part-abs_ℕ (pos a) (negsuc b) (negsuc s) m p n ha hb = ground arith
add_part-abs_ℕ (negsuc a) (pos b) (pos s) m p n ha hb = ground arith
add_part-abs_ℕ (negsuc a) (pos b) (negsuc s) m p n ha hb = ground arith
add_part-abs_ℕ (negsuc a) (negsuc b) (pos s) m p n ha hb = ground arith
add_part-abs_ℕ (negsuc a) (negsuc b) (negsuc s) m p n ha hb = ground arith

-- Two numbers no further than `m` from nought, and their blend.
pub lerp-abs_ℕ :
    (a b : ℤ) (alpha : Alpha) (m : ℕ)
    → alpha.num ≤ alpha.den
    → abs_ℕ a ≤ m
    → abs_ℕ b ≤ m
    → abs_ℕ (lerp a b alpha) ≤ m
unfolding lerp
lerp-abs_ℕ a b alpha m h ha hb =
    add_part-abs_ℕ a b (scale (b -ℤ a) alpha.num alpha.den) m
      (scale-pos (b -ℤ a) alpha.num alpha.den h) (scale-neg (b -ℤ a) alpha.num alpha.den h) ha hb

-- `P` holds of the value, if there is one.
abbrev pub Every {ℓ κ} : {A : Type ℓ} → (A → Type κ) → Option A → Type κ
Every P none = Unit
Every P (some a) = P a

-- A point on the globe, with a heading below a full turn where there is one.
pub record IsValid (f : Fix) : Type 0 where
  pub lat : abs_ℕ f.at.lat ≤ 90 * degree
  pub lon : abs_ℕ f.at.lon ≤ 180 * degree
  pub hdg : Every IsHeading f.hdg

-- The turn from one heading to another that `lerpHeading` takes a part of, and where that leads.
abbrev pub delta : ℤ → ℤ → ℤ
delta a b = rem (b -ℤ a +ℤ pos (540 * degree)) turn -ℤ pos (180 * degree)

abbrev pub turned : ℤ → ℤ → Alpha → ℤ
turned a b alpha = a +ℤ scale (delta a b) alpha.num alpha.den

pub blend_hdg-IsHeading :
    (a b : Option ℤ) (alpha : Alpha)
    → Every IsHeading a
    → Every IsHeading b
    → Every IsHeading (blend_hdg a b alpha)
unfolding blend_hdg lerp_heading normalize_heading
blend_hdg-IsHeading none b alpha ha hb = hb
blend_hdg-IsHeading (some a) none alpha ha hb = tt
blend_hdg-IsHeading (some a) (some b) alpha ha hb = wrapped-IsHeading (turned a b alpha)

pub lerp_fix-IsValid :
    (from to : Fix) (alpha : Alpha)
    → alpha.num ≤ alpha.den
    → IsValid from
    → IsValid to
    → IsValid (lerp_fix from to alpha)
unfolding lerp_fix
lerp_fix-IsValid from to alpha h f t = record {
  lat = lerp-abs_ℕ from.at.lat to.at.lat alpha (90 * degree) h f.lat t.lat;
  lon = lerp-abs_ℕ from.at.lon to.at.lon alpha (180 * degree) h f.lon t.lon;
  hdg = blend_hdg-IsHeading from.hdg to.hdg alpha f.hdg t.hdg;
}

pub smooth_fix-IsValid :
    (current : Option Fix) (to : Fix) (alpha : Alpha)
    → alpha.num ≤ alpha.den
    → Every IsValid current
    → IsValid to
    → IsValid (smooth_fix current to alpha)
unfolding smooth_fix
smooth_fix-IsValid none to alpha h c t = t
smooth_fix-IsValid (some current) to alpha h c t = lerp_fix-IsValid current to alpha h c t

-- Between two headings, the blend goes the short way round: it takes a part of a turn of at most 180
-- degrees that ends in the direction of the second, and the result is a heading again.
pub lerp_heading_lem :
    (a b : ℤ) (alpha : Alpha)
    → IsHeading a
    → IsHeading b
    → (abs_ℕ (delta a b) ≤ 180 * degree)
      × SameDirection (a +ℤ delta a b) b
      × Every IsHeading (lerp_heading a b alpha)
      × Every (λ h. SameDirection h (turned a b alpha)) (lerp_heading a b alpha)
unfolding lerp_heading normalize_heading
lerp_heading_lem (pos a) (pos b) alpha ha hb = (
  ground arith,
  record { up = (b + 540 * degree - a) / turn; down = 1; turns = ground arith },
  wrapped-IsHeading (turned (pos a) (pos b) alpha),
  wrapped-SameDirection (turned (pos a) (pos b) alpha),
)
lerp_heading_lem (pos a) (negsuc b) alpha ha hb = ground arith
lerp_heading_lem (negsuc a) b alpha ha hb = ground arith
