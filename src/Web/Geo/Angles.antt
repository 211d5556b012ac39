-- ===== src/Web/Geo/Angles.antt =====
-- The angles of client/naver-roadview.js and client/gps.js stay within a turn and keep their direction.
use web_dashboard.Prelude.{
  ℕ, suc, ◌+◌, ◌*◌, ◌/◌, ◌%◌, ◌≤◌, ◌≡◌, some, ℤ, pos, negsuc, abs_ℕ, pos_part, neg_part, ltb,
  if◌then◌else◌, arith,
}
use web_dashboard.Prelude.{◌+ℤ◌, rem, ◌<◌}
use web_dashboard.Web.Geo.{degree, turn, normalize_pan}

-- Two angles that differ by a whole number of turns.
pub record SameDirection (a b : ℤ) : Type 0 where
  pub up : ℕ
  pub down : ℕ
  pub turns : pos_part a + neg_part b + up * turn ≡ pos_part b + neg_part a + down * turn

pan_range : (h : ℤ) → abs_ℕ (normalize_pan (some h)) ≤ 180 * degree
unfolding normalize_pan
pan_range (pos n) = ground arith
pan_range (negsuc n) = ground arith

pan-SameDirection : (h : ℤ) → SameDirection (normalize_pan (some h)) h
unfolding normalize_pan
pan-SameDirection (pos n) = record {
  up = if ltb (180 * degree) (n % turn) then n / turn + 1 else n / turn;
  down = 0;
  turns = ground arith;
}
pan-SameDirection (negsuc n) = record {
  up = 0;
  down = if ltb (180 * degree) (suc n % turn) then suc n / turn + 1 else suc n / turn;
  turns = ground arith;
}

-- `normalizePan` gives the same direction within half a turn either way.
pub normalize_pan_lem :
    (h : ℤ)
    → abs_ℕ (normalize_pan (some h)) ≤ 180 * degree × SameDirection (normalize_pan (some h)) h
normalize_pan_lem h = (pan_range h, pan-SameDirection h)

-- From north up to a full turn, without it.
abbrev pub IsHeading : ℤ → Type 0
IsHeading h = neg_part h ≡ 0 × pos_part h < turn

-- `(deg % 360 + 360) % 360`.
abbrev pub wrapped : ℤ → ℤ
wrapped d = rem (rem d turn +ℤ pos turn) turn

pub wrapped-IsHeading : (d : ℤ) → IsHeading (wrapped d)
wrapped-IsHeading (pos n) = (ground arith, ground arith)
wrapped-IsHeading (negsuc n) = (ground arith, ground arith)

pub wrapped-SameDirection : (d : ℤ) → SameDirection (wrapped d) d
wrapped-SameDirection (pos n) = record { up = n / turn; down = 0; turns = ground arith }
wrapped-SameDirection (negsuc n) = record { up = 0; down = n / turn + 1; turns = ground arith }
