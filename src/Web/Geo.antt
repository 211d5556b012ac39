-- ===== src/Web/Geo.antt =====
-- Positions and headings in the browser's code: client/gps.js, naver-map.js and naver-roadview.js.
-- A coordinate or an angle is a whole number of millionths of a degree, where the code has a double;
-- `none` is a value that `Number.isFinite` rejects, or a missing one.
pub mod Angles
use web_dashboard.Prelude.{
  ℕ, ◌*◌, Bool, true, false, Option, none, some, ◌&&◌, leb, if◌then◌else◌, ℤ, pos, abs_ℕ, ltb_ℤ,
  ◌+ℤ◌, ◌-ℤ◌, rem,
}

-- A degree.
abbrev pub degree : ℕ
degree = 1_000_000

abbrev pub turn : ℕ
turn = 360 * degree

pub record Point : Type 0 where
  pub lat : ℤ
  pub lon : ℤ

pub record GpsFix : Type 0 where
  pub lat : Option ℤ
  pub lon : Option ℤ
  pub hdg : Option ℤ
  pub acc : Option ℕ

-- `hasValidLatLon`, `hasLatLon` and `isValidLatLon`, with the point that they let through.
unfoldable pub valid_point : Option GpsFix → Option Point
valid_point none = none
valid_point (some fix) = elim fix.lat [
  | none ↦ none
  | some lat ↦ elim fix.lon [
    | none ↦ none
    | some lon ↦
        if leb (abs_ℕ lat) (90 * degree) && leb (abs_ℕ lon) (180 * degree)
        then some (record { lat = lat; lon = lon })
        else none
  ]
]

-- `normalizePan`.
unfoldable pub normalize_pan : Option ℤ → ℤ
normalize_pan none = pos 0
normalize_pan (some heading) =
    let pan = rem heading turn in
    let pan' = if ltb_ℤ (pos (180 * degree)) pan then pan -ℤ pos turn else pan in
    if ltb_ℤ pan' (pos 0 -ℤ pos (180 * degree)) then pan' +ℤ pos turn else pan'

-- `normalizeHeading`.
unfoldable pub normalize_heading : Option ℤ → Option ℤ
normalize_heading none = none
normalize_heading (some deg) = some (rem (rem deg turn +ℤ pos turn) turn)
