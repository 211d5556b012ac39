-- ===== src/Web/Map.antt =====
-- client/naver-map.js: `NaverMap`, the trail of the fixes and what it shows of a fix.
pub mod Trail
mod Tests
use text.Mathlib.Text.{◌==◌ as str_eq}
use web_dashboard.Prelude.{
  String, zero, ℕ, suc, ◌+◌, ◌*◌, max, Bool, true, false, not, Option, none, some, List, [], ◌∷◌,
  ◌++◌, ◌&&◌, ltb, length, drop, if◌then◌else◌, ℤ, ◌-ℤ◌, abs_ℕ,
}
use web_dashboard.Web.Geo.{Point, GpsFix, valid_point}

-- What the last `updateFromFix` did with the view.
pub data Camera : Type 0 where
  untouched : Camera
  centred : Point → ℕ → Camera
  panned : Point → Camera

-- `failed_init` is the failure with its message.
pub data Hint : Type 0 where
  auth_failure delayed tracking no_client_id map_ready : Hint
  failed_init : String → Hint

-- The line from the marker: in the direction of the heading, faint for a stale fix, or without one.
pub data HeadingLine : Type 0 where
  towards : ℤ → Bool → HeadingLine
  no_heading : HeadingLine

-- A marker of `addMark`, with the note in its title and whether its info window is open.
pub record Mark : Type 0 where
  pub at : Point
  pub note : String
  pub info : Bool

-- The fields, and what is drawn: the marker's place the accuracy's radius in millimetres,
-- the marks, and how often the map was resized.
pub record NaverMap : Type 0 where
  pub ready : Bool
  pub default_zoom : ℕ
  pub trail_limit : ℕ
  pub trail : List Point
  pub last_trail_point : Option Point
  pub auth_failed : Bool
  pub marker : Option Point
  pub radius : Option ℕ
  pub heading_line : Option HeadingLine
  pub trail_path : List Point
  pub camera : Camera
  pub hint : Option Hint
  pub marks : List Mark
  pub resized : ℕ

-- The fields after `init`, with the map where it succeeded.
unfoldable pub new : Bool → ℕ → ℕ → NaverMap
new ready zoom limit = record {
  ready = ready;
  default_zoom = zoom;
  trail_limit = limit;
  trail = [];
  last_trail_point = none;
  auth_failed = false;
  marker = none;
  radius = none;
  heading_line = none;
  trail_path = [];
  camera = untouched;
  hint = none;
  marks = [];
  resized = 0;
}

-- Less than two millionths of a degree from the last point, either way.
abbrev pub is_near : Option Point → Point → Bool
is_near none p = false
is_near (some q) p = ltb (abs_ℕ (p.lat -ℤ q.lat)) 2 && ltb (abs_ℕ (p.lon -ℤ q.lon)) 2

-- `push`, and `shift` when that is one too many.
abbrev pub push_shift : ℕ → List Point → Point → List Point
push_shift limit trail p =
    let grown = trail ++ p ∷ [] in if ltb limit (length grown) then drop 1 grown else grown

unfoldable pub push_trail : Point → NaverMap → NaverMap
push_trail p m =
    if is_near m.last_trail_point p
    then m
    else record m { trail = push_shift m.trail_limit m.trail p; last_trail_point = some p }

abbrev pub accuracy : Option ℕ → ℕ
accuracy none = 5000
accuracy (some acc) = max 3000 acc

abbrev pub line_to : Option ℤ → Bool → HeadingLine
line_to none stale = no_heading
line_to (some heading) stale = towards heading stale

-- `updateFromFix` behind its guard.
unfoldable pub show : Point → GpsFix → Bool → NaverMap → NaverMap
unfolding push_trail
show p fix stale m =
    let m' = push_trail p m in
    record m' {
      marker = some p;
      radius = some (accuracy fix.acc);
      heading_line = some (line_to fix.hdg stale);
      trail_path = m'.trail;
      camera =
          if ltb (length m'.trail) 3
          then centred p m.default_zoom
          else if stale
          then m.camera
          else panned p;
      hint = if m.auth_failed then m.hint else some (if stale then delayed else tracking);
    }

abbrev pub show_valid : Option Point → GpsFix → Bool → NaverMap → NaverMap
show_valid none fix stale m = m
show_valid (some p) fix stale m = if m.ready then show p fix stale m else m

unfoldable pub update_from_fix : Option GpsFix → Bool → NaverMap → NaverMap
unfolding show
update_from_fix none stale m = m
update_from_fix (some fix) stale m = show_valid (valid_point (some fix)) fix stale m

-- The watch for a failed authentication, when it finds one.
unfoldable pub fail_auth : NaverMap → NaverMap
fail_auth m = record m { auth_failed = true; hint = some auth_failure }

unfoldable pub update_all : List (Option GpsFix × Bool) → NaverMap → NaverMap
unfolding update_from_fix
update_all [] m = m
update_all ((fix, stale) ∷ rest) m = update_all rest (update_from_fix fix stale m)

abbrev pub add_mark_at : Option Point → String → NaverMap → NaverMap
add_mark_at none note m = m
add_mark_at (some p) note m =
    if m.ready
    then record m {
      marks = m.marks ++ record { at = p; note = note; info = not (str_eq note "") } ∷ [];
    }
    else m

-- `addMark`.
unfoldable pub add_mark : Option GpsFix → String → NaverMap → NaverMap
unfolding valid_point
add_mark fix note m = add_mark_at (valid_point fix) note m

abbrev pub close_at : ℕ → List Mark → List Mark
close_at k [] = []
close_at zero (x ∷ xs) = record x { info = false } ∷ xs
close_at (suc k) (x ∷ xs) = x ∷ close_at k xs

-- The timeout of the info window of the mark `k`.
unfoldable pub close_info : ℕ → NaverMap → NaverMap
close_info k m = record m { marks = close_at k m.marks }

-- `resize`; a map that is there was made by a service that has `Event`.
unfoldable pub resize : NaverMap → NaverMap
resize m = if m.ready then record m { resized = suc m.resized } else m
