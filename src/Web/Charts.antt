-- ===== src/Web/Charts.antt =====
-- client/charts.js: `ScrollingChart`, its samples and its markers, and which of them `render` draws.
-- Times are whole milliseconds; `N` is the type of the finite values.
pub mod Canvas
pub mod Drawn
mod Tests
use text.Mathlib.Text.{◌==◌ as str_eq}
use web_dashboard.Prelude.{
  ℕ, ◌+◌, Bool, true, false, not, Option, none, some, String, List, [], ◌∷◌, ◌++◌, ◌&&◌, ltb, leb,
  length, filter, if◌then◌else◌,
}

-- A sample `{ t, v }`, or a marker `{ t, label }`.
pub record At {ℓ} (V : Type ℓ) : Type ℓ where
  pub t : ℕ
  pub v : V

-- `samples` is the map of the buckets; a key that is not in `series` has none.
pub record Chart {ℓ} (N : Type ℓ) : Type ℓ where
  pub window_ms : ℕ
  pub series : List String
  pub samples : String → List (At N)
  pub markers : List (At String)

unfoldable pub new {ℓ} : {N : Type ℓ} → ℕ → List String → Chart N
new window series = record {
  window_ms = window;
  series = series;
  samples = λ key. [];
  markers = [];
}

-- `x.t < cutoff`, where the cutoff is `window` before `now`.
abbrev pub is_old {ℓ} : {V : Type ℓ} → ℕ → ℕ → At V → Bool
is_old window now x = ltb (x.t + window) now

-- The loops that shift what is old off the front.
unfoldable pub shift_old {ℓ} : {V : Type ℓ} → ℕ → ℕ → List (At V) → List (At V)
shift_old window now [] = []
shift_old window now (x ∷ xs) =
    let rest = shift_old window now xs in if is_old window now x then rest else x ∷ xs

abbrev pub in_series : String → List String → Bool
in_series key [] = false
in_series key (k ∷ ks) = let rest = in_series key ks in if str_eq k key then true else rest

module _ {ℓ} {N : Type ℓ} where
  -- One series of `addSample`: a value that is not finite leaves its bucket alone.
  abbrev pub add_value : ℕ → ℕ → Option N → List (At N) → List (At N)
  add_value window t none bucket = bucket
  add_value window t (some v) bucket = shift_old window t (bucket ++ record { t = t; v = v } ∷ [])

  -- The loop over `series`, at the bucket of one key; the keys of a chart differ.
  unfoldable pub add_sample : ℕ → (String → Option N) → Chart N → Chart N
  unfolding shift_old
  add_sample t sample c = record c {
    samples = λ key.
        if in_series key c.series
        then add_value c.window_ms t (sample key) (c.samples key)
        else c.samples key;
    markers = shift_old c.window_ms t c.markers;
  }

  unfoldable pub add_marker : ℕ → String → Chart N → Chart N
  add_marker t label c = record c { markers = c.markers ++ record { t = t; v = label } ∷ [] }

-- `xMin <= x.t <= xMax`.
abbrev pub is_visible {ℓ} : {V : Type ℓ} → ℕ → ℕ → At V → Bool
is_visible window now x = not (is_old window now x) && leb x.t now

module _ {ℓ} {N : Type ℓ} where
  -- The points of the line that `render` draws for a key, and the markers; their places on the canvas
  -- are linear in the times and the values.
  unfoldable pub drawn_line : ℕ → String → Chart N → List (At N)
  drawn_line now key c =
      if ltb (length (c.samples key)) 2
      then []
      else filter (is_visible c.window_ms now) (c.samples key)

  unfoldable pub drawn_markers : ℕ → Chart N → List (At String)
  drawn_markers now c = filter (is_visible c.window_ms now) c.markers

pub data Step {ℓ} (N : Type ℓ) : Type ℓ where
  samples : ℕ → (String → Option N) → Step N
  marks : ℕ → String → Step N

module _ {ℓ} {N : Type ℓ} where
  unfoldable pub step : Step N → Chart N → Chart N
  unfolding add_sample add_marker
  step (samples t sample) c = add_sample t sample c
  step (marks t label) c = add_marker t label c

  unfoldable pub run : List (Step N) → Chart N → Chart N
  run [] c = c
  run (s ∷ ss) c = run ss (step s c)
