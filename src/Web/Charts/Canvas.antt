-- ===== src/Web/Charts/Canvas.antt =====
-- client/charts.js: what `render` draws on the canvas, in thousandths of a pixel and rounded towards
-- the origin of each axis.
pub mod Inside
mod Tests
use web_dashboard.Prelude.{
  ℕ, zero, suc, ◌+◌, ◌-◌, ◌*◌, ◌/◌, max, Bool, true, false, Option, none, some, String, List, [],
  ◌∷◌, ◌++◌, ◌==◌, ltb, length, if◌then◌else◌, ℤ, pos, ◌-ℤ◌, sub_ℕ, scale, pos_part,
}
use web_dashboard.Web.Charts.{At, Chart, drawn_line, drawn_markers}

abbrev pub pixel : ℕ
pixel = 1000

-- An element of `series`.
pub record Line : Type 0 where
  pub key : String
  pub label : String
  pub color : String

pub record Style : Type 0 where
  pub lines : List Line
  pub y_min : ℤ
  pub y_max : ℤ
  pub background : String
  pub grid_color : String
  pub marker_color : String

-- `canvas.width` and `canvas.height`, in pixels.
pub record Canvas : Type 0 where
  pub width : ℕ
  pub height : ℕ

-- `moveTo` and `lineTo`.
pub data Pen : Type 0 where
  move_to line_to : ℤ → ℤ → Pen

-- A stroked path with its colour, a filled rectangle, and a text.
pub data Drawing : Type 0 where
  stroked : String → List Pen → Drawing
  filled : String → ℕ → ℕ → ℕ → ℕ → Drawing
  written : String → ℕ → ℕ → Drawing

-- `_resizeCanvas`, for the size of the element in thousandths of a pixel and `devicePixelRatio` in
-- thousandths.
abbrev pub ratio_or_one : ℕ → ℕ
ratio_or_one dpr = if dpr == 0 then 1000 else dpr

unfoldable pub resize_canvas : ℕ → ℕ → ℕ → Canvas
resize_canvas rect_width rect_height dpr = record {
  width = max 200 (rect_width * ratio_or_one dpr / (pixel * 1000));
  height = max 120 (rect_height * ratio_or_one dpr / (pixel * 1000));
}

-- The place of a time in the window, and of a value between the bounds.
unfoldable pub x_at : ℕ → ℕ → ℕ → ℕ → ℤ
x_at window now w t = scale (sub_ℕ (t + window) now) (w * pixel) window

unfoldable pub y_at : Style → ℕ → ℤ → ℤ
y_at style h v =
    pos (h * pixel) -ℤ scale (v -ℤ style.y_min) (h * pixel) (pos_part (style.y_max -ℤ style.y_min))

-- The loop over the points in the window, with `started`.
abbrev pub pen_to : Bool → ℤ → ℤ → Pen
pen_to false x y = move_to x y
pen_to true x y = line_to x y

unfoldable pub trace : Style → Canvas → ℕ → ℕ → Bool → List (At ℤ) → List Pen
unfolding x_at y_at
trace style canvas window now started [] = []
trace style canvas window now started (p ∷ ps) =
    pen_to started (x_at window now canvas.width p.t) (y_at style canvas.height p.v)
    ∷ trace style canvas window now true ps

unfoldable pub draw_lines : Style → Canvas → ℕ → Chart ℤ → List Line → List Drawing
unfolding drawn_line trace
draw_lines style canvas now c [] = []
draw_lines style canvas now c (line ∷ lines) =
    let rest = draw_lines style canvas now c lines in
    if ltb (length (c.samples line.key)) 2
    then rest
    else stroked line.color (trace style canvas c.window_ms now false (drawn_line now line.key c))
      ∷ rest

abbrev pub vertical_at : ℤ → Canvas → List Pen
vertical_at x canvas = move_to x (pos 0) ∷ line_to x (pos (canvas.height * pixel)) ∷ []

unfoldable pub draw_markers : Style → Canvas → ℕ → ℕ → List (At String) → List Drawing
unfolding x_at
draw_markers style canvas window now [] = []
draw_markers style canvas window now (m ∷ ms) =
    stroked style.marker_color (vertical_at (x_at window now canvas.width m.t) canvas)
    ∷ draw_markers style canvas window now ms

-- `_drawGrid`: the lines from `i` on, as many as are left.
unfoldable pub grid_vertical : Style → Canvas → ℕ → ℕ → List Drawing
grid_vertical style canvas i zero = []
grid_vertical style canvas i (suc left) =
    stroked style.grid_color (vertical_at (pos (i * (canvas.width * pixel) / 6)) canvas)
    ∷ grid_vertical style canvas (suc i) left

unfoldable pub grid_horizontal : Style → Canvas → ℕ → ℕ → List Drawing
grid_horizontal style canvas i zero = []
grid_horizontal style canvas i (suc left) =
    let y = pos (i * (canvas.height * pixel) / 4) in
    stroked style.grid_color (move_to (pos 0) y ∷ line_to (pos (canvas.width * pixel)) y ∷ [])
    ∷ grid_horizontal style canvas (suc i) left

unfoldable pub draw_grid : Style → Canvas → List Drawing
unfolding grid_vertical grid_horizontal
draw_grid style canvas = grid_vertical style canvas 1 5 ++ grid_horizontal style canvas 1 3

-- `_drawLegend`, with its texts in one colour, from the place `x` in pixels on; `measure` is the width that `measureText` finds.
unfoldable pub draw_legend : (String → ℕ) → ℕ → ℕ → List Line → List Drawing
draw_legend measure w x [] = []
draw_legend measure w x (line ∷ lines) =
    let next = x + measure line.label + 38 in
    filled line.color (x * pixel) (10 * pixel) (10 * pixel) (10 * pixel)
    ∷ written line.label ((x + 14) * pixel) (8 * pixel)
    ∷ draw_legend measure w (if ltb (w - 100) next then 12 else next) lines

-- `render`, on the canvas after `_resizeCanvas`.
unfoldable pub render : (String → ℕ) → Style → Canvas → ℕ → Chart ℤ → List Drawing
unfolding draw_grid draw_lines draw_markers draw_legend drawn_markers
render measure style canvas now c =
    filled style.background 0 0 (canvas.width * pixel) (canvas.height * pixel)
      ∷ draw_grid style canvas
    ++ draw_lines style canvas now c style.lines
    ++ draw_markers style canvas c.window_ms now (drawn_markers now c)
    ++ draw_legend measure canvas.width 12 style.lines
