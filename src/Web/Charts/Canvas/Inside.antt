-- ===== src/Web/Charts/Canvas/Inside.antt =====
-- client/charts.js: what `render` draws stays between the left and the right edge of the canvas.
use native.Mathlib.Nat.{div-le_of_le-mul, mul-le-mul_right}
use web_dashboard.Prelude.{
  ℕ, zero, suc, ◌+◌, ◌-◌, ◌*◌, ◌/◌, ◌≤◌, ◌≡◌, Bool, true, false, String, List, [], ◌∷◌, ◌++◌, ltb,
  leb, length, All, All-append, filter-All, if-holds, if◌then◌else◌, ℤ, pos, ◌≤ℤ◌, arith,
}
use web_dashboard.Web.Charts.{At, Chart, is_visible, drawn_line, drawn_markers}
use web_dashboard.Web.Charts.Canvas.{
  pixel, Line, Style, Canvas, Pen, move_to, line_to, Drawing, stroked, filled, written,
  resize_canvas, x_at, trace, draw_lines, draw_markers, grid_vertical, grid_horizontal, draw_grid,
  draw_legend, render,
}

IsPenInside : ℕ → Pen → Type 0
IsPenInside right (move_to x y) = (pos 0 ≤ℤ x) × (x ≤ℤ pos right)
IsPenInside right (line_to x y) = (pos 0 ≤ℤ x) × (x ≤ℤ pos right)

-- A path and a rectangle do not leave the canvas to either side, and a text begins on it.
unfoldable pub IsInside : ℕ → Drawing → Type 0
unfolding IsPenInside
IsInside right (stroked color pens) = All (IsPenInside right) pens
IsInside right (filled color x y w h) = x + w ≤ right
IsInside right (written text x y) = x ≤ right

part_le : (a b d : ℕ) → a ≤ d → a * b / d ≤ b
part_le a b d h = div-le_of_le-mul d (mul-le-mul_right b h)

-- The place of a time in the window is on the canvas.
x_at_between :
    {V : Type 0} (window now w : ℕ) (p : At V)
    → is_visible window now p ≡ true
    → (pos 0 ≤ℤ x_at window now w p.t) × (x_at window now w p.t ≤ℤ pos (w * pixel))
unfolding x_at
x_at_between window now w p h =
    let late : leb now (p.t + window) ≡ true = ground (arith, h) in
    let part = part_le (p.t + window - now) (w * pixel) window (ground (arith, h)) in
    rw late (omega arith, omega (arith, part))

abbrev right : Canvas → ℕ
right canvas = canvas.width * pixel

trace-All :
    (style : Style) (canvas : Canvas) (window now : ℕ) (started : Bool) (ps : List (At ℤ))
    → All (λ p. is_visible window now p ≡ true) ps
    → All (IsPenInside (right canvas)) (trace style canvas window now started ps)
unfolding trace IsPenInside
trace-All style canvas window now started [] h = tt
trace-All style canvas window now true (p ∷ ps) h =
    (x_at_between window now canvas.width p (h.0), trace-All style canvas window now true ps (h.1))
trace-All style canvas window now false (p ∷ ps) h =
    (x_at_between window now canvas.width p (h.0), trace-All style canvas window now true ps (h.1))

drawn_line-All :
    (now : ℕ) (key : String) (c : Chart ℤ)
    → All (λ p. is_visible c.window_ms now p ≡ true) (drawn_line now key c)
unfolding drawn_line
drawn_line-All now key c =
    if-holds (All (λ p. is_visible c.window_ms now p ≡ true)) (ltb (length (c.samples key)) 2) [] _
      tt (filter-All (is_visible c.window_ms now) (c.samples key))

draw_lines-All :
    (style : Style) (canvas : Canvas) (now : ℕ) (c : Chart ℤ) (lines : List Line)
    → All (IsInside (right canvas)) (draw_lines style canvas now c lines)
unfolding draw_lines IsInside
draw_lines-All style canvas now c [] = tt
draw_lines-All style canvas now c (line ∷ lines) =
    let rest = draw_lines-All style canvas now c lines in
    if-holds (All (IsInside (right canvas))) (ltb (length (c.samples line.key)) 2) _ _ rest (
      trace-All style canvas c.window_ms now false (drawn_line now line.key c)
          (drawn_line-All now line.key c),
      rest,
    )

draw_markers-All :
    (style : Style) (canvas : Canvas) (window now : ℕ) (ms : List (At String))
    → All (λ m. is_visible window now m ≡ true) ms
    → All (IsInside (right canvas)) (draw_markers style canvas window now ms)
unfolding draw_markers IsInside IsPenInside
draw_markers-All style canvas window now [] h = tt
draw_markers-All style canvas window now (m ∷ ms) h =
    let x = x_at_between window now canvas.width m (h.0) in
    ((x, (x, tt)), draw_markers-All style canvas window now ms (h.1))

grid_vertical-All :
    (style : Style) (canvas : Canvas) (i left : ℕ)
    → i + left ≤ 6
    → All (IsInside (right canvas)) (grid_vertical style canvas i left)
unfolding grid_vertical IsInside IsPenInside
grid_vertical-All style canvas i zero h = tt
grid_vertical-All style canvas i (suc left) h =
    let part = part_le i (right canvas) 6 (omega arith) in
    let at = pos (i * right canvas / 6) in
    let x : (pos 0 ≤ℤ at) × (at ≤ℤ pos (right canvas)) = (omega arith, omega (arith, part)) in
    ((x, (x, tt)), grid_vertical-All style canvas (suc i) left (omega arith))

grid_horizontal-All :
    (style : Style) (canvas : Canvas) (i left : ℕ)
    → All (IsInside (right canvas)) (grid_horizontal style canvas i left)
unfolding grid_horizontal IsInside IsPenInside
grid_horizontal-All style canvas i zero = tt
grid_horizontal-All style canvas i (suc left) = (
  ((omega arith, omega arith), ((omega arith, omega arith), tt)),
  grid_horizontal-All style canvas (suc i) left,
)

draw_grid-All :
    (style : Style) (canvas : Canvas) → All (IsInside (right canvas)) (draw_grid style canvas)
unfolding draw_grid
draw_grid-All style canvas =
    All-append (IsInside (right canvas)) (grid_vertical style canvas 1 5)
      (grid_horizontal style canvas 1 3) (grid_vertical-All style canvas 1 5 (omega arith))
      (grid_horizontal-All style canvas 1 3)

draw_legend-All :
    (measure : String → ℕ) (w x : ℕ) (lines : List Line)
    → 200 ≤ w
    → x ≤ w - 100
    → All (IsInside (w * pixel)) (draw_legend measure w x lines)
unfolding draw_legend IsInside
draw_legend-All measure w x [] wide h = tt
draw_legend-All measure w x (line ∷ lines) wide h =
    let next = x + measure line.label + 38 in
    (
      omega arith,
      (
        omega arith,
        draw_legend-All measure w (if ltb (w - 100) next then 12 else next) lines wide
            (ground arith),
      ),
    )

-- On a canvas of any size that `_resizeCanvas` gives it, `render` draws every path and every box of
-- the legend between the left and the right edge, and begins every text there: no point of a line and
-- no marker lies left of the left edge or right of the right one.
pub render-IsInside :
    (measure : String → ℕ) (style : Style) (rect_width rect_height dpr now : ℕ) (c : Chart ℤ)
    → let canvas = resize_canvas rect_width rect_height dpr in
      All (IsInside (canvas.width * pixel)) (render measure style canvas now c)
unfolding render resize_canvas drawn_markers IsInside
render-IsInside measure style rect_width rect_height dpr now c =
    let canvas = resize_canvas rect_width rect_height dpr in
    let P = IsInside (canvas.width * pixel) in
    let g = draw_grid style canvas in
    let l = draw_lines style canvas now c style.lines in
    let m = draw_markers style canvas c.window_ms now (drawn_markers now c) in
    let k = draw_legend measure canvas.width 12 style.lines in
    let grid = draw_grid-All style canvas in
    let lines = draw_lines-All style canvas now c style.lines in
    let markers =
      draw_markers-All style canvas c.window_ms now (drawn_markers now c)
        (filter-All (is_visible c.window_ms now) c.markers) in
    let legend = draw_legend-All measure canvas.width 12 style.lines (omega arith) (omega arith) in
    (
      omega arith,
      All-append P (g ++ l ++ m) k (All-append P (g ++ l) m (All-append P g l grid lines) markers)
          legend,
    )
