-- ===== src/Web/Charts/Canvas/Tests.antt =====
-- Drawings of client/charts.js.
use web_dashboard.Prelude.{◌≡◌, refl, String, List, [], ◌∷◌, ◌*◌, ℤ, pos, negsuc, All, false}
use web_dashboard.Web.Charts.{
  Chart, new, Step, samples, marks, run, step, add_sample, add_marker, shift_old, drawn_line,
}
use web_dashboard.Prelude.{Option, some}
use web_dashboard.Web.Charts.Canvas.{
  pixel, Style, move_to, line_to, resize_canvas, trace, x_at, y_at, render,
}
use web_dashboard.Web.Charts.Canvas.Inside.{IsInside, render-IsInside}

abbrev style : Style
style = record {
  lines =
      record { key = "yaw"; label = "Yaw"; color = "#76c6ff" }
      ∷ record { key = "ay"; label = "Ay"; color = "#ff7c7c" }
      ∷ [];
  y_min = negsuc 24;
  y_max = pos 25;
  background = "#0f1a24";
  grid_color = "rgba(220,230,245,0.12)";
  marker_color = "#ffab40";
}

abbrev yaw : ℤ → String → Option ℤ
yaw v key = some v

abbrev chart : Chart ℤ
chart = run steps (new 60000 ("yaw" ∷ []))
  where
    steps : List (Step ℤ)
    steps = samples 1000 (yaw (pos 0)) ∷ marks 2000 "MARK" ∷ samples 31000 (yaw (pos 50)) ∷ []

-- A value above the range is drawn above the canvas.
two_points :
    trace style
      (resize_canvas 600_000 200_000 1000)
      60000
      61000
      false
      (drawn_line 61000 "yaw" chart)
    ≡ move_to (pos 0) (pos 100_000) ∷ line_to (pos 300_000) (negsuc 99_999) ∷ []
unfolding trace resize_canvas drawn_line run step add_sample add_marker shift_old new x_at y_at
two_points = refl

render-IsInside_example :
    let canvas = resize_canvas 600_000 200_000 1000 in
    All (IsInside (canvas.width * pixel)) (render (λ label. 20) style canvas 61000 chart)
render-IsInside_example = render-IsInside (λ label. 20) style 600_000 200_000 1000 61000 chart
