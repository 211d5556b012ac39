-- ===== src/Web/Layout/Tests.antt =====
-- Layouts of client/app.js: a drag of one bar in a wide window, which then becomes a narrow one.
use web_dashboard.Prelude.{ℕ, ◌≡◌, refl, List, [], ◌∷◌, ℤ, pos}
use web_dashboard.Web.Layout.{
  Splitter, main, map_roadview, beside, stacked, Event, presses, moves, releases, changes, run,
  start, handle, on_pointer_down, move_if, release_if, fit_viewport_layout, on_pointer_move,
  on_ratio, clamp, on_pointer_up, apply_split_layout, split_columns, resize_views,
}
use web_dashboard.Web.Layout.Fitted.{IsFitted, run-IsFitted}

abbrev rect : Splitter → ℤ × ℕ
rect main = (pos 0, 1000)
rect map_roadview = (pos 400, 600)

abbrev dragged : List Event
dragged =
    moves (pos 100) rect
    ∷ presses map_roadview
    ∷ moves (pos 700) rect
    ∷ moves (pos 900) rect
    ∷ releases
    ∷ moves (pos 650) rect
    ∷ []

abbrev narrowed : List Event
narrowed = presses main ∷ moves (pos 500) rect ∷ changes 800 600 80 ∷ []

at_the_bound : (run dragged (start 1200 900 100)).columns map_roadview ≡ beside 70_000 30_000
unfolding run start handle on_pointer_down move_if release_if fit_viewport_layout on_pointer_move
    on_ratio clamp on_pointer_up apply_split_layout split_columns resize_views
at_the_bound = refl

narrow : (run narrowed (start 1200 900 100)).columns main ≡ stacked
unfolding run start handle on_pointer_down move_if release_if fit_viewport_layout on_pointer_move
    on_ratio clamp on_pointer_up apply_split_layout split_columns resize_views
narrow = refl

run-IsFitted_example : IsFitted (run dragged (start 1200 900 100))
run-IsFitted_example = run-IsFitted dragged 1200 900 100
