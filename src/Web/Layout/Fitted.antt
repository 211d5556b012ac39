-- ===== src/Web/Layout/Fitted.antt =====
-- client/app.js: the layout after any resizing of the window and any dragging of the bars.
use web_dashboard.Prelude.{
  ℕ, ◌-◌, ◌≤◌, ◌≡◌, refl, ap, sym, max, Bool, true, false, List, [], ◌∷◌, ◌||◌, leb, ◌==◌,
  if◌then◌else◌, ℤ, arith, inl, inr, Bool-cases, ◌-ℤ◌,
}
use web_dashboard.Web.Layout.{
  mobile_breakpoint, whole, Splitter, main, map_roadview, same_bar, Columns, stacked, beside,
  Height, auto, pixels, Layout, min_pct, max_pct, clamp, split_columns, apply_split_layout,
  resize_views, fit_viewport_layout, on_ratio, ratio, on_pointer_move, on_pointer_up,
  on_pointer_down, Event, presses, moves, releases, changes, move_if, release_if, handle, run,
  start, first_pct, unfitted,
}

abbrev Within : Splitter → ℕ → Type 0
Within bar pct = (min_pct bar ≤ pct) × (pct ≤ max_pct bar)

-- The columns for a width and a share, and the height for a window.
abbrev pub columns_for : ℕ → ℕ → Columns
columns_for width pct = if leb width mobile_breakpoint then stacked else beside pct (whole - pct)

abbrev pub height_for : ℕ → ℕ → ℕ → Height
height_for width height topbar =
    if leb width mobile_breakpoint then auto else pixels (max 320 (height - topbar))

pub record IsFitted (l : Layout) : Type 0 where
  pub within : (bar : Splitter) → Within bar (l.split_pct bar)
  pub columns : (bar : Splitter) → l.columns bar ≡ columns_for l.inner_width (l.split_pct bar)
  pub height : l.height ≡ height_for l.inner_width l.inner_height l.topbar_height
  pub resizing : l.resizing ≡ (l.listening main || l.listening map_roadview)

clamp-Within : (bar : Splitter) (value : ℤ) → Within bar (clamp value (min_pct bar) (max_pct bar))
unfolding clamp
clamp-Within main value = (omega arith, omega arith)
clamp-Within map_roadview value = (omega arith, omega arith)

-- A share within the bounds is not changed by a second `clamp`.
split_columns_lem :
    (bar : Splitter) (pct : ℕ) → Within bar pct → split_columns bar pct ≡ beside pct (whole - pct)
unfolding split_columns clamp
split_columns_lem main pct w = ap (λ p. beside p (whole - p)) (omega (arith, w.0, w.1))
split_columns_lem map_roadview pct w = ap (λ p. beside p (whole - p)) (omega (arith, w.0, w.1))

apply_split_layout-IsFitted :
    (l : Layout)
    → ((bar : Splitter) → Within bar (l.split_pct bar))
    → l.height ≡ height_for l.inner_width l.inner_height l.topbar_height
    → l.resizing ≡ (l.listening main || l.listening map_roadview)
    → IsFitted (resize_views (apply_split_layout l))
unfolding apply_split_layout resize_views
apply_split_layout-IsFitted l within height resizing = record {
  within = within;
  columns = λ bar.
      ap (λ c. if leb l.inner_width mobile_breakpoint then stacked else c)
        (split_columns_lem bar (l.split_pct bar) (within bar));
  height = height;
  resizing = resizing;
}

set_Within :
    (bar b : Splitter) (value : ℕ) (f : Splitter → ℕ)
    → Within bar value
    → ((c : Splitter) → Within c (f c))
    → Within b (if same_bar bar b then value else f b)
set_Within main main value f v h = v
set_Within main map_roadview value f v h = h map_roadview
set_Within map_roadview main value f v h = h main
set_Within map_roadview map_roadview value f v h = v

on_pointer_move-IsFitted :
    (bar : Splitter) (x left : ℤ) (width : ℕ) (l : Layout)
    → IsFitted l
    → IsFitted (on_pointer_move bar x left width l)
unfolding on_pointer_move on_ratio
on_pointer_move-IsFitted bar x left width l h = elim (Bool-cases (width == 0)) [
  | inl empty ↦ rw empty h
  | inr some_width ↦
      let value = clamp (ratio (x -ℤ left) width) (min_pct bar) (max_pct bar) in
      rw some_width (
        apply_split_layout-IsFitted
          (record l { split_pct = λ b. if same_bar bar b then value else l.split_pct b })
          (λ b.
            set_Within bar b value l.split_pct (clamp-Within bar (ratio (x -ℤ left) width))
              h.within)
          h.height h.resizing)
]

move_if-IsFitted :
    (b : Bool) (bar : Splitter) (x : ℤ) (rect : ℤ × ℕ) (l : Layout)
    → IsFitted l
    → IsFitted (move_if b bar x rect l)
unfolding move_if
move_if-IsFitted true bar x rect l h = on_pointer_move-IsFitted bar x rect.0 rect.1 l h
move_if-IsFitted false bar x rect l h = h

-- The two listeners of a release, for what each finds.
releases-IsFitted :
    (a b : Bool) (l : Layout)
    → l.listening main ≡ a
    → l.listening map_roadview ≡ b
    → IsFitted l
    → IsFitted (release_if b map_roadview (release_if a main l))
unfolding release_if on_pointer_up
releases-IsFitted true true l e f h = record {
  within = h.within;
  columns = h.columns;
  height = h.height;
  resizing = refl;
}
releases-IsFitted true false l e f h = record {
  within = h.within;
  columns = h.columns;
  height = h.height;
  resizing = sym f;
}
releases-IsFitted false true l e f h = record {
  within = h.within;
  columns = h.columns;
  height = h.height;
  resizing = ap (λ a. a || false) (sym e);
}
releases-IsFitted false false l e f h = h

either_true : (a : Bool) → true ≡ (a || true)
either_true true = refl
either_true false = refl

on_pointer_down-IsFitted :
    (bar : Splitter) (l : Layout) → IsFitted l → IsFitted (on_pointer_down bar l)
unfolding on_pointer_down
on_pointer_down-IsFitted main l h = elim (Bool-cases (leb l.inner_width mobile_breakpoint)) [
  | inl narrow ↦ rw narrow h
  | inr wide ↦
      rw wide
        (record { within = h.within; columns = h.columns; height = h.height; resizing = refl })
]
on_pointer_down-IsFitted map_roadview l h =
    elim (Bool-cases (leb l.inner_width mobile_breakpoint)) [
      | inl narrow ↦ rw narrow h
      | inr wide ↦ rw wide (record {
        within = h.within;
        columns = h.columns;
        height = h.height;
        resizing = either_true (l.listening main);
      })
    ]

fit_viewport_layout-IsFitted :
    (l : Layout)
    → ((bar : Splitter) → Within bar (l.split_pct bar))
    → l.resizing ≡ (l.listening main || l.listening map_roadview)
    → IsFitted (fit_viewport_layout l)
unfolding fit_viewport_layout
fit_viewport_layout-IsFitted l within resizing =
    apply_split_layout-IsFitted
      (record l { height = height_for l.inner_width l.inner_height l.topbar_height }) within refl
      resizing

handle-IsFitted : (e : Event) (l : Layout) → IsFitted l → IsFitted (handle e l)
unfolding handle
handle-IsFitted (presses bar) l h = on_pointer_down-IsFitted bar l h
handle-IsFitted (moves x rect) l h =
    let l' = move_if (l.listening main) main x (rect main) l in
    move_if-IsFitted (l.listening map_roadview) map_roadview x (rect map_roadview) l'
      (move_if-IsFitted (l.listening main) main x (rect main) l h)
handle-IsFitted releases l h =
    releases-IsFitted (l.listening main) (l.listening map_roadview) l refl refl h
handle-IsFitted (changes width height topbar) l h =
    fit_viewport_layout-IsFitted
      (record l { inner_width = width; inner_height = height; topbar_height = topbar }) h.within
      h.resizing

first-Within : (bar : Splitter) → Within bar (first_pct bar)
first-Within main = (omega arith, omega arith)
first-Within map_roadview = (omega arith, omega arith)

run_from-IsFitted : (es : List Event) (l : Layout) → IsFitted l → IsFitted (run es l)
unfolding run
run_from-IsFitted [] l h = h
run_from-IsFitted (e ∷ es) l h = run_from-IsFitted es (handle e l) (handle-IsFitted e l h)

-- After any resizing of the window and any dragging of the two bars: each bar's share is within its
-- bounds; the columns are stacked in a window of at most 860 pixels, and the share and its rest
-- otherwise; the height is that of the window without the top bar, at least 320, or `auto`; and the
-- body has the class `resizing` just while a bar is dragged.
pub run-IsFitted :
    (es : List Event) (width height topbar : ℕ) → IsFitted (run es (start width height topbar))
unfolding start
run-IsFitted es width height topbar =
    run_from-IsFitted es (start width height topbar)
      (fit_viewport_layout-IsFitted (unfitted width height topbar) first-Within refl)
