-- ===== src/Web/Layout.antt =====
-- client/app.js: the sizes of the page's parts, and the two bars between them that can be dragged.
-- A part's share is in thousandths of a percent. The elements of client/index.html are there.
pub mod Fitted
mod Tests
use web_dashboard.Prelude.{
  ℕ, suc, ◌+◌, ◌-◌, ◌*◌, ◌/◌, min, max, Bool, true, false, Option, none, some, List, [], ◌∷◌, ◌||◌,
  leb, ◌==◌, if◌then◌else◌, ℤ, pos, negsuc, pos_part, scale, ◌-ℤ◌,
}

abbrev pub mobile_breakpoint : ℕ
mobile_breakpoint = 860

abbrev pub percent : ℕ
percent = 1000

abbrev pub whole : ℕ
whole = 100 * percent

-- The bar between the charts and the map's side, and the one between the map and the panorama.
pub data Splitter : Type 0 where
  main map_roadview : Splitter

abbrev pub same_bar : Splitter → Splitter → Bool
same_bar main main = true
same_bar map_roadview map_roadview = true
same_bar _ _ = false

-- `gridTemplateColumns`: empty, or the shares left and right of the bar.
pub data Columns : Type 0 where
  stacked : Columns
  beside : ℕ → ℕ → Columns

-- The height of `main`, in pixels.
pub data Height : Type 0 where
  auto : Height
  pixels : ℕ → Height

-- The window, `layoutState`, the styles, the bars whose `pointermove` listener is there, the class
-- `resizing` of the body, and how often the map and the panorama were told to resize.
pub record Layout : Type 0 where
  pub inner_width : ℕ
  pub inner_height : ℕ
  pub topbar_height : ℕ
  pub split_pct : Splitter → ℕ
  pub columns : Splitter → Columns
  pub height : Height
  pub listening : Splitter → Bool
  pub resizing : Bool
  pub resizes : ℕ

-- The bounds of a bar.
abbrev pub min_pct : Splitter → ℕ
min_pct main = 38 * percent
min_pct map_roadview = 30 * percent

abbrev pub max_pct : Splitter → ℕ
max_pct main = 72 * percent
max_pct map_roadview = 70 * percent

-- `Math.max(min, Math.min(max, value))`, for bounds that are not negative.
unfoldable pub clamp : ℤ → ℕ → ℕ → ℕ
clamp value lo hi = max lo (min hi (pos_part value))

-- The columns of a bar, with the `clamp` of `applySplitLayout`.
unfoldable pub split_columns : Splitter → ℕ → Columns
unfolding clamp
split_columns bar pct =
    let left = clamp (pos pct) (min_pct bar) (max_pct bar) in beside left (whole - left)

unfoldable pub apply_split_layout : Layout → Layout
unfolding split_columns
apply_split_layout l = record l {
  columns = λ bar.
      if leb l.inner_width mobile_breakpoint then stacked else split_columns bar (l.split_pct bar);
}

-- `naverMap.resize()` and `roadview.resize()`.
unfoldable pub resize_views : Layout → Layout
resize_views l = record l { resizes = suc l.resizes }

unfoldable pub fit_viewport_layout : Layout → Layout
unfolding apply_split_layout resize_views
fit_viewport_layout l = resize_views (
    apply_split_layout (record l {
      height =
          if leb l.inner_width mobile_breakpoint
          then auto
          else pixels (max 320 (l.inner_height - l.topbar_height));
    }))

-- `onRatio` of a bar.
unfoldable pub on_ratio : Splitter → ℕ → Layout → Layout
unfolding apply_split_layout resize_views
on_ratio bar value l = resize_views (
    apply_split_layout
      (record l { split_pct = λ b. if same_bar bar b then value else l.split_pct b }))

-- `((clientX - left) / width) * 100`, in thousandths and rounded towards zero.
abbrev pub ratio : ℤ → ℕ → ℤ
ratio distance width = scale distance whole width

-- `onPointerMove`, with the place of the pointer and the left edge and the width of the container.
unfoldable pub on_pointer_move : Splitter → ℤ → ℤ → ℕ → Layout → Layout
unfolding clamp on_ratio
on_pointer_move bar client_x left width l =
    if width == 0
    then l
    else on_ratio bar (clamp (ratio (client_x -ℤ left) width) (min_pct bar) (max_pct bar)) l

-- `onPointerUp` of a bar.
unfoldable pub on_pointer_up : Splitter → Layout → Layout
on_pointer_up bar l = record l {
  listening = λ b. if same_bar bar b then false else l.listening b;
  resizing = false;
}

unfoldable pub on_pointer_down : Splitter → Layout → Layout
on_pointer_down bar l = if leb l.inner_width mobile_breakpoint then l else record l {
  listening = λ b. if same_bar bar b then true else l.listening b;
  resizing = true;
}

-- `pointerdown` on a bar, `pointermove` and `pointerup` or `pointercancel` on the window, and a
-- `resize` or `orientationchange` of the window; `rect` is `getBoundingClientRect` of a container.
pub data Event : Type 0 where
  presses : Splitter → Event
  moves : ℤ → (Splitter → ℤ × ℕ) → Event
  releases : Event
  changes : ℕ → ℕ → ℕ → Event

unfoldable pub move_if : Bool → Splitter → ℤ → (ℤ × ℕ) → Layout → Layout
unfolding on_pointer_move
move_if b bar client_x rect l = if b then on_pointer_move bar client_x rect.0 rect.1 l else l

unfoldable pub release_if : Bool → Splitter → Layout → Layout
unfolding on_pointer_up
release_if b bar l = if b then on_pointer_up bar l else l

-- The listeners that are there; where both bars have one, their order makes no difference.
unfoldable pub handle : Event → Layout → Layout
unfolding on_pointer_down move_if release_if fit_viewport_layout
handle (presses bar) l = on_pointer_down bar l
handle (moves x rect) l =
    move_if (l.listening map_roadview) map_roadview x (rect map_roadview)
      (move_if (l.listening main) main x (rect main) l)
handle releases l =
    release_if (l.listening map_roadview) map_roadview (release_if (l.listening main) main l)
handle (changes width height topbar) l =
    fit_viewport_layout
      (record l { inner_width = width; inner_height = height; topbar_height = topbar })

unfoldable pub run : List Event → Layout → Layout
run [] l = l
run (e ∷ es) l = run es (handle e l)

abbrev pub first_pct : Splitter → ℕ
first_pct main = 58 * percent
first_pct map_roadview = 50 * percent

-- The page before its first `fitViewportLayout`, and after it.
abbrev pub unfitted : ℕ → ℕ → ℕ → Layout
unfitted width height topbar = record {
  inner_width = width;
  inner_height = height;
  topbar_height = topbar;
  split_pct = first_pct;
  columns = λ bar. stacked;
  height = auto;
  listening = λ bar. false;
  resizing = false;
  resizes = 0;
}

unfoldable pub start : ℕ → ℕ → ℕ → Layout
unfolding fit_viewport_layout
start width height topbar = fit_viewport_layout (unfitted width height topbar)
