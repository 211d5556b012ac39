-- ===== src/Web/Charts/Tests.antt =====
-- Runs of client/charts.js on concrete samples.
use web_dashboard.Prelude.{
  ◌⊎◌, ◌≤◌, ℕ, ◌≡◌, refl, Option, some, String, List, [], ◌∷◌, length, filter, ℤ, pos, arith,
}
use web_dashboard.Web.Charts.{
  new, is_visible, drawn_line, drawn_markers, Step, samples, marks, run, step, add_sample,
  add_marker, shift_old,
}
use web_dashboard.Web.Charts.Drawn.{Before, all_values, all_marks, drawn_complete}

abbrev keys : List String
keys = "yaw" ∷ "ay" ∷ []

abbrev yaw_is : ℕ → String → Option ℤ
yaw_is n key = some (pos n)

abbrev steps : List (Step ℤ)
steps =
    samples 1000 (yaw_is 1)
    ∷ marks 1500 "MARK"
    ∷ samples 62_000 (yaw_is 2)
    ∷ samples 63_000 (yaw_is 3)
    ∷ []

first_is_gone : length ((run steps (new 60_000 keys)).samples "yaw") ≡ 2
unfolding run step new add_sample add_marker shift_old
first_is_gone = refl

drawn_complete_example :
    let c = run steps (new 60_000 keys) in
    let values = filter (is_visible 60_000 63_000) (all_values "yaw" keys steps) in
    ((drawn_line 63_000 "yaw" c ≡ values)
      ⊎ ((length values ≤ 1) × (drawn_line 63_000 "yaw" c ≡ [])))
    × (drawn_markers 63_000 c ≡ filter (is_visible 60_000 63_000) (all_marks steps))
unfolding Before
drawn_complete_example =
    drawn_complete 60_000 keys steps 63_000 "yaw" (omega arith, (omega arith, (omega arith, tt)))
