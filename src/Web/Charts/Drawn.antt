-- ===== src/Web/Charts/Drawn.antt =====
-- client/charts.js: shifting old samples off does not change what is drawn.
use web_dashboard.Prelude.{
  ℕ, ◌≤◌, ◌≡◌, refl, ◌⊎◌, sym, ◌∙◌, ap, inl, inr, Bool-cases, Bool, true, false, Option, none, some,
  String, List, [], ◌∷◌, ◌++◌, ltb, length, filter, filter-append, length-filter_le, arith,
  if◌then◌else◌, append-nil, append_assoc,
}
use web_dashboard.Web.Charts.{
  At, Chart, new, is_old, shift_old, in_series, add_value, add_sample, add_marker, is_visible,
  drawn_line, drawn_markers, Step, samples, marks, step, run,
}

module _ {ℓ} {V : Type ℓ} (window t now : ℕ) (h : t ≤ now) where
  old_stays_old : (x : At V) → is_old window t x ≡ true → is_visible window now x ≡ false
  old_stays_old x old = ground (arith, h)

  filter-shift_old :
      (xs : List (At V))
      → filter (is_visible window now) (shift_old window t xs) ≡ filter (is_visible window now) xs
  unfolding shift_old
  filter-shift_old [] = refl
  filter-shift_old (x ∷ xs) = elim (Bool-cases (is_old window t x)) [
    | inl old ↦ rw (old, old_stays_old x old) (filter-shift_old xs)
    | inr young ↦ rw young refl
  ]

module _ {ℓ} {N : Type ℓ} where
  abbrev pub given : ℕ → Option N → List (At N)
  given t none = []
  given t (some v) = record { t = t; v = v } ∷ []

  -- Every finite value that was ever added for the key.
  unfoldable pub all_values : String → List String → List (Step N) → List (At N)
  all_values key series [] = []
  all_values key series (samples t sample ∷ ss) =
      (if in_series key series then given t (sample key) else []) ++ all_values key series ss
  all_values key series (marks t label ∷ ss) = all_values key series ss

  unfoldable pub all_marks : List (Step N) → List (At String)
  all_marks [] = []
  all_marks (samples t sample ∷ ss) = all_marks ss
  all_marks (marks t label ∷ ss) = record { t = t; v = label } ∷ all_marks ss

  -- No sample is added after `now`.
  unfoldable pub Before : ℕ → List (Step N) → Type 0
  Before now [] = Unit
  Before now (samples t sample ∷ ss) = t ≤ now × Before now ss
  Before now (marks t label ∷ ss) = Before now ss

  add_value_visible :
      (window t now : ℕ) (value : Option N) (bucket : List (At N))
      → t ≤ now
      → filter (is_visible window now) (add_value window t value bucket)
        ≡ filter (is_visible window now) (bucket ++ given t value)
  add_value_visible window t now none bucket h =
      ap (filter (is_visible window now)) (sym (append-nil bucket))
  add_value_visible window t now (some v) bucket h =
      filter-shift_old window t now h (bucket ++ record { t = t; v = v } ∷ [])

  add_sample_visible :
      (b : Bool) (window t now : ℕ) (value : Option N) (bucket : List (At N))
      → t ≤ now
      → filter (is_visible window now) (if b then add_value window t value bucket else bucket)
        ≡ filter (is_visible window now) (bucket ++ (if b then given t value else []))
  add_sample_visible true window t now value bucket h =
      add_value_visible window t now value bucket h
  add_sample_visible false window t now value bucket h =
      ap (filter (is_visible window now)) (sym (append-nil bucket))

  run_visible :
      (ss : List (Step N)) (now : ℕ) (key : String) (c : Chart N)
      → Before now ss
      → filter (is_visible c.window_ms now) ((run ss c).samples key)
        ≡ filter (is_visible c.window_ms now) (c.samples key ++ all_values key c.series ss)
  unfolding run step add_sample add_marker all_values Before
  run_visible [] now key c h =
      ap (filter (is_visible c.window_ms now)) (sym (append-nil (c.samples key)))
  run_visible (samples t sample ∷ ss) now key c h =
      let p : At N → Bool = is_visible c.window_ms now in
      let b = in_series key c.series in
      let bucket = c.samples key in
      let fresh = if b then given t (sample key) else [] in
      let rest = all_values key c.series ss in
      let c' = add_sample t sample c in
      run_visible ss now key c' h.1
      ∙ filter-append p (c'.samples key) rest
      ∙ ap (λ xs. xs ++ filter p rest)
          (add_sample_visible b c.window_ms t now (sample key) bucket h.0)
      ∙ sym (filter-append p (bucket ++ fresh) rest)
      ∙ ap (filter p) (append_assoc bucket fresh rest)
  run_visible (marks t label ∷ ss) now key c h = run_visible ss now key (add_marker t label c) h

  run_marks :
      (ss : List (Step N)) (now : ℕ) (c : Chart N)
      → Before now ss
      → filter (is_visible c.window_ms now) (run ss c).markers
        ≡ filter (is_visible c.window_ms now) (c.markers ++ all_marks ss)
  unfolding run step add_sample add_marker all_marks Before
  run_marks [] now c h = ap (filter (is_visible c.window_ms now)) (sym (append-nil c.markers))
  run_marks (samples t sample ∷ ss) now c h =
      let p : At String → Bool = is_visible c.window_ms now in
      let rest = all_marks ss in
      let c' = add_sample t sample c in
      run_marks ss now c' h.1
      ∙ filter-append p c'.markers rest
      ∙ ap (λ xs. xs ++ filter p rest) (filter-shift_old c.window_ms t now h.0 c.markers)
      ∙ sym (filter-append p c.markers rest)
  run_marks (marks t label ∷ ss) now c h =
      let p : At String → Bool = is_visible c.window_ms now in
      run_marks ss now (add_marker t label c) h
      ∙ ap (filter p) (append_assoc c.markers (record { t = t; v = label } ∷ []) (all_marks ss))

  run_window : (ss : List (Step N)) (c : Chart N) → (run ss c).window_ms ≡ c.window_ms
  unfolding run step add_sample add_marker
  run_window [] c = refl
  run_window (samples t sample ∷ ss) c = run_window ss (add_sample t sample c)
  run_window (marks t label ∷ ss) c = run_window ss (add_marker t label c)

  -- A line is drawn through all the visible values of its bucket, or there are at most one of them and
  -- nothing is drawn.
  line_or_few :
      (now : ℕ) (key : String) (c : Chart N) (all : List (At N))
      → filter (is_visible c.window_ms now) (c.samples key) ≡ all
      → (drawn_line now key c ≡ all) ⊎ ((length all ≤ 1) × (drawn_line now key c ≡ []))
  unfolding drawn_line
  line_or_few now key c all h = elim (Bool-cases (ltb (length (c.samples key)) 2)) [
    | inl few ↦
        let long = length-filter_le (is_visible c.window_ms now) (c.samples key) in
        inr (ground (arith, few, long, ap length h), rw (few, drawn_line) refl)
    | inr enough ↦ inl (rw (enough, drawn_line) h)
  ]

  -- However samples and markers have been added to a chart, each sample no later than `now`: the
  -- markers that it draws at `now` are all those ever added whose times lie in the window before
  -- `now`, in order; and the line that it draws for a key is through all the values ever added for the
  -- key whose times lie in the window, in order, except that it may draw no line when there is at most
  -- one of them. What is shifted off the front is never missed.
  pub drawn_complete :
      (window : ℕ) (series : List String) (ss : List (Step N)) (now : ℕ) (key : String)
      → Before now ss
      → let c = run ss (new window series) in
        let values = filter (is_visible window now) (all_values key series ss) in
        ((drawn_line now key c ≡ values) ⊎ ((length values ≤ 1) × (drawn_line now key c ≡ [])))
        × (drawn_markers now c ≡ filter (is_visible window now) (all_marks ss))
  unfolding drawn_markers new
  drawn_complete window series ss now key h =
      let c = run ss (new window series) in
      let same = run_window ss (new window series) in
      let line = run_visible ss now key (new window series) h in
      (
        line_or_few now key c _ (ap (λ w. filter (is_visible w now) (c.samples key)) same ∙ line),
        rw same (run_marks ss now (new window series) h),
      )
