-- ===== src/Web/Map/Trail.antt =====
-- client/naver-map.js: what the trail holds.
use web_dashboard.Prelude.{
  ℕ, ◌+◌, ◌-◌, ◌≤◌, ◌<◌, ◌≡◌, refl, sym, ◌∙◌, ap, inl, inr, Bool-cases, Bool, true, false, Option,
  none, some, List, [], ◌∷◌, ◌++◌, ltb, length, drop, arith, if◌then◌else◌, length-append,
  length-drop, drop-append_le, drop-add, drop_eq, drop_of_zero, append-nil, append_assoc, drop-nil,
}
use web_dashboard.Web.Geo.{Point, GpsFix, valid_point}
use web_dashboard.Web.Map.{
  NaverMap, is_near, push_shift, push_trail, show, show_valid, update_from_fix, update_all, new,
}

-- The point that a fix adds after `last`, none when it is near, and the last point then.
abbrev pub added : Option Point → Option Point → List Point
added last none = []
added last (some p) = if is_near last p then [] else p ∷ []

abbrev pub after : Option Point → Option Point → Option Point
after last none = last
after last (some p) = if is_near last p then last else some p

-- The points of the valid fixes, less each one that is near the last that was kept.
pub kept : Option Point → List (Option Point) → List Point
kept last [] = []
kept last (p ∷ ps) = added last p ++ kept (after last p) ps

abbrev pub points : List (Option GpsFix × Bool) → List (Option Point)
points [] = []
points ((fix, stale) ∷ rest) = valid_point fix ∷ points rest

-- The newest `limit` elements.
abbrev pub newest : ℕ → List Point → List Point
newest limit xs = drop (length xs - limit) xs

-- One more point, when the list is long enough for the oldest to go, and when it is not.
push_shift_full :
    (limit : ℕ) (xs : List Point) (p : Point)
    → limit ≤ length xs
    → push_shift limit (newest limit xs) p ≡ newest limit (xs ++ p ∷ [])
push_shift_full limit xs p h =
    let k = length xs - limit in
    let t = newest limit xs in
    let full : ltb limit (length (t ++ p ∷ [])) ≡ true =
      ground (arith, length-append t (p ∷ []), length-drop k xs) in
    let moved =
      ap (drop 1) (sym (drop-append_le k xs (p ∷ []) (omega arith)))
      ∙ drop-add k 1 (xs ++ p ∷ []) in
    let same =
      drop_eq (k + 1) (length (xs ++ p ∷ []) - limit) (xs ++ p ∷ [])
        (omega (arith, length-append xs (p ∷ []))) in
    rw full (moved ∙ same)

push_shift_room :
    (limit : ℕ) (xs : List Point) (p : Point)
    → length xs < limit
    → push_shift limit (newest limit xs) p ≡ newest limit (xs ++ p ∷ [])
push_shift_room limit xs p h =
    let all = drop_of_zero (length xs - limit) xs (omega arith) in
    let room : ltb limit (length (xs ++ p ∷ [])) ≡ false =
      ground (arith, length-append xs (p ∷ [])) in
    let whole =
      drop_of_zero (length (xs ++ p ∷ []) - limit) (xs ++ p ∷ [])
        (omega (arith, length-append xs (p ∷ []))) in
    rw (all, room) (sym whole)

push_shift-newest :
    (limit : ℕ) (xs : List Point) (p : Point)
    → push_shift limit (newest limit xs) p ≡ newest limit (xs ++ p ∷ [])
push_shift-newest limit xs p = elim (Bool-cases (ltb (length xs) limit)) [
  | inl h ↦ push_shift_room limit xs p (ground arith)
  | inr h ↦ push_shift_full limit xs p (ground arith)
]

-- The trail is the newest part of `all`.
record Holds (m : NaverMap) (limit : ℕ) (last : Option Point) (all : List Point) : Type 0 where
  ready : m.ready ≡ true
  limited : m.trail_limit ≡ limit
  last_point : m.last_trail_point ≡ last
  trail : m.trail ≡ newest limit all

show_near :
    (p : Point) (fix : GpsFix) (stale : Bool) (m : NaverMap) (limit : ℕ) (last : Option Point)
    (all : List Point)
    → is_near last p ≡ true
    → Holds m limit last all
    → Holds (show p fix stale m) limit last all
unfolding show push_trail
show_near p fix stale m limit last all near v =
    let near' = ap (λ l. is_near l p) v.last_point ∙ near in
    record {
      ready = rw near' v.ready;
      limited = rw near' v.limited;
      last_point = rw near' v.last_point;
      trail = rw near' v.trail;
    }

show_far :
    (p : Point) (fix : GpsFix) (stale : Bool) (m : NaverMap) (limit : ℕ) (last : Option Point)
    (all : List Point)
    → is_near last p ≡ false
    → Holds m limit last all
    → Holds (show p fix stale m) limit (some p) (all ++ p ∷ [])
unfolding show push_trail
show_far p fix stale m limit last all far v =
    let far' = ap (λ l. is_near l p) v.last_point ∙ far in
    let pushed =
      ap (λ t. push_shift m.trail_limit t p) v.trail
      ∙ ap (λ n. push_shift n (newest limit all) p) v.limited
      ∙ push_shift-newest limit all p in
    record {
      ready = rw far' v.ready;
      limited = rw far' v.limited;
      last_point = rw far' refl;
      trail = rw far' pushed;
    }

when_ready :
    (b : Bool) (m n : NaverMap) (limit : ℕ) (last : Option Point) (all : List Point)
    → b ≡ true
    → Holds n limit last all
    → Holds (if b then n else m) limit last all
when_ready b m n limit last all h v = rw h v

show_valid-Holds :
    (p : Option Point) (fix : GpsFix) (stale : Bool) (m : NaverMap) (limit : ℕ)
    (last : Option Point) (all : List Point)
    → Holds m limit last all
    → Holds (show_valid p fix stale m) limit (after last p) (all ++ added last p)
show_valid-Holds none fix stale m limit last all v = rw (append-nil all) v
show_valid-Holds (some p) fix stale m limit last all v = elim (Bool-cases (is_near last p)) [
  | inl near ↦
      rw (near, append-nil all)
        (when_ready m.ready m (show p fix stale m) limit last all v.ready
          (show_near p fix stale m limit last all near v))
  | inr far ↦ rw far (
      when_ready m.ready m (show p fix stale m) limit (some p) (all ++ p ∷ []) v.ready
        (show_far p fix stale m limit last all far v))
]

update_from_fix-Holds :
    (fix : Option GpsFix) (stale : Bool) (m : NaverMap) (limit : ℕ) (last : Option Point)
    (all : List Point)
    → Holds m limit last all
    → Holds
        (update_from_fix fix stale m)
        limit
        (after last (valid_point fix))
        (all ++ added last (valid_point fix))
unfolding update_from_fix valid_point
update_from_fix-Holds none stale m limit last all v = rw (append-nil all) v
update_from_fix-Holds (some fix) stale m limit last all v =
    show_valid-Holds (valid_point (some fix)) fix stale m limit last all v

update_all-newest :
    (es : List (Option GpsFix × Bool)) (m : NaverMap) (limit : ℕ) (last : Option Point)
    (all : List Point)
    → Holds m limit last all
    → (update_all es m).trail ≡ newest limit (all ++ kept last (points es))
unfolding update_all kept
update_all-newest [] m limit last all v = v.trail ∙ ap (newest limit) (sym (append-nil all))
update_all-newest ((fix, stale) ∷ es) m limit last all v =
    let p = valid_point fix in
    let step = update_from_fix-Holds fix stale m limit last all v in
    update_all-newest es (update_from_fix fix stale m) limit (after last p) (all ++ added last p)
      step
    ∙ ap (newest limit) (append_assoc all (added last p) (kept (after last p) (points es)))

-- On a ready map, after any fixes, valid or not, stale or not, the trail holds the newest `limit` of
-- the points of the valid fixes, in order, less each point that lies less than two millionths of a
-- degree, both ways, from the last one that was kept.
pub trail_newest :
    (zoom limit : ℕ) (es : List (Option GpsFix × Bool))
    → (update_all es (new true zoom limit)).trail ≡ newest limit (kept none (points es))
unfolding new
trail_newest zoom limit es =
    update_all-newest es (new true zoom limit) limit none [] (record {
      ready = refl;
      limited = refl;
      last_point = refl;
      trail = sym (drop-nil (0 - limit));
    })
