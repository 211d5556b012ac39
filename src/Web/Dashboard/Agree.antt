-- ===== src/Web/Dashboard/Agree.antt =====
-- client/app.js: the panel, the map and the panorama show the same fix.
use web_dashboard.Prelude.{
  String, Bool, ℕ, ◌*◌, ◌≤◌, ◌≡◌, refl, ap, ◌∙◌, sym, subst, inl, inr, Bool-cases, Bool, true,
  false, not, Option, some, List, leb, arith, if◌then◌else◌, abs_ℕ,
}
use web_dashboard.Web.Geo.{degree, Point, GpsFix, valid_point, normalize_pan}
use web_dashboard.Web.Blend.{Alpha, Fix}
use web_dashboard.Web.Blend.Between.{Every, IsValid}
use web_dashboard.Web.Gps
use web_dashboard.Web.Gps.{Mode, Tracker, View}
use web_dashboard.Web.Gps.Watch
use web_dashboard.Web.Gps.Watch.{
  tick-Every, tick-IsSound, handle-IsSound, keep_fix-IsSound, start-IsSound, read_position-IsValid,
}
use web_dashboard.Web.Map
use web_dashboard.Web.Map.{NaverMap, show, show_valid}
use web_dashboard.Web.Roadview
use web_dashboard.Web.Roadview.{Roadview, update_at, aim, maybe_reverse_geocode, may_ask}
use web_dashboard.Web.Page.{Clock}
use web_dashboard.Web.Dashboard.{Dashboard, as_gps_fix, fix_of_option, tick, Event, run, opened}
use web_dashboard.Web.Dashboard.Sound.{run-IsSound}
use web_dashboard.Web.Dashboard.Frames.{tick-Displays}

valid_point-as_gps_fix : (f : Fix) → IsValid f → valid_point (some (as_gps_fix f)) ≡ some (f.at)
unfolding valid_point
valid_point-as_gps_fix f v =
    let lat : leb (abs_ℕ f.at.lat) (90 * degree) ≡ true = ground arith in
    let lon : leb (abs_ℕ f.at.lon) (180 * degree) ≡ true = ground arith in rw (lat, lon) refl

-- The map and the panorama of a valid fix, where they are there.
map-marker :
    (f : Fix) (stale : Bool) (m : NaverMap)
    → IsValid f
    → m.ready ≡ true
    → (Map.update_from_fix (some (as_gps_fix f)) stale m).marker ≡ some (f.at)
unfolding Map.update_from_fix show
map-marker f stale m v ready =
    ap (λ p. (show_valid p (as_gps_fix f) stale m).marker) (valid_point-as_gps_fix f v)
    ∙ ap (λ b. (if b then show (f.at) (as_gps_fix f) stale m else m).marker) ready

asked-pan :
    (metres : Point → Point → Option ℕ) (p : Point) (now : ℕ) (r : Roadview)
    → (maybe_reverse_geocode metres p now r).0.pan ≡ r.pan
unfolding maybe_reverse_geocode
asked-pan metres p now r = elim (Bool-cases (may_ask metres p now r)) [
  | inl asks ↦ rw asks refl
  | inr waits ↦ rw waits refl
]

update_at-pan :
    (metres : Point → Point → Option ℕ) (p : Point) (fix : GpsFix) (stale : Bool) (now : ℕ)
    (r : Roadview)
    → r.ready ≡ true
    → (update_at metres (some p) fix stale now r).0.pan ≡ some (normalize_pan fix.hdg)
unfolding update_at aim
update_at-pan metres p fix true now r ready = rw ready refl
update_at-pan metres p fix false now r ready =
    ap
      (λ b.
        (if not b
          then (r, false)
          else maybe_reverse_geocode metres p now (aim metres p fix false r)).0.pan)
      ready
    ∙ asked-pan metres p now (aim metres p fix false r)

roadview-pan :
    (metres : Point → Point → Option ℕ) (f : Fix) (stale : Bool) (now : ℕ) (r : Roadview)
    → IsValid f
    → r.ready ≡ true
    → (Roadview.update_from_fix metres (some (as_gps_fix f)) stale now r).0.pan
      ≡ some (normalize_pan f.hdg)
unfolding Roadview.update_from_fix
roadview-pan metres f stale now r v ready =
    ap (λ p. (update_at metres p (as_gps_fix f) stale now r).0.pan) (valid_point-as_gps_fix f v)
    ∙ update_at-pan metres (f.at) (as_gps_fix f) stale now r ready

tick_agrees :
    (metres : Point → Point → Option ℕ) (c : Clock) (d : Dashboard) (f : Fix)
    → Watch.IsSound d.tracker
    → (tick metres c d).panel.shown ≡ some f
    → (d.map.ready ≡ true → (tick metres c d).map.marker ≡ some (f.at))
      × (d.roadview.ready ≡ true → (tick metres c d).roadview.pan ≡ some (normalize_pan f.hdg))
tick_agrees metres c d f v shown =
    let h = tick-Displays metres c d in
    let view = (Gps.tick c.now_ms d.tracker).1 in
    let same : view.fix ≡ some f = sym h.shown ∙ shown in
    let valid = subst (Every IsValid) same (tick-Every c.now_ms d.tracker v) in
    let given = ap fix_of_option same in
    (
      λ ready.
          ap (λ m. m.marker) h.map
          ∙ ap (λ o. (Map.update_from_fix o view.stale d.map).marker) given
          ∙ map-marker f view.stale d.map valid ready,
      λ ready.
          ap (λ r. r.pan) h.roadview
          ∙ ap (λ o. (Roadview.update_from_fix metres o view.stale c.now_ms d.roadview).0.pan) given
          ∙ roadview-pan metres f view.stale c.now_ms d.roadview valid ready,
    )

-- After any events from the loading of the page on: whenever the interval shows a fix in the panel, a
-- map that is ready has its marker at that fix, and a panorama that is ready looks in its direction.
pub run_agrees :
    (metres : Point → Point → Option ℕ) (accepts : String → Bool) (es : List Event) (c : Clock)
    (secure supported : Bool) (mode : Mode) (ema : Alpha) (stale : ℕ) (map : NaverMap)
    (roadview : Roadview) (f : Fix)
    → ema.num ≤ ema.den
    → let d =
        run metres es (opened accepts secure (Gps.new mode ema stale supported) map roadview) in
      (tick metres c d).panel.shown ≡ some f
      → (d.map.ready ≡ true → (tick metres c d).map.marker ≡ some (f.at))
        × (d.roadview.ready ≡ true → (tick metres c d).roadview.pan ≡ some (normalize_pan f.hdg))
run_agrees metres accepts es c secure supported mode ema stale map roadview f h shown =
    let d0 = opened accepts secure (Gps.new mode ema stale supported) map roadview in
    tick_agrees metres c (run metres es d0) f
      ((run-IsSound metres accepts es secure supported mode ema stale map roadview h).tracker) shown
