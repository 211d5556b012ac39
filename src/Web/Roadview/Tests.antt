-- ===== src/Web/Roadview/Tests.antt =====
-- Runs of client/naver-roadview.js on concrete fixes.
use web_dashboard.Prelude.{ℕ, ◌≡◌, refl, Option, none, some, [], ◌∷◌, true, false, pos, arith}
use web_dashboard.Web.Geo.{Point, GpsFix, valid_point}
use web_dashboard.Web.Roadview.{
  new, update, reply, threw, refused, State, Reach, here, next, handle, start, update_from_fix,
  update_at, aim, maybe_reverse_geocode, may_ask, enabled,
}
use web_dashboard.Web.Roadview.Pacing.{Spaced, requests-Spaced}
use web_dashboard.Web.Roadview.Pause.{quiet_after_failure}

abbrev apart : Point → Point → Option ℕ
apart p q = some 100

abbrev city_hall : Point
city_hall = record { lat = pos 37_566_500; lon = pos 126_978_000 }

abbrev fix : GpsFix
fix = record {
  lat = some (pos 37_566_500);
  lon = some (pos 126_978_000);
  hdg = some (pos 270_000_000);
  acc = some 5;
}

abbrev asked : State
asked = handle apart (update (some fix) false 6000) (start true)

asked_once : asked.requests ≡ 6000 ∷ []
unfolding handle new update_from_fix update_at aim maybe_reverse_geocode may_ask valid_point
asked_once = refl

early : (handle apart (update (some fix) false 4000) (start true)).requests ≡ []
unfolding handle new update_from_fix update_at aim maybe_reverse_geocode may_ask valid_point
early = refl

run_asked : Reach apart (start true) asked
unfolding enabled
run_asked = next (update (some fix) false 6000) here refl

requests-Spaced_example : Spaced asked.requests
requests-Spaced_example = requests-Spaced apart true asked run_asked

abbrev failed : State
failed = handle apart (reply threw 7000 0) asked

abbrev later : State
later = handle apart (update (some fix) false 11_500) failed

run_later : Reach apart failed later
unfolding enabled handle
run_later = next (update (some fix) false 11_500) here refl

quiet_after_failure_example : later.requests ≡ asked.requests
unfolding handle new update_from_fix update_at aim maybe_reverse_geocode may_ask valid_point
quiet_after_failure_example =
    quiet_after_failure apart asked later threw 7000 0 5000 refl run_later (omega arith)

abbrev refusal : State
refusal = handle apart (reply (refused 403 none) 7000 0) asked

run_refusal : Reach apart refusal (handle apart (update (some fix) false 90_000) refusal)
unfolding enabled handle
run_refusal = next (update (some fix) false 90_000) here refl
