-- ===== src/Web/Map/Tests.antt =====
-- Runs of client/naver-map.js on concrete fixes.
use web_dashboard.Prelude.{ℕ, ◌≡◌, refl, Bool, true, false, Option, none, some, List, [], ◌∷◌, pos}
use web_dashboard.Web.Geo.{GpsFix, valid_point}
use web_dashboard.Web.Map.{new, update_all, update_from_fix, show, push_trail}
use web_dashboard.Web.Map.Trail.{newest, kept, points, trail_newest}

abbrev at_lat : ℕ → Option GpsFix
at_lat lat =
    some (record { lat = some (pos lat); lon = some (pos 127_000_000); hdg = none; acc = none })

abbrev fixes : List (Option GpsFix × Bool)
fixes =
    (at_lat 37_000_000, false)
    ∷ (at_lat 37_000_001, false)
    ∷ (none, true)
    ∷ (at_lat 37_000_010, false)
    ∷ (at_lat 91_000_000, false)
    ∷ (at_lat 37_000_020, true)
    ∷ []

two_kept :
    (update_all fixes (new true 16 2)).trail
    ≡ record { lat = pos 37_000_010; lon = pos 127_000_000 }
      ∷ record { lat = pos 37_000_020; lon = pos 127_000_000 }
      ∷ []
unfolding update_all new update_from_fix show push_trail valid_point
two_kept = refl

trail_newest_example :
    (update_all fixes (new true 16 2)).trail ≡ newest 2 (kept none (points fixes))
trail_newest_example = trail_newest 16 2 fixes
