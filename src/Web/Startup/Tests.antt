-- ===== src/Web/Startup/Tests.antt =====
-- Starts of the page with a map service whose panorama is made at the third attempt.
use web_dashboard.Prelude.{
  ℕ, zero, suc, ◌<◌, ◌≤◌, ◌≡◌, refl, true, false, Option, none, some, List, [], ◌∷◌, arith, length,
  String,
}
use web_dashboard.Web.Map.{failed_init}
use web_dashboard.Web.Startup.{
  Service, answered, Event, config_comes, script_loads, script_fails, wakes, in_progress,
  load_failed, enabled, run, start, handle, on_config, init, load_script, on_load, map_goes_on,
  roadview_init, roadview_goes_on, attempted, finish, on_wake,
}
use web_dashboard.Web.Startup.Ends.{Enabled, startup_ends}
use web_dashboard.Web.Startup.Outcomes.{
  failed_script_hangs, pauses, IsReady, MadeAt, panorama_retried,
}

abbrev busy_twice : ℕ → Option String
busy_twice zero = some "busy"
busy_twice (suc zero) = some "busy"
busy_twice (suc (suc i)) = none

abbrev service : Service
service = record { defines_maps = true; makes_map = none; makes_panorama = busy_twice }

too_many : (i : ℕ) → ¬ (suc (suc i) < 2)
too_many i h = omega arith

busy-MadeAt : MadeAt service 2
busy-MadeAt = record { before = λ i h. before i h; made = refl }
  where
    before : (i : ℕ) → i < 2 → (err : String) × (busy_twice i ≡ some err)
    before zero h = ("busy", refl)
    before (suc zero) h = ("busy", refl)
    before (suc (suc i)) h = absurd (too_many i h)

abbrev events : List Event
events = config_comes (answered (some "id")) ∷ script_loads ∷ wakes ∷ wakes ∷ []

startup_ends_example : length events ≤ 10
unfolding Enabled run handle on_config init load_script on_load map_goes_on roadview_init
    roadview_goes_on attempted finish on_wake
startup_ends_example = startup_ends service 16 1200 events (refl, (refl, (refl, (refl, tt))))

failed_script_hangs_example :
    let s = run service (config_comes (answered (some "id")) ∷ script_fails ∷ []) (start 16 1200) in
    (s.map.hint ≡ some (failed_init load_failed))
    × (s.status ≡ some in_progress)
    × (s.fits ≡ 0)
    × ((e : Event) → enabled e s ≡ false)
failed_script_hangs_example = failed_script_hangs service 16 1200 "id" refl

panorama_retried_example :
    IsReady
      (run service (config_comes (answered (some "id")) ∷ script_loads ∷ pauses 2) (start 16 1200))
panorama_retried_example =
    panorama_retried service 2 16 1200 "id" refl refl refl busy-MadeAt (omega arith)
