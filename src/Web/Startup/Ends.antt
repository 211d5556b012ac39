-- ===== src/Web/Startup/Ends.antt =====
-- client/app.js: `initPublicConfig` takes a bounded number of events.
use web_dashboard.Prelude.{
  ℕ, suc, ◌+◌, ◌-◌, ◌<◌, ◌≤◌, ◌≡◌, refl, ap, ◌∙◌, subst, inl, inr, Bool-cases, Bool, true, false,
  Option, none, some, String, List, [], ◌∷◌, arith, length, ltb, if◌then◌else◌,
}
use web_dashboard.Web.Map.{failed_init}
use web_dashboard.Web.Startup.{
  Service, Config, answered, refused, threw, Script, absent, loading, loaded, failed, Stage,
  fetching, map_waits, roadview_waits, sleeping, finished, Startup, is_absent, is_loading,
  is_fetching, is_sleeping, load_script, finish, attempted, roadview_goes_on, roadview_init,
  map_goes_on, init, is_missing, on_config, on_load, on_error, on_wake, Event, config_comes,
  script_loads, script_fails, wakes, enabled, handle, start, hint_map, made_map, in_progress,
  no_maps, load_failed,
}

-- How many more events there can be, at most.
abbrev left : Stage → ℕ
left fetching = 10
left map_waits = 8
left roadview_waits = 7
left (sleeping i err) = 1 + (6 - i)
left finished = 0

abbrev pending : Script → ℕ
pending loading = 1
pending _ = 0

pending_le : (c : Script) → pending c ≤ 1
pending_le absent = omega arith
pending_le loading = omega arith
pending_le loaded = omega arith
pending_le failed = omega arith

left_fetching : (st : Stage) → is_fetching st ≡ true → left st ≡ 10
left_fetching fetching h = refl
left_fetching map_waits h = ground arith
left_fetching roadview_waits h = ground arith
left_fetching (sleeping i err) h = ground arith
left_fetching finished h = ground arith

pending_loading : (c : Script) → is_loading c ≡ true → pending c ≡ 1
pending_loading absent h = ground arith
pending_loading loading h = refl
pending_loading loaded h = ground arith
pending_loading failed h = ground arith

abbrev measure : Startup → ℕ
measure s = left s.stage + pending s.script

measure_if :
    (b : Bool) (s t : Startup) (k : ℕ)
    → (b ≡ true → measure s ≤ k)
    → (b ≡ false → measure t ≤ k)
    → measure (if b then s else t) ≤ k
measure_if true s t k hs ht = hs refl
measure_if false s t k hs ht = ht refl

module _ (service : Service) where
  attempted_le :
      (o : Option String) (i : ℕ) (s : Startup)
      → measure (attempted service o i s) ≤ 1 + (6 - suc i) + pending s.script
  unfolding attempted finish
  attempted_le none i s = omega arith
  attempted_le (some err) i s = omega arith

  roadview_goes_on_le : (s : Startup) → measure (roadview_goes_on service s) ≤ 6 + pending s.script
  unfolding roadview_goes_on finish
  roadview_goes_on_le s =
      measure_if s.maps_defined (attempted service (service.makes_panorama 0) 0 s) _
        (6 + pending s.script) (λ e. attempted_le (service.makes_panorama 0) 0 s) (λ e. omega arith)

  -- The script is not waited for before `init` has looked for it.
  roadview_init_le :
      (s : Startup)
      → is_absent s.script ≡ false
      → measure (roadview_init service s) ≤ 7 + pending s.script
  unfolding roadview_init load_script
  roadview_init_le s there =
      measure_if s.maps_defined (roadview_goes_on service (record s { status = some in_progress }))
        _ (7 + pending s.script)
        (λ e. omega (arith, roadview_goes_on_le (record s { status = some in_progress })))
        (λ e. rw there (omega arith))

  roadview_init_new :
      (s : Startup)
      → is_absent s.script ≡ true
      → measure (roadview_init service s) ≤ 8 + pending s.script
  unfolding roadview_init load_script
  roadview_init_new s missing =
      measure_if s.maps_defined (roadview_goes_on service (record s { status = some in_progress }))
        _ (8 + pending s.script)
        (λ e. omega (arith, roadview_goes_on_le (record s { status = some in_progress })))
        (λ e. rw missing (omega arith))

  made_map_script : (o : Option String) (s : Startup) → (made_map service o s).script ≡ s.script
  made_map_script none s = refl
  made_map_script (some err) s = refl

  roadview_init_any : (s : Startup) → measure (roadview_init service s) ≤ 8 + pending s.script
  roadview_init_any s = elim (Bool-cases (is_absent s.script)) [
    | inl missing ↦ roadview_init_new s missing
    | inr there ↦ omega (arith, roadview_init_le s there)
  ]

  -- What the map's `init` passes on has the script of before.
  map_tried : Startup → Startup
  map_tried s =
      if s.maps_defined
      then made_map service service.makes_map s
      else hint_map service (failed_init no_maps) s

  map_tried-script : (s : Startup) → (map_tried s).script ≡ s.script
  unfolding map_tried
  map_tried-script s = elim (Bool-cases s.maps_defined) [
    | inl there ↦
        ap
          (λ b.
            (if b
              then made_map service service.makes_map s
              else hint_map service (failed_init no_maps) s).script)
          there
        ∙ made_map_script service.makes_map s
    | inr missing ↦
        ap
          (λ b.
            (if b
              then made_map service service.makes_map s
              else hint_map service (failed_init no_maps) s).script)
          missing
  ]

  map_goes_on_le :
      (s : Startup)
      → is_absent s.script ≡ false
      → measure (map_goes_on service s) ≤ 7 + pending s.script
  unfolding map_goes_on map_tried
  map_goes_on_le s there =
      subst (λ c. measure (map_goes_on service s) ≤ 7 + pending c) (map_tried-script s)
        (roadview_init_le (map_tried s) (ap is_absent (map_tried-script s) ∙ there))

  map_goes_on_any : (s : Startup) → measure (map_goes_on service s) ≤ 8 + pending s.script
  unfolding map_goes_on map_tried
  map_goes_on_any s =
      subst (λ c. measure (map_goes_on service s) ≤ 8 + pending c) (map_tried-script s)
        (roadview_init_any (map_tried s))

  init_le : (id : Option String) (s : Startup) → measure (init service id s) ≤ 9 + pending s.script
  unfolding init finish
  init_le id s =
      measure_if (is_missing id) _ _ (9 + pending s.script) (λ e. omega arith)
        (λ e.
          measure_if s.maps_defined (map_goes_on service s) _ (9 + pending s.script)
            (λ e. omega (arith, map_goes_on_any s))
            (λ e. omega (arith, pending_le (load_script s).script)))

  on_config_le : (c : Config) (s : Startup) → measure (on_config service c s) ≤ 9 + pending s.script
  unfolding on_config
  on_config_le (answered id) s = init_le id s
  on_config_le (refused code) s = omega arith
  on_config_le (threw message) s = omega arith

  on_load_le :
      (st : Stage) (s : Startup)
      → s.stage ≡ st
      → is_absent s.script ≡ false
      → pending s.script ≡ 0
      → measure (on_load service st s) ≤ left st
  unfolding on_load
  on_load_le map_waits s e there p = omega (arith, map_goes_on_le s there)
  on_load_le roadview_waits s e there p = omega (arith, roadview_goes_on_le s)
  on_load_le fetching s e there p = rw (e, p) (omega arith)
  on_load_le (sleeping i err) s e there p = rw (e, p) (omega arith)
  on_load_le finished s e there p = rw (e, p) (omega arith)

  on_error_le :
      (st : Stage) (s : Startup)
      → s.stage ≡ st
      → is_absent s.script ≡ false
      → pending s.script ≡ 0
      → measure (on_error service st s) ≤ left st
  unfolding on_error finish
  on_error_le map_waits s e there p =
      omega (arith, roadview_init_le (hint_map service (failed_init load_failed) s) there)
  on_error_le roadview_waits s e there p = rw p (omega arith)
  on_error_le fetching s e there p = rw (e, p) (omega arith)
  on_error_le (sleeping i err) s e there p = rw (e, p) (omega arith)
  on_error_le finished s e there p = rw (e, p) (omega arith)

  on_wake_less :
      (st : Stage) (s : Startup)
      → is_sleeping st ≡ true
      → measure (on_wake service st s) < left st + pending s.script
  unfolding on_wake finish
  on_wake_less (sleeping i err) s h = elim (Bool-cases (ltb i 5)) [
    | inl more ↦ rw more (ground (arith, attempted_le (service.makes_panorama i) i s))
    | inr over ↦ rw over (omega arith)
  ]
  on_wake_less fetching s h = ground arith
  on_wake_less map_waits s h = ground arith
  on_wake_less roadview_waits s h = ground arith
  on_wake_less finished s h = ground arith

  handle_less :
      (e : Event) (s : Startup) → enabled e s ≡ true → measure (handle service e s) < measure s
  unfolding handle
  handle_less (config_comes c) s h = omega (arith, on_config_le c s, left_fetching s.stage h)
  handle_less script_loads s h =
      let s' = record s { script = loaded; maps_defined = service.defines_maps } in
      omega (arith, on_load_le s.stage s' refl refl refl, pending_loading s.script h)
  handle_less script_fails s h = omega (
    arith,
    on_error_le s.stage (record s { script = failed }) refl refl refl,
    pending_loading s.script h,
  )
  handle_less wakes s h = on_wake_less s.stage s h

  -- Each event can come in the state that the ones before it leave.
  unfoldable pub Enabled : List Event → Startup → Type 0
  Enabled [] s = Unit
  Enabled (e ∷ es) s = (enabled e s ≡ true) × Enabled es (handle service e s)

  run_bound : (es : List Event) (s : Startup) → Enabled es s → length es ≤ measure s
  unfolding Enabled
  run_bound [] s h = omega arith
  run_bound (e ∷ es) s h =
      omega (arith, run_bound es (handle service e s) (h.1), handle_less e s (h.0))

-- Whatever the map service and the network do, `initPublicConfig` on a new page goes through at most
-- ten events: the answer to its request, the end of the script and the ends of its pauses.
pub startup_ends :
    (service : Service) (zoom limit : ℕ) (es : List Event)
    → Enabled service es (start zoom limit)
    → length es ≤ 10
startup_ends service zoom limit es h = run_bound service es (start zoom limit) h
