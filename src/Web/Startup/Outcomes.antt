-- ===== src/Web/Startup/Outcomes.antt =====
-- client/naver-map.js, client/naver-roadview.js: what the start of the page comes to when the script
-- of the map service fails, and when the panorama cannot be made at once.
use text.Mathlib.Text.{◌==◌ as str_eq}
use web_dashboard.Prelude.{
  ℕ, zero, suc, ◌+◌, ◌<◌, ◌≤◌, ◌≡◌, refl, ap, ◌∙◌, sym, subst, true, false, none, some, String,
  List, [], ◌∷◌, arith, lt→ltb, if◌then◌else◌,
}
use web_dashboard.Web.Map.{map_ready, failed_init, new as new_map}
use web_dashboard.Web.Roadview.{new as new_roadview}
use web_dashboard.Web.Startup.{
  Service, answered, sleeping, finished, Startup, in_progress, ready, init_failed, load_failed,
  loading, loaded, map_waits, load_script, finish, attempted, roadview_goes_on, roadview_init,
  map_goes_on, init, on_config, on_load, on_error, on_wake, Event, config_comes, script_loads,
  script_fails, wakes, enabled, is_fetching, is_loading, is_sleeping, handle, run, start,
}

none_enabled :
    (e : Event) (s : Startup)
    → is_fetching s.stage ≡ false
    → is_loading s.script ≡ false
    → is_sleeping s.stage ≡ false
    → enabled e s ≡ false
none_enabled (config_comes c) s f l w = f
none_enabled script_loads s f l w = l
none_enabled script_fails s f l w = l
none_enabled wakes s f l w = w

-- A client id and a script that fails to load: the map says so, but the panorama's `init` then waits
-- for another event of the same element, and there is none. No further event can come: its status
-- stays that of the loading, and the layout is not fitted again.
pub failed_script_hangs :
    (service : Service) (zoom limit : ℕ) (id : String)
    → str_eq id "" ≡ false
    → let s =
        run service (config_comes (answered (some id)) ∷ script_fails ∷ []) (start zoom limit) in
      (s.map.hint ≡ some (failed_init load_failed))
      × (s.status ≡ some in_progress)
      × (s.fits ≡ 0)
      × ((e : Event) → enabled e s ≡ false)
unfolding run handle on_config init load_script on_error roadview_init roadview_goes_on new_map
    new_roadview
failed_script_hangs service zoom limit id given =
    rw given (refl, refl, refl, λ e. none_enabled e _ refl refl refl)

-- The end of `n` pauses.
abbrev pub pauses : ℕ → List Event
pauses zero = []
pauses (suc n) = wakes ∷ pauses n

-- Both views are ready, and the layout was fitted once more.
pub record IsReady (s : Startup) : Type 0 where
  pub map : s.map.ready ≡ true
  pub roadview : s.roadview.ready ≡ true
  pub status : s.status ≡ some ready
  pub stage : s.stage ≡ finished
  pub fits : s.fits ≡ 1

-- While the panorama is tried.
record IsTrying (i : ℕ) (s : Startup) : Type 0 where
  err : String
  map : s.map.ready ≡ true
  stage : s.stage ≡ sleeping i err
  fits : s.fits ≡ 0

module _ (service : Service) (k : ℕ) where
  -- The panorama is made at the attempt `k`, counted from nought, and not before.
  pub record MadeAt : Type 0 where
    pub before : (i : ℕ) → i < k → (err : String) × (service.makes_panorama i ≡ some err)
    pub made : service.makes_panorama k ≡ none

  wake_lem :
      (i : ℕ) (s : Startup)
      → IsTrying i s
      → i < 5
      → handle service wakes s ≡ attempted service (service.makes_panorama i) i s
  unfolding handle on_wake
  wake_lem i s t h =
      ap (λ st. on_wake service st s) t.stage
      ∙ ap
          (λ b.
            if b
            then attempted service (service.makes_panorama i) i s
            else finish (init_failed t.err) s)
          (lt→ltb i 5 h)

  made_ready :
      (i : ℕ) (s : Startup) → s.map.ready ≡ true → s.fits ≡ 0 → IsReady (attempted service none i s)
  unfolding attempted finish
  made_ready i s m f = record {
    map = m;
    roadview = refl;
    status = refl;
    stage = refl;
    fits = ap suc f;
  }

  more_pauses :
      (n i : ℕ) (s : Startup)
      → MadeAt
      → k ≤ 4
      → i + n ≡ k
      → IsTrying i s
      → IsReady (run service (pauses (suc n)) s)
  unfolding run attempted
  more_pauses zero i s m h e t =
      let at_k : i ≡ k = omega arith in
      let step =
        wake_lem i s t (omega arith)
        ∙ ap (λ o. attempted service o i s) (ap service.makes_panorama at_k ∙ m.made) in
      subst IsReady (sym step) (made_ready i s t.map t.fits)
  more_pauses (suc n) i s m h e t =
      let (err, failed) = m.before i (omega arith) in
      let step = wake_lem i s t (omega arith) ∙ ap (λ o. attempted service o i s) failed in
      subst (λ s'. IsReady (run service (pauses (suc n)) s')) (sym step)
        (more_pauses n (suc i) (attempted service (some err) i s) m h (omega arith)
          (record { err = err; map = t.map; stage = refl; fits = t.fits }))

  tried_once :
      (n : ℕ) (s : Startup) (err : String)
      → MadeAt
      → k ≤ 4
      → suc n ≡ k
      → s.map.ready ≡ true
      → s.fits ≡ 0
      → IsReady (run service (pauses (suc n)) (attempted service (some err) 0 s))
  unfolding attempted
  tried_once n s err m h e mr f =
      more_pauses n 1 (attempted service (some err) 0 s) m h (omega arith)
        (record { err = err; map = mr; stage = refl; fits = f })

  -- The first attempt, in a state with the map, and the `n` that may follow.
  first_tried :
      (n : ℕ) (s : Startup)
      → MadeAt
      → k ≤ 4
      → n ≡ k
      → s.map.ready ≡ true
      → s.fits ≡ 0
      → IsReady (run service (pauses n) (attempted service (service.makes_panorama 0) 0 s))
  unfolding run
  first_tried zero s m h e mr f =
      subst (λ o. IsReady (attempted service o 0 s)) (sym (ap service.makes_panorama e ∙ m.made))
        (made_ready 0 s mr f)
  first_tried (suc n) s m h e mr f =
      let (err, failed) = m.before 0 (omega arith) in
      subst (λ o. IsReady (run service (pauses (suc n)) (attempted service o 0 s))) (sym failed)
        (tried_once n s err m h e mr f)

-- The page while the map's `init` waits for the script, and when the panorama is first tried.
abbrev waiting : ℕ → ℕ → Startup
waiting zoom limit = record (start zoom limit) { script = loading; stage = map_waits }

abbrev trying : ℕ → ℕ → Startup
trying zoom limit = record (start zoom limit) {
  script = loaded;
  stage = map_waits;
  maps_defined = true;
  map = record (new_map false zoom limit) { ready = true; hint = some map_ready };
  status = some in_progress;
}

config_given :
    (service : Service) (zoom limit : ℕ) (id : String)
    → str_eq id "" ≡ false
    → handle service (config_comes (answered (some id))) (start zoom limit) ≡ waiting zoom limit
unfolding handle on_config init load_script
config_given service zoom limit id given = rw given refl

loads_map :
    (service : Service) (zoom limit : ℕ)
    → service.defines_maps ≡ true
    → service.makes_map ≡ none
    → handle service script_loads (waiting zoom limit)
      ≡ attempted service (service.makes_panorama 0) 0 (trying zoom limit)
unfolding handle on_load map_goes_on roadview_init roadview_goes_on new_map
loads_map service zoom limit defines makes = rw (defines, makes) refl

-- With a client id, a script that loads and defines the service, a map that is made, and a panorama
-- that is made at one of the first five attempts: the answer to the request, the loading of the script
-- and a pause after each failed attempt lead to a map and a panorama that are ready.
pub panorama_retried :
    (service : Service) (k zoom limit : ℕ) (id : String)
    → str_eq id "" ≡ false
    → service.defines_maps ≡ true
    → service.makes_map ≡ none
    → MadeAt service k
    → k ≤ 4
    → IsReady (
        run service
          (config_comes (answered (some id)) ∷ script_loads ∷ pauses k)
          (start zoom limit))
unfolding run new_map
panorama_retried service k zoom limit id given defines makes m h =
    let loaded_from = λ (s : Startup). run service (pauses k) (handle service script_loads s) in
    subst (λ s. IsReady (loaded_from s)) (sym (config_given service zoom limit id given))
      (subst (λ s. IsReady (run service (pauses k) s))
        (sym (loads_map service zoom limit defines makes))
        (first_tried service k k (trying zoom limit) m h refl refl refl))
