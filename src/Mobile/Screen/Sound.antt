-- ===== src/Mobile/Screen/Sound.antt =====
-- mobile/src/App.js: the fixes and the GPS buttons of the whole component.
use web_dashboard.Prelude.{
  ℕ, ◌+◌, ◌≡◌, refl, ◌∙◌, sym, subst, true, false, Bool-cases, inl, inr, List, [], ◌∷◌, arith,
  if◌then◌else◌,
}
use web_dashboard.Mobile.Protocol.{Payload}
use web_dashboard.Mobile.Queue.{Codec, Storage}
use web_dashboard.Mobile.WsClient
use web_dashboard.Mobile.WsClient.{
  State, Callback, on_state, on_frame, on_rtt, connects, disconnects, sends, opens, receives,
  closes, errors, fires, connect, disconnect,
}
use web_dashboard.Mobile.Gps.{Device}
use web_dashboard.Mobile.Gps.Control.{fixed}
use web_dashboard.Mobile.Gps.Control.Shown.{Shows, handle-Shows}
use web_dashboard.Mobile.App.{App, fixes, marks, net, connected, on_connected}
use web_dashboard.Mobile.App
use web_dashboard.Mobile.App.Accounts.{accounted, IsSound, Keeps}
use web_dashboard.Mobile.App.History.{app_step-Keeps, is_call}
use web_dashboard.Mobile.Screen.{
  Screen, ScreenEvent, connect_pressed, disconnect_pressed, gps, fix, on_socket, note_typed,
  mark_pressed, age_ticks, app_changes, renders, unmounts, call_back, call_back_all, added, with_ws,
  time_of, from_runtime, enabled, run_effects, handle, step, run, unmount, is_connected, same_phase,
  age_tick,
}

module _ {ℓ ℓ'} {N : Type ℓ} {S : Type ℓ'} where
  -- What no callback of the socket client changes.
  pub record Same (s t : Screen N S) : Type (ℓ ⊔ ℓ') where
    pub app_same : t.app ≡ s.app
    pub control_same : t.control ≡ s.control
    pub mounted_same : t.mounted ≡ s.mounted
    pub timer_same : t.age_timer ≡ s.age_timer

  Same-refl : (s : Screen N S) → Same s s
  Same-refl s = record {
    app_same = refl;
    control_same = refl;
    mounted_same = refl;
    timer_same = refl;
  }

  call_back-Same :
      (now : ℕ) (c : Callback N) (s t : Screen N S) → Same s t → Same s (call_back now c t)
  unfolding call_back
  call_back-Same now (on_state p) s t v = record {
    app_same = v.app_same;
    control_same = v.control_same;
    mounted_same = v.mounted_same;
    timer_same = v.timer_same;
  }
  call_back-Same now (on_frame f) s t v = record {
    app_same = v.app_same;
    control_same = v.control_same;
    mounted_same = v.mounted_same;
    timer_same = v.timer_same;
  }
  call_back-Same now (on_rtt ms) s t v = record {
    app_same = v.app_same;
    control_same = v.control_same;
    mounted_same = v.mounted_same;
    timer_same = v.timer_same;
  }

  call_back_all-Same :
      (now : ℕ) (cs : List (Callback N)) (s : Screen N S) → Same s (call_back_all now cs s)
  unfolding call_back_all
  call_back_all-Same now [] s = Same-refl s
  call_back_all-Same now (c ∷ cs) s =
      call_back-Same now c s (call_back_all now cs s) (call_back_all-Same now cs s)

  pub with_ws-Same :
      (now : ℕ) (ws : State N) (s : Screen N S)
      → Same (record s { app = record (s.app) { ws = ws } }) (with_ws now ws s)
  unfolding with_ws
  with_ws-Same now ws s = call_back_all-Same now (added s.app.ws ws) _

  -- While the app is mounted, the GPS button shows what runs.
  unfoldable pub ShowsGps : Screen N S → Type 0
  ShowsGps s = s.mounted ≡ true → Shows s.control.gps_running s.control.gps

-- 1 for a fix.
abbrev pub fix_count {ℓ} : {N : Type ℓ} → ScreenEvent N → ℕ
fix_count (fix f now later) = 1
fix_count _ = 0

module _ {ℓ ℓ'} {N : Type ℓ} {S : Type ℓ'} (codec : Codec (Payload N)) (storage : Storage S) where
  -- How many of the events are fixes that come from a running source.
  unfoldable pub delivered : Device → List (ScreenEvent N) → Screen N S → ℕ
  delivered d [] s = 0
  delivered d (e ∷ es) s =
      let rest = delivered d es (step codec storage d e s) in
      (if enabled e s then fix_count e else 0) + rest

  IsGood : ℕ → Screen N S → Type 0
  IsGood n s = Keeps codec storage n s.app × ShowsGps s

  Same-IsGood : (n : ℕ) (s t : Screen N S) → Same s t → IsGood n s → IsGood n t
  unfolding IsGood ShowsGps
  Same-IsGood n s t v (keeps, shows) = (
    subst (Keeps codec storage n) (sym v.app_same) keeps,
    λ m.
        subst (λ c. Shows c.gps_running c.gps) (sym v.control_same)
          (shows (sym v.mounted_same ∙ m)),
  )

  ws-IsGood :
      (e : WsClient.Event N) (now : ℕ) (s : Screen N S)
      → is_call (net e) ≡ false
      → IsSound s.app
      → ShowsGps s
      → IsGood (accounted s.app + 0) (with_ws now (WsClient.handle e s.app.ws) s)
  unfolding IsGood ShowsGps App.app_step
  ws-IsGood e now s c sound shows =
      Same-IsGood _ _ _ (with_ws-Same now (WsClient.handle e s.app.ws) s)
        (app_step-Keeps codec storage (net e) s.app c sound, shows)

  runtime-call : (e : WsClient.Event N) → from_runtime e ≡ true → is_call (net e) ≡ false
  runtime-call (sends p) h = ground (arith, h)
  runtime-call (connects url) h = refl
  runtime-call disconnects h = refl
  runtime-call (opens id) h = refl
  runtime-call (receives id now raw) h = refl
  runtime-call (closes id) h = refl
  runtime-call (errors id) h = refl
  runtime-call (fires id now) h = refl

  effects-IsGood :
      (s : Screen N S)
      → IsSound s.app
      → ShowsGps s
      → IsGood (accounted s.app + 0) (run_effects codec storage s)
  unfolding IsGood ShowsGps run_effects App.app_step
  effects-IsGood s sound shows =
      let (sum, still) = app_step-Keeps codec storage connected s.app refl sound in
      let unchanged : Keeps codec storage (accounted s.app + 0) s.app = (omega arith, sound) in
      elim (Bool-cases (same_phase s.effect_state s.connection_state)) [
        | inl seen ↦ rw seen (unchanged, shows)
        | inr new ↦ elim (Bool-cases (is_connected s.connection_state)) [
          | inl up ↦ rw (new, up) ((sum, still), shows)
          | inr down ↦ rw (new, down) (unchanged, shows)
        ]
      ]

  handle-IsGood :
      (d : Device) (e : ScreenEvent N) (s : Screen N S)
      → enabled e s ≡ true
      → IsSound s.app
      → ShowsGps s
      → IsGood (accounted s.app + fix_count e) (handle codec storage d e s)
  unfolding handle
  handle-IsGood d (connect_pressed url) s h sound shows =
      unfold WsClient.handle in ws-IsGood (connects url) 0 s refl sound shows
  handle-IsGood d disconnect_pressed s h sound shows =
      unfold WsClient.handle in ws-IsGood disconnects 0 s refl sound shows
  handle-IsGood d (gps e) s h sound shows =
      unfold IsGood ShowsGps in ((omega arith, sound), λ m. handle-Shows d e s.control (shows m))
  handle-IsGood d (fix f now later) s h sound shows =
      unfold IsGood ShowsGps App.app_step in
      (
        app_step-Keeps codec storage (fixes f now later) s.app refl sound,
        λ m. handle-Shows d fixed s.control (shows m),
      )
  handle-IsGood d (on_socket e) s h sound shows =
      ws-IsGood e (time_of e) s (runtime-call e (unfold enabled in ground (arith, h))) sound shows
  handle-IsGood d (note_typed text) s h sound shows =
      unfold IsGood ShowsGps in ((omega arith, sound), shows)
  handle-IsGood d (mark_pressed now) s h sound shows =
      unfold IsGood ShowsGps App.app_step in
      (app_step-Keeps codec storage (marks s.mark_note now) s.app refl sound, shows)
  handle-IsGood d (age_ticks now) s h sound shows =
      unfold IsGood ShowsGps age_tick in ((omega arith, sound), shows)
  handle-IsGood d (app_changes next) s h sound shows =
      unfold IsGood ShowsGps in
      (
        (omega arith, record { loaded = sound.loaded; idle = sound.idle; fixes = sound.fixes }),
        shows,
      )
  handle-IsGood d renders s h sound shows = effects-IsGood s sound shows
  handle-IsGood d unmounts s h sound shows =
      unfold IsGood ShowsGps unmount App.app_step WsClient.handle in
      (app_step-Keeps codec storage (net disconnects) s.app refl sound, λ m. ground (arith, m))

  step-IsGood :
      (d : Device) (e : ScreenEvent N) (s : Screen N S)
      → IsSound s.app
      → ShowsGps s
      → IsGood
          (accounted s.app + (if enabled e s then fix_count e else 0))
          (step codec storage d e s)
  unfolding step IsGood
  step-IsGood d e s sound shows = elim (Bool-cases (enabled e s)) [
    | inl can ↦ rw can (handle-IsGood d e s can sound shows)
    | inr not_now ↦ rw not_now ((omega arith, sound), shows)
  ]

  -- Over any events of the whole component, in any order, from one where the queue is loaded and holds
  -- fixes only and the GPS button shows what runs: the frames that are fixes, the queue's length and
  -- its count of dropped payloads together grow by exactly one for each fix that a running source
  -- delivers, the queue still holds fixes only, and, while the app is mounted, the GPS button still
  -- shows whether a source of fixes runs.
  pub run_accounted :
      (d : Device) (es : List (ScreenEvent N)) (s : Screen N S)
      → IsSound s.app
      → ShowsGps s
      → let t = run codec storage d es s in
        (accounted t.app ≡ accounted s.app + delivered d es s) × IsSound t.app × ShowsGps t
  unfolding run delivered IsGood
  run_accounted d [] s sound shows = (omega arith, sound, shows)
  run_accounted d (e ∷ es) s sound shows =
      let ((sum, still), shown) = step-IsGood d e s sound shows in
      let (total, last, button) = run_accounted d es (step codec storage d e s) still shown in
      (omega (arith, sum, total), last, button)
