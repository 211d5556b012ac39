-- ===== src/Mobile/Screen/Unmount.antt =====
-- mobile/src/App.js: what is left when the component unmounts.
use web_dashboard.Prelude.{
  ℕ, ◌≡◌, refl, ◌∙◌, sym, subst, ap, Bool, true, false, Bool-cases, inl, inr, none, List, [], ◌∷◌,
  arith,
}
use web_dashboard.Mobile.Protocol.{Payload}
use web_dashboard.Mobile.Queue.{Codec, Storage}
use web_dashboard.Mobile.WsClient
use web_dashboard.Mobile.WsClient.{
  Reach, Listeners, start, connects, disconnects, disconnect, opens, receives, closes, errors,
  fires, sends,
}
use web_dashboard.Mobile.WsClient.Orphans.{disconnect_clears}
use web_dashboard.Mobile.Gps.{Device, Permission, request_location_permission}
use web_dashboard.Mobile.Gps.Sources.{Idle, choice, Runs, start-Runs}
use web_dashboard.Mobile.Gps.Calls.{stop-Idle, fresh-Idle}
use web_dashboard.Mobile.Gps.Control
use web_dashboard.Mobile.Gps.Control.{
  Pilots, Control, starts, stops, ios_toggles, android_toggles, permits, fixed, fails,
  start_options, answer_asked, end_question, on_permission, start_gps_watch, asked_at, without,
}
use web_dashboard.Mobile.Gps.Control.Shown.{Shows-OneSource}
use web_dashboard.Mobile.App.{App}
use web_dashboard.Mobile.App.Accounts.{IsSound}
use web_dashboard.Mobile.Screen.{
  Screen, ScreenEvent, connect_pressed, disconnect_pressed, gps, fix, on_socket, note_typed,
  mark_pressed, age_ticks, app_changes, renders, unmounts, enabled, handle, step, run, unmount,
  has_source, first, time_of,
}
use web_dashboard.Mobile.Screen.Sound.{Same, with_ws-Same, ShowsGps, run_accounted}
use web_dashboard.Mobile.Screen.Reached.{run-Reach}

module _ {ℓ ℓ'} {N : Type ℓ} {S : Type ℓ'} where
  -- The component is gone, no question about a permission is open, and nothing delivers fixes or
  -- ticks.
  pub record IsGone (s : Screen N S) : Type 0 where
    pub unmounted : s.mounted ≡ false
    pub stopped : s.age_timer ≡ false
    pub asked_none : s.control.asking ≡ []
    pub idle : Idle s.control.gps

  Same-IsGone : (s t : Screen N S) → Same s t → IsGone s → IsGone t
  Same-IsGone s t v g = record {
    unmounted = v.mounted_same ∙ g.unmounted;
    stopped = v.timer_same ∙ g.stopped;
    asked_none = ap (λ c. c.asking) v.control_same ∙ g.asked_none;
    idle = subst (λ (c : Control). Idle c.gps) (sym v.control_same) g.idle;
  }

  no_source : (s : Screen N S) → IsGone s → has_source s.control.gps ≡ false
  no_source s g = rw (g.idle.watch_id, g.idle.using) refl

never {κ} : (A : Type κ) (b : Bool) → b ≡ true → b ≡ false → A
never A true h k = absurd (ground (arith, k))
never A false h k = absurd (ground (arith, h))

-- An answer to a question that nobody has asked.
nothing_asked :
    (d : Device) (i : ℕ) (answer : Permission → Bool) (c : Control)
    → c.asking ≡ []
    → ((answer_asked d i answer c).asking ≡ []) × ((answer_asked d i answer c).gps ≡ c.gps)
unfolding answer_asked end_question
nothing_asked d i answer c h = rw h (refl, refl)

granted_late :
    (d : Device) (p : Pilots) (answer : Permission → Bool) (c : Control)
    → c.asking ≡ p ∷ []
    → (request_location_permission d p.android_pilot answer).1 ≡ true
    → Idle c.gps
    → Runs (choice d (start_options p)) (answer_asked d 0 answer c).gps
unfolding answer_asked end_question on_permission start_gps_watch
granted_late d p answer c h granted idle =
    rw (h, granted) (start-Runs d (start_options p) c.gps idle)

module _ {ℓ ℓ'} {N : Type ℓ} {S : Type ℓ'} (codec : Codec (Payload N)) (storage : Storage S) where
  gps-IsGone :
      (d : Device) (e : Control.Event) (s : Screen N S)
      → enabled (gps e) s ≡ true
      → IsGone s
      → IsGone (handle codec storage d (gps e) s)
  unfolding handle enabled Control.handle answer_asked end_question
  gps-IsGone d (permits i answer) s h g =
      let (none_asked, same) = nothing_asked d i answer s.control g.asked_none in
      record {
        unmounted = g.unmounted;
        stopped = g.stopped;
        asked_none = none_asked;
        idle = subst Idle (sym same) g.idle;
      }
  gps-IsGone d (fails code) s h g = record {
    unmounted = g.unmounted;
    stopped = g.stopped;
    asked_none = g.asked_none;
    idle = g.idle;
  }
  gps-IsGone d starts s h g = never _ s.mounted h g.unmounted
  gps-IsGone d stops s h g = never _ s.mounted h g.unmounted
  gps-IsGone d ios_toggles s h g = never _ s.mounted h g.unmounted
  gps-IsGone d android_toggles s h g = never _ s.mounted h g.unmounted
  gps-IsGone d fixed s h g = never _ false h refl

  handle-IsGone :
      (d : Device) (e : ScreenEvent N) (s : Screen N S)
      → enabled e s ≡ true
      → IsGone s
      → IsGone (handle codec storage d e s)
  unfolding handle enabled
  handle-IsGone d (gps e) s h g = unfold handle in gps-IsGone d e s h g
  handle-IsGone d (on_socket e) s h g =
      Same-IsGone _ _ (with_ws-Same (time_of e) (WsClient.handle e s.app.ws) s) (record {
        unmounted = g.unmounted;
        stopped = g.stopped;
        asked_none = g.asked_none;
        idle = g.idle;
      })
  handle-IsGone d (fix f now later) s h g = never _ (has_source s.control.gps) h (no_source s g)
  handle-IsGone d (age_ticks now) s h g = never _ s.age_timer h g.stopped
  handle-IsGone d (app_changes next) s h g = record {
    unmounted = g.unmounted;
    stopped = g.stopped;
    asked_none = g.asked_none;
    idle = g.idle;
  }
  handle-IsGone d (connect_pressed url) s h g = never _ s.mounted h g.unmounted
  handle-IsGone d disconnect_pressed s h g = never _ s.mounted h g.unmounted
  handle-IsGone d (note_typed text) s h g = never _ s.mounted h g.unmounted
  handle-IsGone d (mark_pressed now) s h g = never _ s.mounted h g.unmounted
  handle-IsGone d renders s h g = never _ s.mounted h g.unmounted
  handle-IsGone d unmounts s h g = never _ s.mounted h g.unmounted

  run-IsGone :
      (d : Device) (es : List (ScreenEvent N)) (s : Screen N S)
      → IsGone s
      → IsGone (run codec storage d es s)
  unfolding run step
  run-IsGone d [] s g = g
  run-IsGone d (e ∷ es) s g = elim (Bool-cases (enabled e s)) [
    | inl can ↦ run-IsGone d es _ (rw (can, step) (handle-IsGone d e s can g))
    | inr not_now ↦ run-IsGone d es _ (rw (not_now, step) g)
  ]

  -- The run up to the unmount, and the unmount.
  abbrev before : Device → App N S → List (ScreenEvent N) → Screen N S
  before d app es = run codec storage d es (first d app)

  abbrev after : Device → App N S → List (ScreenEvent N) → Screen N S
  after d app es = handle codec storage d unmounts (before d app es)

  first-ShowsGps : (d : Device) (app : App N S) → ShowsGps (first d app)
  unfolding first Control.first ShowsGps
  first-ShowsGps d app h = fresh-Idle

  unmounted-Idle :
      (d : Device) (app : App N S) (es : List (ScreenEvent N))
      → IsSound app
      → (before d app es).mounted ≡ true
      → Idle (after d app es).control.gps
  unfolding handle unmount
  unmounted-Idle d app es sound up =
      let s = before d app es in
      let (_, _, shows) =
        run_accounted codec storage d es (first d app) (unfold first in sound)
          (first-ShowsGps d app) in
      stop-Idle s.control.gps
        (Shows-OneSource s.control.gps_running s.control.gps (unfold ShowsGps in shows up))

  -- When the component unmounts after any run from its first render, with the queue loaded and no
  -- question about a permission open: no timer of its socket client is pending, the client holds no
  -- socket, and the listener of the phone's state is removed; and whatever comes later, no source
  -- delivers fixes and the interval does not tick again.
  pub unmount_quiet :
      (l : Listeners) (d : Device) (app : App N S) (es later : List (ScreenEvent N))
      → Reach (start l) app.ws
      → IsSound app
      → (before d app es).mounted ≡ true
      → (before d app es).control.asking ≡ []
      → let t = after d app es in
        let u = run codec storage d later t in
        ((k : ℕ) → t.app.ws.host.timers k ≡ none)
        × (t.app.ws.client.ws ≡ none)
        × (t.listening ≡ false)
        × Idle u.control.gps
        × (u.age_timer ≡ false)
  unfolding handle unmount
  unmount_quiet l d app es later r sound up asked =
      let s = before d app es in
      let (no_timer, no_socket, _) =
        disconnect_clears l
          (run-Reach (start l) codec storage d es (first d app) (unfold first in r)) in
      let gone = run-IsGone d later (after d app es) (record {
        unmounted = refl;
        stopped = refl;
        asked_none = asked;
        idle = unmounted-Idle d app es sound up;
      }) in
      (no_timer, no_socket, refl, gone.idle, gone.stopped)

  -- When a question about a permission is open at the unmount, nothing delivers fixes at first, but the
  -- user's consent then starts a source, which nothing stops: the component is gone.
  pub late_answer :
      (d : Device) (app : App N S) (es : List (ScreenEvent N)) (p : Pilots)
      (answer : Permission → Bool)
      → IsSound app
      → (before d app es).mounted ≡ true
      → (before d app es).control.asking ≡ p ∷ []
      → (request_location_permission d p.android_pilot answer).1 ≡ true
      → let t = after d app es in
        let u = step codec storage d (gps (permits 0 answer)) t in
        Idle t.control.gps × Runs (choice d (start_options p)) u.control.gps × (u.mounted ≡ false)
  unfolding step enabled handle unmount Control.handle
  late_answer d app es p answer sound up asked granted =
      let t = after d app es in
      let idle = unmounted-Idle d app es sound up in
      (idle, granted_late d p answer t.control asked granted idle, refl)
