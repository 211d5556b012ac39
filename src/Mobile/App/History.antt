-- ===== src/Mobile/App/History.antt =====
-- The account of the fixes over any history of the app (mobile/src/App.js).
use web_dashboard.Prelude.{
  ℕ, String, suc, ◌+◌, ◌≡◌, refl, ap, Bool, true, false, none, some, List, [], ◌∷◌, arith, All,
  Option-cases, inl, inr,
}
use web_dashboard.Host.{Timer, timeout, interval}
use web_dashboard.Mobile.Protocol.{Payload, create_ping_payload, create_mark_payload}
use web_dashboard.Mobile.Queue.{Codec, Storage}
use web_dashboard.Mobile.WsClient.{
  State, Event, connects, disconnects, sends, opens, receives, closes, errors, fires, handle,
  send_json, on_timer, on_ping,
}
use web_dashboard.Mobile.App.{
  App, AppEvent, fixes, marks, connected, net, app_step, app_run, send_mark, on_connected,
}
use web_dashboard.Mobile.App.Accounts.{
  frames, accounted, IsSound, Keeps, uplink-Keeps, flush-Keeps, send_json_adds, weight,
}

-- Nothing but a call of `sendJson` is a `sends`, and the app makes those calls itself.
abbrev pub is_call {ℓ} : {N : Type ℓ} → AppEvent N → Bool
is_call (net (sends p)) = true
is_call _ = false

abbrev pub count_fixes {ℓ} : {N : Type ℓ} → List (AppEvent N) → ℕ
count_fixes [] = 0
count_fixes (fixes fix now later ∷ es) = suc (count_fixes es)
count_fixes (e ∷ es) = count_fixes es

count_fixes-cons {ℓ} :
    {N : Type ℓ} (e : AppEvent N) (es : List (AppEvent N))
    → count_fixes (e ∷ es) ≡ count_fixes (e ∷ []) + count_fixes es
count_fixes-cons (fixes fix now later) es = omega arith
count_fixes-cons (marks note now) es = omega arith
count_fixes-cons connected es = omega arith
count_fixes-cons (net e) es = omega arith

module _ {ℓ} {N : Type ℓ} where
  weightless : (p : Payload N) (w : State N) → weight p ≡ 0 → frames (send_json p w).0 ≡ frames w
  weightless p w h = elim (send_json_adds p w) [
    | inl (_, n) ↦ omega (arith, n)
    | inr e ↦ ap (λ r. frames r.0) e
  ]

  on_ping-frames : (now : ℕ) (w : State N) → frames (on_ping now w) ≡ frames w
  unfolding on_ping
  on_ping-frames now w = ground (
    arith,
    weightless (create_ping_payload now)
        (record w { client = record (w.client) { last_ping_at_ms = some now } }) refl,
  )

  on_timer-frames : (id now : ℕ) (w : State N) → frames (on_timer id now w) ≡ frames w
  unfolding on_timer
  on_timer-frames id now w = elim (Option-cases (w.host.timers id)) [
    | inl e ↦ rw (e, on_timer) refl
    | inr (t, e) ↦ fired t e
  ]
    where
      fired : (t : Timer) → w.host.timers id ≡ some t → frames (on_timer id now w) ≡ frames w
      fired (timeout d) e = rw (e, on_timer) (ground arith)
      fired (interval d) e = rw (e, on_timer) (on_ping-frames now w)

  net-frames :
      (e : Event N) (w : State N) → is_call (net e) ≡ false → frames (handle e w) ≡ frames w
  net-frames (connects url) w h = unfold handle in ground arith
  net-frames disconnects w h = unfold handle in ground arith
  net-frames (sends p) w h = cc
  net-frames (opens id) w h = unfold handle in ground arith
  net-frames (receives id now none) w h = unfold handle in refl
  net-frames (receives id now (some none)) w h = unfold handle in refl
  net-frames (receives id now (some (some m))) w h = unfold handle in ground arith
  net-frames (closes id) w h = unfold handle in ground arith
  net-frames (errors id) w h = unfold handle in refl
  net-frames (fires id now) w h = unfold handle in (on_timer-frames id now w)

module _ {ℓ ℓ'} {N : Type ℓ} {S : Type ℓ'} (codec : Codec (Payload N)) (storage : Storage S) where
  mark-Keeps :
      (note : String) (now : ℕ) (a : App N S)
      → IsSound a
      → Keeps codec storage (accounted a) (send_mark note now a)
  unfolding send_mark create_mark_payload
  mark-Keeps note now a v = (
    omega (arith, weightless (create_mark_payload note now) a.ws refl),
    record { loaded = v.loaded; idle = v.idle; fixes = v.fixes },
  )

  pub app_step-Keeps :
      (e : AppEvent N) (a : App N S)
      → is_call e ≡ false
      → IsSound a
      → Keeps codec storage (accounted a + count_fixes (e ∷ [])) (app_step codec storage e a)
  unfolding app_step
  app_step-Keeps (fixes fix now later) a c v = uplink-Keeps codec storage fix now later a v
  app_step-Keeps (marks note now) a c v =
      let (sum, sound) = mark-Keeps note now a v in (omega (arith, sum), sound)
  app_step-Keeps connected a c v =
      let (sum, sound) = flush-Keeps codec storage a v in
      (unfold on_connected in omega (arith, sum), unfold on_connected in sound)
  app_step-Keeps (net e) a c v = (
    omega (arith, net-frames e a.ws c),
    record { loaded = v.loaded; idle = v.idle; fixes = v.fixes },
  )

  -- Over any history of fixes, marks, flushes and socket calls and events, in any order, that starts
  -- with the queue loaded and holding fixes only: the frames that are fixes, the queue's length and
  -- its count of dropped payloads together grow by exactly one for each fix, and the queue still holds
  -- fixes only.
  pub fixes_accounted :
      (es : List (AppEvent N)) (a : App N S)
      → All (λ e. is_call e ≡ false) es
      → IsSound a
      → (accounted (app_run codec storage es a) ≡ accounted a + count_fixes es)
        × IsSound (app_run codec storage es a)
  unfolding app_run
  fixes_accounted [] a c v = (omega arith, v)
  fixes_accounted (e ∷ es) a c v =
      let (sum, sound) = app_step-Keeps e a c.0 v in
      let (total, still) = fixes_accounted es (app_step codec storage e a) c.1 sound in
      (omega (arith, sum, total, count_fixes-cons e es), still)
