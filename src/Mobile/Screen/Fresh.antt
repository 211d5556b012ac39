-- ===== src/Mobile/Screen/Fresh.antt =====
-- mobile/src/App.js: how long the component shows a frame as fresh.
use web_dashboard.Prelude.{
  ℕ, ◌-◌, ◌≡◌, refl, ◌∙◌, ap, true, false, Bool-cases, inl, inr, some, List, [], ◌∷◌, arith,
  if-holds, ltb, leb, ◌==◌, All, sub_ℕ,
}
use web_dashboard.Wire.{Message, is_frame}
use web_dashboard.Mobile.Protocol.{Payload}
use web_dashboard.Mobile.Queue.{Codec, Storage}
use web_dashboard.Mobile.WsClient
use web_dashboard.Mobile.WsClient.{
  State, Callback, on_state, on_frame, on_rtt, connects, disconnects, sends, opens, receives,
  closes, errors, fires, connect, disconnect, on_open, on_close, on_receive, on_timer, take_message,
  is_pong, emit_state, lose, schedule_reconnect, on_ping, open_socket, told, has_url, send_json,
  awaited_ping,
}
use web_dashboard.Mobile.Gps.{Device}
use web_dashboard.Mobile.Screen.{
  Screen, ScreenEvent, connect_pressed, disconnect_pressed, gps, fix, on_socket, note_typed,
  mark_pressed, age_ticks, app_changes, renders, unmounts, with_ws, enabled, handle, step, run,
  unmount, time_of, call_back, call_back_all, stale_can, age, age_tick, above, run_effects,
  same_phase,
}
use web_dashboard.Mobile.Screen.Told.{
  brings_frame, is_no_frame, Told, handle-Told, added_none, added_one, frame_told,
}

above_sub : (bound a b : ℕ) → above bound (sub_ℕ a b) ≡ ltb bound (a - b)
above_sub bound a b = elim (Bool-cases (leb b a)) [
  | inl h ↦ rw h refl
  | inr h ↦ rw h (ground (arith, h))
]

age_known : (now t : ℕ) → ltb 0 t ≡ true → age now (some t) ≡ some (sub_ℕ now t)
age_known now t h = let set : (t == 0) ≡ false = ground (arith, h) in rw set refl

module _ {ℓ ℓ'} {N : Type ℓ} {S : Type ℓ'} where
  call_back_other :
      (now : ℕ) (c : Callback N) (s : Screen N S)
      → is_no_frame c ≡ true
      → (call_back now c s).last_frame_at ≡ s.last_frame_at
  unfolding call_back
  call_back_other now (on_state p) s h = refl
  call_back_other now (on_frame m) s h = ground (arith, h)
  call_back_other now (on_rtt ms) s h = refl

  with_ws_other :
      (now : ℕ) (ws : State N) (s : Screen N S)
      → Told s.app.ws.calls ws.calls
      → (with_ws now ws s).last_frame_at ≡ s.last_frame_at
  unfolding with_ws call_back_all Told
  with_ws_other now ws s (inl same) =
      ap
        (λ cs. (call_back_all now cs (record s { app = record (s.app) { ws = ws } })).last_frame_at)
        (added_none s.app.ws ws same)
  with_ws_other now ws s (inr (c, other, one)) =
      ap
        (λ cs. (call_back_all now cs (record s { app = record (s.app) { ws = ws } })).last_frame_at)
        (added_one s.app.ws ws c one)
      ∙ call_back_other now c (record s { app = record (s.app) { ws = ws } }) other

  with_ws_frame :
      (now : ℕ) (m : Message N) (ws : State N) (s : Screen N S)
      → ws.calls ≡ on_frame m ∷ s.app.ws.calls
      → (with_ws now ws s).last_frame_at ≡ some now
  unfolding with_ws call_back_all call_back
  with_ws_frame now m ws s one =
      ap
        (λ cs. (call_back_all now cs (record s { app = record (s.app) { ws = ws } })).last_frame_at)
        (added_one s.app.ws ws (on_frame m) one)

  module _ (codec : Codec (Payload N)) (storage : Storage S) where
    effects_other : (s : Screen N S) → (run_effects codec storage s).last_frame_at ≡ s.last_frame_at
    unfolding run_effects
    effects_other s =
        if-holds (λ (x : Screen N S). x.last_frame_at ≡ s.last_frame_at)
          (same_phase s.effect_state s.connection_state) _ _ refl refl

    handle_other :
        (d : Device) (e : ScreenEvent N) (s : Screen N S)
        → brings_frame e ≡ false
        → (handle codec storage d e s).last_frame_at ≡ s.last_frame_at
    unfolding handle unmount age_tick
    handle_other d (connect_pressed url) s h =
        unfold WsClient.handle in with_ws_other 0 _ s (handle-Told (connects url) s.app.ws refl)
    handle_other d disconnect_pressed s h =
        unfold WsClient.handle in with_ws_other 0 _ s (handle-Told disconnects s.app.ws refl)
    handle_other d (gps e) s h = refl
    handle_other d (fix f now later) s h = refl
    handle_other d (on_socket e) s h = with_ws_other (time_of e) _ s (handle-Told e s.app.ws h)
    handle_other d (note_typed text) s h = refl
    handle_other d (mark_pressed now) s h = refl
    handle_other d (age_ticks now) s h = refl
    handle_other d (app_changes next) s h = refl
    handle_other d renders s h = effects_other s
    handle_other d unmounts s h = refl

    run_other :
        (d : Device) (es : List (ScreenEvent N)) (s : Screen N S)
        → All (λ e. brings_frame e ≡ false) es
        → (run codec storage d es s).last_frame_at ≡ s.last_frame_at
    unfolding run step
    run_other d [] s h = refl
    run_other d (e ∷ es) s h =
        run_other d es (step codec storage d e s) h.1
        ∙ if-holds (λ (x : Screen N S). x.last_frame_at ≡ s.last_frame_at) (enabled e s) _ _
            (handle_other d e s h.0) refl

    frame_taken :
        (d : Device) (s : Screen N S) (id now : ℕ) (m : Message N)
        → s.app.ws.client.listens.frame ≡ true
        → is_frame m ≡ true
        → is_pong m ≡ false
        → (handle codec storage d (on_socket (receives id now (some (some m)))) s).last_frame_at
          ≡ some now
    unfolding handle WsClient.handle on_receive
    frame_taken d s id now m heard whole other =
        with_ws_frame now m (take_message now m s.app.ws) s
          (frame_told now m s.app.ws heard whole other)

    stale_at :
        (d : Device) (t : Screen N S) (now later : ℕ)
        → ltb 0 now ≡ true
        → t.last_frame_at ≡ some now
        → t.age_timer ≡ true
        → stale_can (step codec storage d (age_ticks later) t) ≡ ltb 1500 (later - now)
    unfolding stale_can step enabled handle age_tick
    stale_at d t now later set last ticking =
        rw (ticking, last, age_known later now set) (above_sub 1500 later now)

    -- When a frame comes at `now` over an open socket, and then any events but another frame, the CAN
    -- line of the view is fresh at each tick up to 1500 milliseconds after `now` and stale at each
    -- later one, whatever becomes of the connection, as long as the interval runs.
    pub frame_stays_fresh :
        (d : Device) (s : Screen N S) (id now later : ℕ) (m : Message N) (es : List (ScreenEvent N))
        → enabled (on_socket (receives id now (some (some m)))) s ≡ true
        → s.app.ws.client.listens.frame ≡ true
        → is_frame m ≡ true
        → is_pong m ≡ false
        → ltb 0 now ≡ true
        → All (λ e. brings_frame e ≡ false) es
        → let t = run codec storage d (on_socket (receives id now (some (some m))) ∷ es) s in
          t.age_timer ≡ true
          → stale_can (step codec storage d (age_ticks later) t) ≡ ltb 1500 (later - now)
    unfolding run step
    frame_stays_fresh d s id now later m es can heard whole other set rest ticking =
        let e = on_socket (receives id now (some (some m))) in
        let t = run codec storage d (e ∷ es) s in
        let taken : (step codec storage d e s).last_frame_at ≡ some now =
          rw can (frame_taken d s id now m heard whole other) in
        stale_at d t now later set (run_other d es (step codec storage d e s) rest ∙ taken) ticking
