-- ===== src/Mobile/Screen/Reached.antt =====
-- mobile/src/App.js: the whole component uses its socket client by calls and events alone.
use web_dashboard.Prelude.{
  ℕ, suc, ◌≡◌, ◌⊎◌, refl, sym, subst, true, Bool-cases, inl, inr, some, List, [], ◌∷◌, arith,
  if-holds, ltb, not, ◌||◌,
}
use web_dashboard.Mobile.Protocol.{Payload, Fix, create_gps_payload}
use web_dashboard.Mobile.Queue.{
  Codec, Storage, drain, flush, settle, accepted, declined, Queue, Drained, Flushed,
}
use web_dashboard.Mobile.Queue.Drain.{drain-limit, drain_accepted, drain_declined}
use web_dashboard.Mobile.WsClient
use web_dashboard.Mobile.WsClient.{
  State, Reach, here, next, sends, connects, disconnects, connect, disconnect, send_json,
  is_open_now,
}
use web_dashboard.Mobile.Gps.{Device}
use web_dashboard.Mobile.App.{
  App, build_meta, send_queued, flush_queued_gps, send_gps_uplink, send_mark, on_connected,
}
use web_dashboard.Mobile.Screen.{
  Screen, ScreenEvent, connect_pressed, disconnect_pressed, gps, fix, on_socket, note_typed,
  mark_pressed, age_ticks, app_changes, renders, unmounts, with_ws, enabled, run_effects, handle,
  step, run, unmount, is_connected, same_phase, age_tick, time_of,
}
use web_dashboard.Mobile.Screen.Sound.{with_ws-Same}

module _ {ℓ} {N : Type ℓ} (start : State N) where
  send-Reach : (p : Payload N) (w : State N) → Reach start w → Reach start (send_json p w).0
  unfolding WsClient.handle WsClient.enabled
  send-Reach p w r = next (sends p) r refl

  -- A payload is taken or left.
  reply_of :
      (p : Payload N) (w : State N)
      → ((send_queued w p).1 ≡ accepted) ⊎ ((send_queued w p).1 ≡ declined)
  unfolding send_queued
  reply_of p w = elim (Bool-cases (send_json p w).1) [
    | inl taken ↦ inl (rw taken refl)
    | inr left ↦ inr (rw left refl)
  ]

  queued-Reach : (p : Payload N) (w : State N) → Reach start w → Reach start (send_queued w p).0
  unfolding send_queued
  queued-Reach p w r = send-Reach p w r

  drain-Reach :
      (limit sent : ℕ) (items : List (Payload N)) (w : State N)
      → Reach start w
      → Reach start (drain send_queued limit sent items w).world
  unfolding drain
  drain-Reach limit sent [] w r = r
  drain-Reach limit sent (p ∷ ps) w r = elim (Bool-cases (ltb sent limit)) [
    | inr full ↦ rw (drain-limit send_queued limit sent p ps w full) r
    | inl more ↦
        let r' = queued-Reach p w r in
        elim (reply_of p w) [
          | inl taken ↦
              rw (drain_accepted send_queued limit sent p ps w more taken)
                (drain-Reach limit (suc sent) ps (send_queued w p).0 r')
          | inr left ↦ rw (drain_declined send_queued limit sent p ps w more left) r'
        ]
  ]

  module _ {ℓ'} {S : Type ℓ'} (codec : Codec (Payload N)) (storage : Storage S) where
    settle-Reach :
        (q : Queue (Payload N)) (store : S) (d : Drained (Payload N) (State N))
        → Reach start d.world
        → Reach start (settle codec storage send_queued q store d).world
    unfolding settle
    settle-Reach q store d r =
        if-holds (λ (x : Flushed (Payload N) S (State N)). Reach start x.world) d.threw _ _ r r

    flush-Reach :
        (a : App N S) → Reach start a.ws → Reach start (flush_queued_gps codec storage a).ws
    unfolding flush_queued_gps flush
    flush-Reach a r =
        if-holds (λ (x : App N S). Reach start x.ws) (a.flushing || not (is_open_now a.ws)) _ _ r
          (if-holds (λ (x : Flushed (Payload N) S (State N)). Reach start x.world) a.queue.flushing
            _ _ r (settle-Reach _ a.store _ (drain-Reach 200 0 _ a.ws r)))

    uplink-Reach :
        (f : Fix N) (now later : ℕ) (a : App N S)
        → Reach start a.ws
        → Reach start (send_gps_uplink codec storage f now later a).ws
    unfolding send_gps_uplink
    uplink-Reach f now later a r =
        let p = create_gps_payload f (some (build_meta a.app_state a.platform)) now in
        let r' = send-Reach p a.ws r in
        if-holds (λ (x : App N S). Reach start x.ws) (send_json p a.ws).1 _ _ (flush-Reach _ r') r'

    effects-Reach :
        (s : Screen N S) → Reach start s.app.ws → Reach start (run_effects codec storage s).app.ws
    unfolding run_effects on_connected
    effects-Reach s r =
        if-holds (λ (x : Screen N S). Reach start x.app.ws)
          (same_phase s.effect_state s.connection_state) _ _ r
          (if-holds (λ (x : App N S). Reach start x.ws) (is_connected s.connection_state) _ _
            (flush-Reach s.app r) r)

    ws-Reach :
        (now : ℕ) (ws : State N) (s : Screen N S)
        → Reach start ws
        → Reach start (with_ws now ws s).app.ws
    ws-Reach now ws s r =
        subst (λ (x : App N S). Reach start x.ws) (sym (with_ws-Same now ws s).app_same) r

    handle-Reach :
        (d : Device) (e : ScreenEvent N) (s : Screen N S)
        → enabled e s ≡ true
        → Reach start s.app.ws
        → Reach start (handle codec storage d e s).app.ws
    unfolding handle unmount age_tick send_mark WsClient.handle
    handle-Reach d (connect_pressed url) s h r =
        ws-Reach 0 _ s (next (connects url) r (unfold WsClient.enabled in refl))
    handle-Reach d disconnect_pressed s h r =
        ws-Reach 0 _ s (next disconnects r (unfold WsClient.enabled in refl))
    handle-Reach d (gps e) s h r = r
    handle-Reach d (fix f now later) s h r = uplink-Reach f now later s.app r
    handle-Reach d (on_socket e) s h r =
        ws-Reach (time_of e) _ s (next e r (unfold enabled in ground (arith, h)))
    handle-Reach d (note_typed text) s h r = r
    handle-Reach d (mark_pressed now) s h r = send-Reach _ s.app.ws r
    handle-Reach d (age_ticks now) s h r = r
    handle-Reach d (app_changes next_state) s h r = r
    handle-Reach d renders s h r = effects-Reach s r
    handle-Reach d unmounts s h r = next disconnects r (unfold WsClient.enabled in refl)

    -- In every run of the component its socket client goes through calls and events that can come.
    pub run-Reach :
        (d : Device) (es : List (ScreenEvent N)) (s : Screen N S)
        → Reach start s.app.ws
        → Reach start (run codec storage d es s).app.ws
    unfolding run step
    run-Reach d [] s r = r
    run-Reach d (e ∷ es) s r = elim (Bool-cases (enabled e s)) [
      | inl can ↦ run-Reach d es _ (rw (can, step) (handle-Reach d e s can r))
      | inr not_now ↦ run-Reach d es _ (rw (not_now, step) r)
    ]
