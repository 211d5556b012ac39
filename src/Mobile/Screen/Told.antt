-- ===== src/Mobile/Screen/Told.antt =====
-- mobile/src/App.js: what the socket client tells the component in a call or an event.
use native.Mathlib.Nat.{sub_self}
use web_dashboard.Prelude.{
  ℕ, suc, ◌-◌, ◌≡◌, ◌⊎◌, refl, Bool, true, false, Bool-cases, inl, inr, some, none, Option-cases,
  List, [], ◌∷◌, arith, if-holds, length, sub_ℕ,
}
use web_dashboard.Host.{Timer, timeout, interval, clear_timer}
use web_dashboard.Wire.{Message, is_frame}
use web_dashboard.Mobile.WsClient
use web_dashboard.Mobile.WsClient.{
  State, Callback, on_state, on_frame, on_rtt, connects, disconnects, sends, opens, receives,
  closes, errors, fires, connect, disconnect, on_open, on_close, on_receive, on_timer, take_message,
  is_pong, emit_state, lose, schedule_reconnect, on_ping, open_socket, told, has_url, send_json,
  awaited_ping,
}
use web_dashboard.Mobile.Screen.{ScreenEvent, on_socket, added}

-- Whether the event brings a message with signals and a status.
abbrev pub brings_frame {ℓ} : {N : Type ℓ} → ScreenEvent N → Bool
brings_frame (on_socket (receives id now (some (some m)))) = is_frame m
brings_frame _ = false

-- A callback other than `onFrame`.
abbrev pub is_no_frame {ℓ} : {N : Type ℓ} → Callback N → Bool
is_no_frame (on_frame m) = false
is_no_frame _ = true

module _ {ℓ} {N : Type ℓ} where
  -- What the socket client has told since `old`: nothing, or one thing that is no frame.
  unfoldable pub Told : List (Callback N) → List (Callback N) → Type ℓ
  Told old calls = (calls ≡ old) ⊎ ((c : Callback N) × (is_no_frame c ≡ true) × (calls ≡ c ∷ old))

  told-Told :
      (b : Bool) (c : Callback N) (old : List (Callback N))
      → is_no_frame c ≡ true
      → Told old (told b c old)
  unfolding Told
  told-Told true c old h = inr (c, h, refl)
  told-Told false c old h = inl refl

  open_socket-Told : (w : State N) → Told w.calls (open_socket w).calls
  unfolding open_socket emit_state Told
  open_socket-Told w =
      if-holds (λ (x : State N). Told w.calls x.calls) (has_url w.client.url) _ _
        (told-Told w.client.listens.state (on_state WsClient.connecting) w.calls refl) (inl refl)

  on_close-Told : (id : ℕ) (w : State N) → Told w.calls (on_close id w).calls
  unfolding on_close lose emit_state schedule_reconnect Told
  on_close-Told id w =
      if-holds (λ (x : State N). Told w.calls x.calls) w.client.manual_close _ _ (inl refl)
        (told-Told w.client.listens.state (on_state WsClient.reconnecting) w.calls refl)

  on_ping-Told : (now : ℕ) (w : State N) → Told w.calls (on_ping now w).calls
  unfolding on_ping send_json Told
  on_ping-Told now w = inl (ground arith)

  on_timer-Told : (id now : ℕ) (w : State N) → Told w.calls (on_timer id now w).calls
  unfolding on_timer Told
  on_timer-Told id now w = elim (Option-cases (w.host.timers id)) [
    | inl e ↦ rw (e, on_timer) (inl refl)
    | inr (t, e) ↦ fired t e
  ]
    where
      fired : (t : Timer) → w.host.timers id ≡ some t → Told w.calls (on_timer id now w).calls
      fired (timeout d) e =
          rw (e, on_timer) (open_socket-Told (record w { host = clear_timer id w.host }))
      fired (interval d) e = rw (e, on_timer) (on_ping-Told now w)

  take_message-Told :
      (now : ℕ) (m : Message N) (w : State N)
      → is_frame m ≡ false
      → Told w.calls (take_message now m w).calls
  unfolding take_message Told
  take_message-Told now m w h = elim (Option-cases (awaited_ping w.client.last_ping_at_ms)) [
    | inl e ↦ rw (e, take_message, h) (inl refl)
    | inr (sent, e) ↦ elim (Bool-cases (is_pong m)) [
      | inl pong ↦
          rw (e, take_message, pong)
            (told-Told w.client.listens.rtt (on_rtt (sub_ℕ now sent)) w.calls refl)
      | inr other ↦ rw (e, take_message, other, h) (inl refl)
    ]
  ]

  pub handle-Told :
      (e : WsClient.Event N) (w : State N)
      → brings_frame (on_socket e) ≡ false
      → Told w.calls (WsClient.handle e w).calls
  unfolding WsClient.handle Told
  handle-Told (connects url) w h =
      unfold connect in
      open_socket-Told (record w {
        client = record (w.client) { url = some url; manual_close = false; backoff_ms = 1000 };
      })
  handle-Told disconnects w h =
      unfold disconnect emit_state in
      told-Told w.client.listens.state (on_state WsClient.disconnected) w.calls refl
  handle-Told (sends p) w h = unfold send_json in inl (ground arith)
  handle-Told (opens id) w h =
      unfold on_open emit_state in
      told-Told w.client.listens.state (on_state WsClient.connected) w.calls refl
  handle-Told (receives id now none) w h = unfold on_receive in inl refl
  handle-Told (receives id now (some none)) w h = unfold on_receive in inl refl
  handle-Told (receives id now (some (some m))) w h =
      unfold on_receive in take_message-Told now m w h
  handle-Told (closes id) w h = on_close-Told id w
  handle-Told (errors id) w h = inl refl
  handle-Told (fires id now) w h = on_timer-Told id now w

  pub added_none : (old new : State N) → new.calls ≡ old.calls → added old new ≡ []
  added_none old new h = rw (h, sub_self (length old.calls)) refl

  pub added_one :
      (old new : State N) (c : Callback N) → new.calls ≡ c ∷ old.calls → added old new ≡ c ∷ []
  added_one old new c h =
      let one : suc (length old.calls) - length old.calls ≡ 1 = omega arith in rw (h, one) refl

  pub frame_told :
      (now : ℕ) (m : Message N) (w : State N)
      → w.client.listens.frame ≡ true
      → is_frame m ≡ true
      → is_pong m ≡ false
      → (take_message now m w).calls ≡ on_frame m ∷ w.calls
  unfolding take_message
  frame_told now m w heard whole other =
      elim (Option-cases (awaited_ping w.client.last_ping_at_ms)) [
        | inl e ↦ rw (e, take_message, whole, heard) refl
        | inr (sent, e) ↦ rw (e, take_message, other, whole, heard) refl
      ]
