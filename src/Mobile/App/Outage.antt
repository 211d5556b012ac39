-- ===== src/Mobile/App/Outage.antt =====
-- Fixes that arrive while there is no connection, and the connection that follows (mobile/src/App.js).
use mathlib.Core.List.{map}
use web_dashboard.Prelude.{
  ℕ, ◌+◌, ◌≤◌, ◌≡◌, refl, ap, ◌∙◌, true, false, some, List, [], ◌∷◌, ◌++◌, arith, length,
  length-append, length-map, drop_of_zero, String,
}
use web_dashboard.Mobile.Protocol.{Fix, Payload, create_gps_payload, stamp_queued}
use web_dashboard.Mobile.Queue.{Queue, Codec, Storage, push}
use web_dashboard.Mobile.Queue.Window.{enqueue-push, push_all, push_all_window, push-loaded}
use web_dashboard.Mobile.WsClient.{State, is_open_now, send_json}
use web_dashboard.Mobile.App.{App, Platform, on_connected, build_meta, send_gps_uplink}
use web_dashboard.Mobile.App.Uplink.{IsConnected, sent_more, IsReady, flush_queued_gps_ready}

-- A fix with the time at which its payload is made, and the time at which it is stamped.
abbrev pub Timed {ℓ} : Type ℓ → Type ℓ
Timed N = Fix N × ℕ × ℕ

abbrev pub queued_payload {ℓ} : {N : Type ℓ} → String → Platform → Timed N → Payload N
queued_payload app_state platform (fix, now, later) =
    stamp_queued (create_gps_payload fix (some (build_meta app_state platform)) now) later

module _ {ℓ ℓ'} {N : Type ℓ} {S : Type ℓ'} (codec : Codec (Payload N)) (storage : Storage S) where
  pub uplinks : List (Timed N) → App N S → App N S
  uplinks [] a = a
  uplinks ((fix, now, later) ∷ fs) a = uplinks fs (send_gps_uplink codec storage fix now later a)

  record IsOffline (q : Queue (Payload N)) (b a : App N S) : Type (ℓ ⊔ ℓ') where
    pub queue_is : b.queue ≡ q
    pub ws_is : b.ws ≡ a.ws
    pub flushing_is : b.flushing ≡ a.flushing
    pub app_state_is : b.app_state ≡ a.app_state
    pub platform_is : b.platform ≡ a.platform

  send_json_offline :
      (p : Payload N) (w : State N) → is_open_now w ≡ false → send_json p w ≡ (w, false)
  unfolding send_json
  send_json_offline p w h = ground (arith, h)

  uplink-IsOffline :
      (f : Timed N) (a : App N S)
      → is_open_now a.ws ≡ false
      → a.queue.loaded ≡ true
      → IsOffline (push a.queue (queued_payload a.app_state a.platform f)) (uplinks (f ∷ []) a) a
  unfolding send_gps_uplink uplinks
  uplink-IsOffline (fix, now, later) a h l =
      let payload = create_gps_payload fix (some (build_meta a.app_state a.platform)) now in
      rw (send_json_offline payload a.ws h) (record {
        queue_is = enqueue-push codec storage a.queue a.store (stamp_queued payload later) l;
        ws_is = refl;
        flushing_is = refl;
        app_state_is = refl;
        platform_is = refl;
      })

  uplinks-IsOffline :
      (fs : List (Timed N)) (a : App N S)
      → is_open_now a.ws ≡ false
      → a.queue.loaded ≡ true
      → IsOffline
          (push_all a.queue (map (queued_payload a.app_state a.platform) fs))
          (uplinks fs a)
          a
  unfolding uplinks push_all
  uplinks-IsOffline [] a h l = record {
    queue_is = refl;
    ws_is = refl;
    flushing_is = refl;
    app_state_is = refl;
    platform_is = refl;
  }
  uplinks-IsOffline (f ∷ fs) a h l =
      let b = uplinks (f ∷ []) a in
      let o = uplink-IsOffline f a h l in
      let q = push a.queue (queued_payload a.app_state a.platform f) in
      let rest =
        uplinks-IsOffline fs b (ap is_open_now o.ws_is ∙ h)
          (ap (λ k. k.loaded) o.queue_is ∙ push-loaded a.queue _ ∙ l) in
      record {
        queue_is =
            rest.queue_is
            ∙ ap (λ k. push_all k (map (queued_payload b.app_state b.platform) fs)) o.queue_is
            ∙ ap (λ st. push_all q (map (queued_payload st b.platform) fs)) o.app_state_is
            ∙ ap (λ p. push_all q (map (queued_payload a.app_state p) fs)) o.platform_is;
        ws_is = rest.ws_is ∙ o.ws_is;
        flushing_is = rest.flushing_is ∙ o.flushing_is;
        app_state_is = rest.app_state_is ∙ o.app_state_is;
        platform_is = rest.platform_is ∙ o.platform_is;
      }

  push_all-kept :
      (q : Queue (Payload N)) (ps : List (Payload N))
      → ((push_all q ps).loaded ≡ q.loaded) × ((push_all q ps).flushing ≡ q.flushing)
  unfolding push_all push
  push_all-kept q [] = (refl, refl)
  push_all-kept q (p ∷ ps) = ground (arith, push_all-kept (push q p) ps)

  -- An outage: while the socket is not open, fixes arrive at an app whose queue is loaded; then the
  -- app is connected again, on any open socket. If the backlog fits in the queue's bound and in one
  -- flush of 200, all of it is sent on the new socket, each payload once, in the order of the fixes,
  -- behind what was queued before, and the queue is left empty.
  pub outage_recovered :
      (id : ℕ) (fs : List (Timed N)) (a : App N S) (w : State N)
      → is_open_now a.ws ≡ false
      → a.queue.loaded ≡ true
      → a.flushing ≡ false
      → a.queue.flushing ≡ false
      → length a.queue.items + length fs ≤ a.queue.max_items
      → length a.queue.items + length fs ≤ 200
      → IsConnected id w
      → let a' = on_connected codec storage (record (uplinks fs a) { ws = w }) in
        let backlog = a.queue.items ++ map (queued_payload a.app_state a.platform) fs in
        (a'.ws ≡ sent_more id backlog w) × (a'.queue.items ≡ [])
  unfolding on_connected
  outage_recovered id fs a w h l f qf room small c =
      let ps = map (queued_payload a.app_state a.platform) fs in
      let o = uplinks-IsOffline fs a h l in
      let kept = push_all-kept a.queue ps in
      let items : (uplinks fs a).queue.items ≡ a.queue.items ++ ps =
        ap (λ k. k.items) o.queue_is
        ∙ push_all_window a.queue ps (omega arith)
        ∙ drop_of_zero _ (a.queue.items ++ ps)
            (omega (arith, length-map fs (queued_payload a.app_state a.platform))) in
      let r : IsReady id (record (uplinks fs a) { ws = w }) = record {
        connected = c;
        loaded = ap (λ k. k.loaded) o.queue_is ∙ kept.0 ∙ l;
        idle = o.flushing_is ∙ f;
        queue_idle = ap (λ k. k.flushing) o.queue_is ∙ kept.1 ∙ qf;
      } in
      let (sent, empty, _, _) =
        flush_queued_gps_ready codec storage id (record (uplinks fs a) { ws = w }) r
          (omega (
            arith,
            ap length items,
            length-append a.queue.items ps,
            length-map fs (queued_payload a.app_state a.platform),
          )) in
      (sent ∙ ap (λ xs. sent_more id xs w) items, empty)
