-- ===== src/Mobile/App/Uplink.antt =====
-- A GPS fix over a working connection, and over none (mobile/src/App.js).
use mathlib.Core.List.{map}
use web_dashboard.Prelude.{
  ℕ, suc, ◌+◌, ◌≤◌, ◌≡◌, ap, sym, ◌∙◌, true, false, some, List, [], ◌∷◌, ◌++◌, arith, length,
  append_assoc, append-nil, lt→ltb,
}
use web_dashboard.Host.{is_open}
use web_dashboard.Mobile.Protocol.{Fix, Payload, create_gps_payload}
use web_dashboard.Mobile.Queue.{Codec, Storage, accepted, Drained, init, drain, settle, flush}
use web_dashboard.Mobile.Queue.Drain.{drain_accepted}
use web_dashboard.Mobile.WsClient.{State, is_open_now, send_json}
use web_dashboard.Mobile.App.{App, build_meta, send_queued, flush_queued_gps, send_gps_uplink}

module _ {ℓ} {N : Type ℓ} where
  -- The object holds the open socket `id`.
  pub record IsConnected (id : ℕ) (w : State N) : Type 0 where
    pub held : w.client.ws ≡ some id
    pub open_now : is_open (w.host.ready id) ≡ true

  -- The frames `ps` were sent on the socket `id`, in this order.
  abbrev pub sent_more : ℕ → List (Payload N) → State N → State N
  sent_more id ps w = record w {
    host = record (w.host) { sent = w.host.sent ++ map (λ p. (id, p)) ps };
  }

  pub send_json_connected :
      (id : ℕ) (w : State N) (p : Payload N)
      → IsConnected id w
      → send_json p w ≡ (sent_more id (p ∷ []) w, true)
  unfolding send_json
  send_json_connected id w p c = ground (arith, c)

  pub sent_more-IsConnected :
      (id : ℕ) (w : State N) (ps : List (Payload N))
      → IsConnected id w
      → IsConnected id (sent_more id ps w)
  sent_more-IsConnected id w ps c = record { held = c.held; open_now = c.open_now }

  sent_more-sent_more :
      (id : ℕ) (w : State N) (p : Payload N) (ps : List (Payload N))
      → sent_more id ps (sent_more id (p ∷ []) w) ≡ sent_more id (p ∷ ps) w
  sent_more-sent_more id w p ps =
      ap (λ sent. record w { host = record (w.host) { sent = sent } })
        (append_assoc w.host.sent ((id, p) ∷ []) (map (λ q. (id, q)) ps))

  send_queued_connected :
      (id : ℕ) (w : State N) (p : Payload N)
      → IsConnected id w
      → send_queued w p ≡ (sent_more id (p ∷ []) w, accepted)
  unfolding send_queued
  send_queued_connected id w p c = rw (send_json_connected id w p c)

  done_eq :
      {v w : State N} {m n : ℕ}
      → v ≡ w
      → m ≡ n
      → ◌≡◌ {A = Drained (Payload N) (State N)}
          (record { items = []; world = v; sent = m; threw = false })
          (record { items = []; world = w; sent = n; threw = false })
  done_eq p q = λ i. record { items = []; world = p i; sent = q i; threw = false }

  drain_connected :
      (id limit sent : ℕ) (xs : List (Payload N)) (w : State N)
      → IsConnected id w
      → sent + length xs ≤ limit
      → drain send_queued limit sent xs w
        ≡ record { items = []; world = sent_more id xs w; sent = sent + length xs; threw = false }
  unfolding drain
  drain_connected id limit sent [] w c h =
      done_eq
        (ap (λ sent. record w { host = record (w.host) { sent = sent } }) (sym (append-nil _)))
        (omega arith)
  drain_connected id limit sent (x ∷ xs) w c h =
      let e = send_queued_connected id w x c in
      drain_accepted send_queued limit sent x xs w (lt→ltb _ _ (omega arith)) (ap (λ r. r.1) e)
      ∙ ap (drain send_queued limit (suc sent) xs) (ap (λ r. r.0) e)
      ∙ drain_connected id limit (suc sent) xs (sent_more id (x ∷ []) w)
          (sent_more-IsConnected id w (x ∷ []) c) (omega arith)
      ∙ done_eq (sent_more-sent_more id w x xs) (omega arith)

-- The app is connected, and no flush is under way.
pub record IsReady {ℓ ℓ'} {N : Type ℓ} {S : Type ℓ'} (id : ℕ) (a : App N S) : Type 0 where
  pub connected : IsConnected id a.ws
  pub loaded : a.queue.loaded ≡ true
  pub idle : a.flushing ≡ false
  pub queue_idle : a.queue.flushing ≡ false

module _ {ℓ ℓ'} {N : Type ℓ} {S : Type ℓ'} (codec : Codec (Payload N)) (storage : Storage S) where
  pub flush_queued_gps_ready :
      (id : ℕ) (a : App N S)
      → IsReady id a
      → length a.queue.items ≤ 200
      → let a' = flush_queued_gps codec storage a in
        (a'.ws ≡ sent_more id a.queue.items a.ws)
        × (a'.queue.items ≡ [])
        × (a'.queue_depth ≡ 0)
        × (a'.flushing ≡ false)
  unfolding flush_queued_gps flush init settle is_open_now
  flush_queued_gps_ready id a r h =
      let e = drain_connected id 200 0 a.queue.items a.ws r.connected (omega arith) in
      ground (arith, e, r)

  -- Over a working connection, with at most 200 payloads queued, a fix is sent at once and everything
  -- that was queued is sent behind it, oldest first, on the same socket; the queue is left empty.
  pub uplink_connected :
      (id : ℕ) (fix : Fix N) (now later : ℕ) (a : App N S)
      → IsReady id a
      → length a.queue.items ≤ 200
      → let a' = send_gps_uplink codec storage fix now later a in
        let payload = create_gps_payload fix (some (build_meta a.app_state a.platform)) now in
        (a'.ws ≡ sent_more id (payload ∷ a.queue.items) a.ws)
        × (a'.queue.items ≡ [])
        × (a'.queue_depth ≡ 0)
  unfolding send_gps_uplink
  uplink_connected id fix now later a r h =
      let payload = create_gps_payload fix (some (build_meta a.app_state a.platform)) now in
      let e = send_json_connected id a.ws payload r.connected in
      let b = record a { ws = sent_more id (payload ∷ []) a.ws } in
      let ready : IsReady id b = record {
        connected = sent_more-IsConnected id a.ws (payload ∷ []) r.connected;
        loaded = r.loaded;
        idle = r.idle;
        queue_idle = r.queue_idle;
      } in
      let (sent, empty, none_left, _) = flush_queued_gps_ready id b ready h in
      rw e (sent ∙ sent_more-sent_more id a.ws payload a.queue.items, empty, none_left)
