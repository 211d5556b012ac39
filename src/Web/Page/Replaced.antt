-- ===== src/Web/Page/Replaced.antt =====
-- client/app.js: the callbacks of a socket that the page has replaced.
use web_dashboard.Prelude.{ℕ, ◌≡◌, ◌≢◌, refl, true, false, none, some, arith, ap, ◌∙◌, [], ◌∷◌}
use web_dashboard.Host.{update}
use web_dashboard.Web.Socket
use web_dashboard.Web.Socket.{on_status, disconnected, handle, on_close, is_open_now}
use web_dashboard.Web.Page.{
  Payload, Page, Clock, stop_ping, show_status, call_back, call_back_all, settle, socket_does,
}

module _ {ℓ} {N : Type ℓ} where
  close_report :
      (id jitter : ℕ) (s : Socket.State (Payload N) N)
      → s.socket.ws ≡ some id
      → s.socket.manual_close ≡ true
      → (handle (Socket.closes id jitter) (record s { calls = [] })).calls
        ≡ on_status disconnected none ∷ []
  unfolding handle on_close
  close_report id jitter s old left = ground (arith, old, left)

  settle_report :
      (c : Clock) (j : ℕ) (s : Socket.State (Payload N) N) (p : Page N)
      → s.calls ≡ on_status disconnected none ∷ []
      → settle c j s p
        ≡ stop_ping (record p {
          sockets = update p.sockets j s;
          socket_state = disconnected;
          connect_disabled = false;
          disconnect_disabled = true;
        })
  unfolding settle call_back_all call_back show_status
  settle_report c j s p h =
      ap (λ calls. call_back_all c calls (record p { sockets = update p.sockets j s })) h

  -- When a socket that the page has disconnected and replaced reports that it is closed, while the new
  -- one is open, the page takes the report for
  -- the new socket's: its state is `disconnected` and no ping interval is set any more, although the
  -- new socket is open and stays open.
  pub late_close_stops_ping :
      (c : Clock) (p : Page N) (j k id jitter : ℕ)
      → j ≢ k
      → p.socket ≡ some k
      → is_open_now (p.sockets k) ≡ true
      → (p.sockets j).socket.ws ≡ some id
      → (p.sockets j).socket.manual_close ≡ true
      → let p' = socket_does c j (Socket.closes id jitter) p in
        (p'.socket ≡ some k)
        × (is_open_now (p'.sockets k) ≡ true)
        × (p'.socket_state ≡ disconnected)
        × (p'.ping_timer ≡ none)
        × (p'.connect_disabled ≡ false)
  unfolding socket_does stop_ping
  late_close_stops_ping c p j k id jitter other now up old left =
      let s = handle (Socket.closes id jitter) (record (p.sockets j) { calls = [] }) in
      let e = settle_report c j s p (close_report id jitter (p.sockets j) old left) in
      let kept : update p.sockets j s k ≡ p.sockets k = ground (arith, other) in
      rw e (now, ap is_open_now kept ∙ up, refl, refl, refl)
