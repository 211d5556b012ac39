-- ===== src/Web/Page/Ping.antt =====
-- client/app.js: the ping interval of the page.
use web_dashboard.Prelude.{
  ℕ, ◌≤◌, ◌≡◌, refl, Bool, true, false, Option, none, some, String, List, [], ◌∷◌, arith, is_some,
  inl, inr, Bool-cases, Option-cases, ◌∙◌, if◌then◌else◌, ltb, ◌&&◌,
}
use web_dashboard.Host.{update}
use web_dashboard.Web.Socket
use web_dashboard.Web.Socket.{
  Phase, connected, connecting, reconnecting, disconnected, Callback, on_status, on_message,
  on_frame, handle,
}
use web_dashboard.Web.Page.{
  Payload, leave, send_to, socket_open, new_socket, Page, Clock, stop_ping, start_ping, show_status,
  call_back, call_back_all, settle, socket_does, connect_socket, disconnect_socket, on_ping,
  send_gps_uplink, send_mark, page_handle, page_run, Event, connects, disconnects, pings, uplinks,
  marks, happens, measure, blank, from_runtime,
}

-- At most one interval runs, it is the one in `ping_timer`, and one runs whenever the page shows the
-- state `connected`.
pub record OnePing {ℓ} {N : Type ℓ} (p : Page N) : Type 0 where
  pub named : (t : ℕ) → p.intervals t ≡ true → p.ping_timer ≡ some t
  pub runs : (t : ℕ) → p.ping_timer ≡ some t → p.intervals t ≡ true
  pub shown : p.socket_state ≡ connected → is_some p.ping_timer ≡ true
  pub fresh : (t : ℕ) → p.next_interval ≤ t → p.intervals t ≡ false

module _ {ℓ} {N : Type ℓ} where
  show_status-OnePing : (phase : Phase) (p : Page N) → OnePing p → OnePing (show_status phase p)
  unfolding show_status start_ping stop_ping
  show_status-OnePing connected p v = record {
    named = λ t. ground (arith, v.named t);
    runs = λ t. ground arith;
    shown = λ h. refl;
    fresh = λ t. ground (arith, v.fresh t);
  }
  show_status-OnePing connecting p v = record {
    named = v.named;
    runs = v.runs;
    shown = ground arith;
    fresh = v.fresh;
  }
  show_status-OnePing reconnecting p v = record {
    named = v.named;
    runs = v.runs;
    shown = ground arith;
    fresh = v.fresh;
  }
  show_status-OnePing disconnected p v = record {
    named = λ t. ground (arith, v.named t);
    runs = λ t. ground arith;
    shown = ground arith;
    fresh = λ t. ground (arith, v.fresh t);
  }

  call_back-OnePing :
      (c : Clock) (e : Callback N) (p : Page N) → OnePing p → OnePing (call_back c e p)
  unfolding call_back measure
  call_back-OnePing c (on_status phase retry) p v = show_status-OnePing phase p v
  call_back-OnePing c (on_message none) p v = v
  call_back-OnePing c (on_message (some m)) p v = record {
    named = λ t. ground (arith, v.named t);
    runs = λ t. ground (arith, v.runs t);
    shown = ground (arith, v.shown);
    fresh = λ t. ground (arith, v.fresh t);
  }
  call_back-OnePing c (on_frame m) p v = record {
    named = v.named;
    runs = v.runs;
    shown = v.shown;
    fresh = v.fresh;
  }

  call_back_socket : (c : Clock) (e : Callback N) (p : Page N) → (call_back c e p).socket ≡ p.socket
  unfolding call_back measure show_status start_ping stop_ping
  call_back_socket c (on_status phase retry) p = ground arith
  call_back_socket c (on_message none) p = refl
  call_back_socket c (on_message (some m)) p = ground arith
  call_back_socket c (on_frame m) p = refl

  call_back_all-OnePing :
      (c : Clock) (es : List (Callback N)) (p : Page N) → OnePing p → OnePing (call_back_all c es p)
  unfolding call_back_all
  call_back_all-OnePing c [] p v = v
  call_back_all-OnePing c (e ∷ es) p v =
      call_back-OnePing c e (call_back_all c es p) (call_back_all-OnePing c es p v)

  call_back_all_socket :
      (c : Clock) (es : List (Callback N)) (p : Page N) → (call_back_all c es p).socket ≡ p.socket
  unfolding call_back_all
  call_back_all_socket c [] p = refl
  call_back_all_socket c (e ∷ es) p =
      call_back_socket c e (call_back_all c es p) ∙ call_back_all_socket c es p

-- With it, a page that has made no socket shows the state `disconnected`.
record Inv {ℓ} {N : Type ℓ} (p : Page N) : Type ℓ where
  one_ping : OnePing p
  unmade : p.socket ≡ none → p.made ≡ 0
  idle : p.socket ≡ none → p.socket_state ≡ disconnected

module _ {ℓ} {N : Type ℓ} where
  socket_does-Inv :
      (c : Clock) (k w : ℕ) (e : Socket.Event (Payload N) N) (p : Page N)
      → OnePing p
      → p.socket ≡ some w
      → Inv (socket_does c k e p)
  unfolding socket_does settle
  socket_does-Inv c k w e p v has =
      let s = handle e (record (p.sockets k) { calls = [] }) in
      let p' = record p { sockets = update p.sockets k s } in
      let same = call_back_all_socket c s.calls p' ∙ has in
      record {
        one_ping =
            call_back_all-OnePing c s.calls p'
              (record { named = v.named; runs = v.runs; shown = v.shown; fresh = v.fresh });
        unmade = ground (arith, same);
        idle = ground (arith, same);
      }

  leave-OnePing :
      (c : Clock) (k : Option ℕ) (p : Page N) → p.socket ≡ k → OnePing p → OnePing (leave c k p)
  leave-OnePing c none p has v = v
  leave-OnePing c (some k) p has v = (socket_does-Inv c k k Socket.disconnects p v has).one_ping

  connect_socket-Inv :
      (c : Clock) (url : String) (p : Page N) → OnePing p → Inv (connect_socket c url p)
  unfolding connect_socket new_socket
  connect_socket-Inv c url p v =
      let p' = leave c p.socket p in
      let v' = leave-OnePing c p.socket p refl v in
      socket_does-Inv c p'.made p'.made Socket.connects (new_socket url p')
        (record { named = v'.named; runs = v'.runs; shown = v'.shown; fresh = v'.fresh }) refl

  send_to-Inv :
      (c : Clock) (payload : Payload N) (k : Option ℕ) (p : Page N)
      → p.socket ≡ k
      → Inv p
      → Inv (send_to c payload k p)
  send_to-Inv c payload none p has v = v
  send_to-Inv c payload (some k) p has v =
      socket_does-Inv c k k (Socket.sends payload) p v.one_ping has

  disconnect_socket-Inv :
      (c : Clock) (k : Option ℕ) (p : Page N) → p.socket ≡ k → Inv p → Inv (stop_ping (leave c k p))
  unfolding stop_ping socket_does settle call_back_all call_back show_status handle
      Socket.disconnect
  disconnect_socket-Inv c none p has v = record {
    one_ping = record {
      named = λ t. ground (arith, v.one_ping.named t);
      runs = λ t. ground arith;
      shown = ground (arith, v.idle has);
      fresh = λ t. ground (arith, v.one_ping.fresh t);
    };
    unmade = v.unmade;
    idle = v.idle;
  }
  disconnect_socket-Inv c (some k) p has v = record {
    one_ping = record {
      named = λ t. ground (arith, v.one_ping.named t);
      runs = λ t. ground arith;
      shown = ground arith;
      fresh = λ t. ground (arith, v.one_ping.fresh t);
    };
    unmade = ground (arith, has);
    idle = λ h. refl;
  }

  if-Inv : (b : Bool) (p q : Page N) → Inv p → Inv q → Inv (if b then p else q)
  if-Inv true p q v w = v
  if-Inv false p q v w = w

  made-socket : (k : ℕ) (p : Page N) → Inv p → ltb k p.made ≡ true → (w : ℕ) × (p.socket ≡ some w)
  made-socket k p v h = elim (Option-cases p.socket) [
    | inl e ↦ ground (arith, v.unmade e)
    | inr (w, e) ↦ (w, e)
  ]

  happens-Inv :
      (c : Clock) (k : ℕ) (e : Socket.Event (Payload N) N) (p : Page N)
      → Inv p
      → Inv (page_handle c (happens k e) p)
  unfolding page_handle
  happens-Inv c k e p v = elim (Bool-cases (ltb k p.made)) [
    | inr h ↦ rw h v
    | inl h ↦
        let (w, has) = made-socket k p v h in
        rw h (
          if-Inv (from_runtime e && Socket.enabled e (p.sockets k)) (socket_does c k e p) p
            (socket_does-Inv c k w e p v.one_ping has) v)
  ]

  page_handle-Inv : (c : Clock) (e : Event N) (p : Page N) → Inv p → Inv (page_handle c e p)
  unfolding page_handle disconnect_socket on_ping send_gps_uplink send_mark
  page_handle-Inv c (connects url) p v = connect_socket-Inv c url p v.one_ping
  page_handle-Inv c disconnects p v = disconnect_socket-Inv c p.socket p refl v
  page_handle-Inv c (pings t) p v = if-Inv (p.intervals t) _ p (send_to-Inv c _ p.socket p refl v) v
  page_handle-Inv c (uplinks visible os platform fix) p v =
      if-Inv (socket_open p) _ p (send_to-Inv c _ p.socket p refl v) v
  page_handle-Inv c (marks note) p v =
      if-Inv (socket_open p) _ p (send_to-Inv c _ p.socket p refl v) v
  page_handle-Inv c (happens k e) p v = happens-Inv c k e p v

  page_run-Inv : (es : List (Clock × Event N)) (p : Page N) → Inv p → Inv (page_run es p)
  unfolding page_run
  page_run-Inv [] p v = v
  page_run-Inv ((c, e) ∷ es) p v = page_run-Inv es (page_handle c e p) (page_handle-Inv c e p v)

  blank-Inv : (accepts : String → Bool) → Inv (blank {N = N} accepts)
  blank-Inv accepts = record {
    one_ping = record {
      named = λ t. ground arith;
      runs = λ t. ground arith;
      shown = ground arith;
      fresh = λ t h. refl;
    };
    unmade = λ h. refl;
    idle = λ h. refl;
  }

  -- After any presses of the page's buttons, fixes, pings, and events of any of the sockets that it has
  -- made, at most one ping interval runs, it is the one that `stopPing` would clear, and one runs
  -- whenever the state of the connection is `connected`.
  pub page_run-OnePing :
      (accepts : String → Bool) (es : List (Clock × Event N))
      → OnePing (page_run es (blank accepts))
  page_run-OnePing accepts es = (page_run-Inv es (blank accepts) (blank-Inv accepts)).one_ping
