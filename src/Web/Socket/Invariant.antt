-- ===== src/Web/Socket/Invariant.antt =====
-- What holds of client/ws.js in every state that calls and events lead to.
use web_dashboard.Prelude.{
  ℕ, ◌≤◌, ◌≡◌, refl, ◌∙◌, ◌⊎◌, true, false, none, some, [], arith, String, Bool, is_some,
  Option-cases,
}
use web_dashboard.Host.{closed, is_live, is_closed}
use web_dashboard.Wire.{Decoded}
use web_dashboard.Web.Socket.{
  State, Event, connects, disconnects, sends, opens, receives, peer_closes, closes, errors, fires,
  enabled, handle, Reach, here, next, start, connect, disconnect, send, on_open, on_receive,
  on_close, on_timer, open_socket, schedule_reconnect, clear, new,
}

-- The one live socket is the current one; a reconnection is pending only while there is no socket
-- and nobody asked for a close; and the pending timer is the one that the object knows.
pub record Inv {ℓ κ} {P : Type ℓ} {N : Type κ} (s : State P N) : Type 0 where
  pub live : (i : ℕ) → is_live (s.host.ready i) ≡ true → s.socket.ws ≡ some i
  pub unborn : (i : ℕ) → s.host.next_socket ≤ i → s.host.ready i ≡ closed
  pub current : (i : ℕ) → s.socket.ws ≡ some i → is_closed (s.host.ready i) ≡ false
  pub known : (t : ℕ) → is_some (s.host.timers t) ≡ true → s.socket.reconnect_timer ≡ some t
  pub armed : (t : ℕ) → s.socket.reconnect_timer ≡ some t → is_some (s.host.timers t) ≡ true
  pub idle :
      is_some s.socket.reconnect_timer ≡ true
      → (s.socket.ws ≡ none) × (s.socket.manual_close ≡ false)
  pub unset : (t : ℕ) → s.host.next_timer ≤ t → s.host.timers t ≡ none

module _ {ℓ κ} {P : Type ℓ} {N : Type κ} where
  open_socket-Inv : (s : State P N) → Inv s → s.socket.reconnect_timer ≡ none → Inv (open_socket s)
  unfolding open_socket
  open_socket-Inv s v h = record {
    live = λ i. ground (arith, v.live i);
    unborn = λ i. ground (arith, v.unborn i);
    current = λ i. ground (arith, v.current i);
    known = λ t. ground (arith, v.known t);
    armed = λ t. ground (arith, v.armed t);
    idle = ground (arith, v.idle);
    unset = λ t. ground (arith, v.unset t);
  }

  on_open-Inv : (id : ℕ) (s : State P N) → enabled (opens id) s ≡ true → Inv s → Inv (on_open id s)
  unfolding on_open enabled
  on_open-Inv id s e v = record {
    live = λ i. ground (arith, v.live i, v.live id);
    unborn = λ i. ground (arith, v.unborn i);
    current = λ i. ground (arith, v.current i);
    known = λ t. ground (arith, v.known t);
    armed = λ t. ground (arith, v.armed t);
    idle = ground (arith, v.idle);
    unset = λ t. ground (arith, v.unset t);
  }

  on_close-Inv :
      (id jitter : ℕ) (s : State P N)
      → enabled (closes id jitter) s ≡ true
      → Inv s
      → Inv (on_close id jitter s)
  unfolding on_close schedule_reconnect enabled
  on_close-Inv id jitter s e v = record {
    live = λ i. ground (arith, v.live i);
    unborn = λ i. ground (arith, v.unborn i);
    current = λ i. ground (arith, v.current i);
    known = λ t. ground (arith, v.known t);
    armed = λ t. ground (arith, v.armed t);
    idle = ground (arith, v.idle);
    unset = λ t. ground (arith, v.unset t, v.unset s.host.next_timer);
  }

  peer_closes-Inv :
      (id : ℕ) (s : State P N)
      → enabled (peer_closes id) s ≡ true
      → Inv s
      → Inv (handle (peer_closes id) s)
  unfolding handle enabled
  peer_closes-Inv id s e v = record {
    live = λ i. ground (arith, v.live i);
    unborn = λ i. ground (arith, v.unborn i, v.unborn id);
    current = λ i. ground (arith, v.current i);
    known = v.known;
    armed = v.armed;
    idle = v.idle;
    unset = v.unset;
  }

  pub connect-Inv : (s : State P N) → Inv s → Inv (connect s)
  unfolding connect
  connect-Inv s v = open_socket-Inv _ (cleared (Option-cases s.socket.reconnect_timer)) refl
    where
      cleared :
          (s.socket.reconnect_timer ≡ none) ⊎ ((t : ℕ) × (s.socket.reconnect_timer ≡ some t))
          → Inv (record s {
            socket = record (s.socket) {
              manual_close = false;
              reconnect_timer = none;
              reconnect_attempt = 0;
            };
            host = clear s.socket.reconnect_timer s.host;
          })
      cleared c = record {
        live = λ i. ground (arith, v.live i);
        unborn = λ i. ground (arith, v.unborn i);
        current = λ i. ground (arith, v.current i);
        known = λ t. ground (arith, v.known t);
        armed = λ t. ground arith;
        idle = ground arith;
        unset = λ t. ground (arith, v.unset t);
      }

  pub disconnect-Inv : (s : State P N) → Inv s → Inv (disconnect s)
  unfolding disconnect
  disconnect-Inv s v = record {
    live = λ i. ground (arith, v.live i);
    unborn = λ i. ground (arith, v.unborn i);
    current = λ i. ground (arith, v.current i);
    known = λ t. ground (arith, v.known t);
    armed = λ t. ground arith;
    idle = ground arith;
    unset = λ t. ground (arith, v.unset t);
  }

  send-Inv : (p : P) (s : State P N) → Inv s → Inv (send p s).0
  unfolding send
  send-Inv p s v = record {
    live = λ i. ground (arith, v.live i);
    unborn = λ i. ground (arith, v.unborn i);
    current = λ i. ground (arith, v.current i);
    known = λ t. ground (arith, v.known t);
    armed = λ t. ground (arith, v.armed t);
    idle = ground (arith, v.idle);
    unset = λ t. ground (arith, v.unset t);
  }

  -- A message changes no more than the callbacks made.
  pub on_receive_calls :
      (id : ℕ) (raw : Decoded N) (s : State P N)
      → ((on_receive id raw s).socket ≡ s.socket) × ((on_receive id raw s).host ≡ s.host)
  unfolding on_receive
  on_receive_calls id raw s = ground arith

  pub on_receive-Inv :
      (id : ℕ) (raw : Decoded N) (s : State P N) → Inv s → Inv (on_receive id raw s)
  on_receive-Inv id raw s v =
      let (k, h) = on_receive_calls id raw s in
      record {
        live = λ i. rw (k, h) (v.live i);
        unborn = λ i. rw h (v.unborn i);
        current = λ i. rw (k, h) (v.current i);
        known = λ t. rw (k, h) (v.known t);
        armed = λ t. rw (k, h) (v.armed t);
        idle = rw k v.idle;
        unset = λ t. rw h (v.unset t);
      }

  on_timer-Inv :
      (id : ℕ) (s : State P N) → enabled (fires id) s ≡ true → Inv s → Inv (on_timer id s)
  unfolding on_timer enabled
  on_timer-Inv id s e v =
      open_socket-Inv _
        (record {
          live = v.live;
          unborn = v.unborn;
          current = v.current;
          known = λ t. ground (arith, v.known t, v.known id);
          armed = λ t. ground arith;
          idle = ground arith;
          unset = λ t. ground (arith, v.unset t);
        })
        refl

  pub handle-Inv : (e : Event P N) (s : State P N) → enabled e s ≡ true → Inv s → Inv (handle e s)
  unfolding handle
  handle-Inv connects s e v = connect-Inv s v
  handle-Inv disconnects s e v = disconnect-Inv s v
  handle-Inv (sends p) s e v = send-Inv p s v
  handle-Inv (opens id) s e v = on_open-Inv id s e v
  handle-Inv (receives id raw) s e v = on_receive-Inv id raw s v
  handle-Inv (peer_closes id) s e v = peer_closes-Inv id s e v
  handle-Inv (closes id jitter) s e v = on_close-Inv id jitter s e v
  handle-Inv (errors id) s e v = v
  handle-Inv (fires id) s e v = on_timer-Inv id s e v

  pub Reach-Inv : {s t : State P N} → Inv s → Reach s t → Inv t
  Reach-Inv v here = v
  Reach-Inv v (next e r h) = handle-Inv e _ h (Reach-Inv v r)

  pub start-Inv :
      (accepts : String → Bool) (url : String) (base cap : ℕ)
      → Inv {P = P} {N = N} (start accepts (new url base cap))
  unfolding new
  start-Inv accepts url base cap = record {
    live = λ i. ground arith;
    unborn = λ i _. refl;
    current = λ i. ground arith;
    known = λ t. ground arith;
    armed = λ t. ground arith;
    idle = ground arith;
    unset = λ t _. refl;
  }

  -- What no call and no event changes.
  pub record Kept (s t : State P N) : Type 0 where
    pub accepts : t.accepts ≡ s.accepts
    pub url : t.socket.url ≡ s.socket.url
    pub base : t.socket.base_backoff_ms ≡ s.socket.base_backoff_ms
    pub most : t.socket.max_backoff_ms ≡ s.socket.max_backoff_ms

  pub handle-Kept : (e : Event P N) (s : State P N) → Kept s (handle e s)
  unfolding handle
  handle-Kept connects s = record {
    accepts = ground arith;
    url = ground arith;
    base = ground arith;
    most = ground arith;
  }
  handle-Kept disconnects s = record { accepts = refl; url = refl; base = refl; most = refl }
  handle-Kept (sends p) s = record {
    accepts = ground arith;
    url = ground arith;
    base = ground arith;
    most = ground arith;
  }
  handle-Kept (opens id) s = record {
    accepts = ground arith;
    url = ground arith;
    base = ground arith;
    most = ground arith;
  }
  handle-Kept (receives id raw) s = record {
    accepts = ground arith;
    url = ground arith;
    base = ground arith;
    most = ground arith;
  }
  handle-Kept (peer_closes id) s = record { accepts = refl; url = refl; base = refl; most = refl }
  handle-Kept (closes id jitter) s = record {
    accepts = ground arith;
    url = ground arith;
    base = ground arith;
    most = ground arith;
  }
  handle-Kept (errors id) s = record { accepts = refl; url = refl; base = refl; most = refl }
  handle-Kept (fires id) s = record {
    accepts = ground arith;
    url = ground arith;
    base = ground arith;
    most = ground arith;
  }

  pub connect-Kept : (s : State P N) → Kept s (connect s)
  connect-Kept s = unfold handle in handle-Kept connects s

  pub Kept-trans : (s t u : State P N) → Kept s t → Kept t u → Kept s u
  Kept-trans s t u a b = record {
    accepts = b.accepts ∙ a.accepts;
    url = b.url ∙ a.url;
    base = b.base ∙ a.base;
    most = b.most ∙ a.most;
  }

  pub Reach-Kept : {s t : State P N} → Reach s t → Kept s t
  Reach-Kept here = record { accepts = refl; url = refl; base = refl; most = refl }
  Reach-Kept {s = s} (next {t = u} e r h) =
      Kept-trans s u (handle e u) (Reach-Kept r) (handle-Kept e u)

  -- The invariant does not speak of the callbacks made.
  pub forget-Inv : (s : State P N) → Inv s → Inv (record s { calls = [] })
  forget-Inv s v = record {
    live = v.live;
    unborn = v.unborn;
    current = v.current;
    known = v.known;
    armed = v.armed;
    idle = v.idle;
    unset = v.unset;
  }

  -- In every state that any order of method calls and runtime events leads to, two sockets that
  -- are connecting or open are the same socket, it is the one that the object holds, at most one
  -- timer is pending, it is the one that `disconnect` and `connect` would clear, and while it is
  -- pending the object holds no socket and no close was asked for. So no reconnection ever opens a
  -- second connection.
  pub one_connection :
      (accepts : String → Bool) (url : String) (base cap : ℕ) {t : State P N}
      → Reach (start accepts (new url base cap)) t
      → ((i j : ℕ) → is_live (t.host.ready i) ≡ true → is_live (t.host.ready j) ≡ true → i ≡ j)
        × ((i : ℕ) → is_live (t.host.ready i) ≡ true → t.socket.ws ≡ some i)
        × ((i : ℕ)
            → is_some (t.host.timers i) ≡ true
            → (t.socket.reconnect_timer ≡ some i)
              × (t.socket.ws ≡ none)
              × (t.socket.manual_close ≡ false))
  one_connection accepts url base cap {t = t} r =
      let v = Reach-Inv (start-Inv accepts url base cap) r in
      (λ i j. ground (arith, v.live i, v.live j), v.live, λ i. ground (arith, v.known i, v.idle))
