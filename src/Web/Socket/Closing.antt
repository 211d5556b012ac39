-- ===== src/Web/Socket/Closing.antt =====
-- client/ws.js between a wanted and an unwanted close: it keeps trying, or it stays quiet.
use web_dashboard.Prelude.{
  ℕ, ◌≡◌, ◌≢◌, refl, true, false, none, some, inl, inr, Option-cases, arith, String, is_some, ◌||◌,
  Bool, ◌⊎◌,
}
use web_dashboard.Host.{is_live}
use web_dashboard.Web.Socket.{
  State, Event, connects, disconnects, sends, opens, receives, peer_closes, closes, errors, fires,
  enabled, handle, Reach, here, next, start, new, connect, disconnect, on_receive,
}
use web_dashboard.Web.Socket.Invariant.{
  Inv, connect-Inv, Kept, connect-Kept, Reach-Kept, disconnect-Inv, on_receive-Inv,
  on_receive_calls, handle-Inv, Reach-Inv, start-Inv,
}
use web_dashboard.Wire.{Decoded}

module _ {ℓ κ} {P : Type ℓ} {N : Type κ} where
  -- Unless a close was asked for there is a socket, or a timer that will open one.
  abbrev IsTrying : State P N → Type 0
  IsTrying s =
      s.socket.manual_close ≡ false → is_some s.socket.ws || is_some s.socket.reconnect_timer ≡ true

  -- `new WebSocket` takes the address.
  abbrev IsGiven : State P N → Type 0
  IsGiven s = s.accepts s.socket.url ≡ true

  Kept-IsGiven : (s t : State P N) → Kept s t → IsGiven s → IsGiven t
  Kept-IsGiven s t k g = rw (k.accepts, k.url) g

  handle-IsTrying : (e : Event P N) (s : State P N) → IsGiven s → IsTrying s → IsTrying (handle e s)
  unfolding handle
  handle-IsTrying connects s g v = ground arith
  handle-IsTrying disconnects s g v = ground arith
  handle-IsTrying (sends p) s g v = ground arith
  handle-IsTrying (opens id) s g v = ground arith
  handle-IsTrying (receives id raw) s g v = ground arith
  handle-IsTrying (peer_closes id) s g v = v
  handle-IsTrying (closes id jitter) s g v = ground arith
  handle-IsTrying (errors id) s g v = v
  handle-IsTrying (fires id) s g v = ground arith

  Reach-IsTrying : {s t : State P N} → IsGiven s → IsTrying s → Reach s t → IsTrying t
  Reach-IsTrying g v here = v
  Reach-IsTrying {s = s} g v (next {t = u} e r h) =
      handle-IsTrying e u (Kept-IsGiven s u (Reach-Kept r) g) (Reach-IsTrying g v r)

  connect-IsTrying : (s : State P N) → IsGiven s → IsTrying (connect s)
  unfolding connect
  connect-IsTrying s g = ground arith

  -- A pending reconnection makes a socket when it fires.
  fires-opens :
      (s : State P N) (i : ℕ)
      → IsGiven s
      → s.socket.ws ≡ none
      → let u = handle (fires i) s in
        (u.socket.ws ≡ some s.host.next_socket) × (is_live (u.host.ready s.host.next_socket) ≡ true)
  unfolding handle
  fires-opens s i g lost = ground arith

  -- What goes on in a state that tries to connect.
  trying :
      (t : State P N)
      → Inv t
      → IsGiven t
      → t.socket.manual_close ≡ false
      → IsTrying t
      → ((i : ℕ) × (t.socket.ws ≡ some i) × (enabled (closes i 0) t ≡ true))
        ⊎ ((i : ℕ) × (t.socket.reconnect_timer ≡ some i)
            × (enabled (fires i) t ≡ true)
            × (let u = handle (fires i) t in
                (u.socket.ws ≡ some t.host.next_socket)
                × (is_live (u.host.ready t.host.next_socket) ≡ true)))
  unfolding enabled
  trying t v g wanted try = elim (Option-cases t.socket.ws) [
    | inr (i, held) ↦ inl (i, held, ground (arith, v.current i held))
    | inl lost ↦ elim (Option-cases t.socket.reconnect_timer) [
      | inr (i, pending) ↦ inr (i, pending, v.armed i pending, fires-opens t i g lost)
      | inl idle ↦ absurd (ground (arith, try wanted, lost, idle))
    ]
  ]

  -- Once `connect` was called, in any state that a run from a new object leads to and with an address
  -- that `new WebSocket` takes: in every later state, unless a close was asked for, the object holds a
  -- socket whose `close` event can still come, or a timer is pending that the runtime can fire, and
  -- its firing makes a socket, which is then connecting.
  pub never_gives_up :
      (accepts : String → Bool) (url : String) (base cap : ℕ) {s t : State P N}
      → accepts url ≡ true
      → Reach (start accepts (new url base cap)) s
      → Reach (connect s) t
      → t.socket.manual_close ≡ false
      → ((i : ℕ) × (t.socket.ws ≡ some i) × (enabled (closes i 0) t ≡ true))
        ⊎ ((i : ℕ) × (t.socket.reconnect_timer ≡ some i)
            × (enabled (fires i) t ≡ true)
            × (let u = handle (fires i) t in
                (u.socket.ws ≡ some t.host.next_socket)
                × (is_live (u.host.ready t.host.next_socket) ≡ true)))
  unfolding new
  never_gives_up accepts url base cap {s = s} {t = t} g before after wanted =
      let given = Kept-IsGiven (start accepts (new url base cap)) s (Reach-Kept before) g in
      let given' = Kept-IsGiven s (connect s) (connect-Kept s) given in
      let v = Reach-Inv (connect-Inv s (Reach-Inv (start-Inv accepts url base cap) before)) after in
      trying t v (Kept-IsGiven (connect s) t (Reach-Kept after) given') wanted
        (Reach-IsTrying given' (connect-IsTrying s given) after)

  -- Any calls and events but `connect`.
  abbrev pub is_connect : Event P N → Bool
  is_connect connects = true
  is_connect _ = false

  pub data Drift (s : State P N) : State P N → Type (ℓ ⊔ κ) where
    stay : Drift s s
    move :
        {t : State P N} (e : Event P N)
        → Drift s t
        → enabled e t ≡ true
        → is_connect e ≡ false
        → Drift s (handle e t)

  record IsShut (count : ℕ) (s : State P N) : Type 0 where
    pub inv : Inv s
    pub wanted : s.socket.manual_close ≡ true
    pub counted : s.host.next_socket ≡ count
    pub still : (i : ℕ) → is_live (s.host.ready i) ≡ false

  disconnect-IsShut : (s : State P N) → Inv s → IsShut s.host.next_socket (disconnect s)
  unfolding disconnect
  disconnect-IsShut s v = record {
    inv = disconnect-Inv s v;
    wanted = refl;
    counted = ground arith;
    still = λ i. ground (arith, v.live i);
  }

  on_receive-IsShut :
      (n id : ℕ) (raw : Decoded N) (s : State P N) → IsShut n s → IsShut n (on_receive id raw s)
  on_receive-IsShut n id raw s v =
      let (k, h) = on_receive_calls id raw s in
      record {
        inv = on_receive-Inv id raw s v.inv;
        wanted = rw k v.wanted;
        counted = rw h v.counted;
        still = λ i. rw h (v.still i);
      }

  fires_never : (n id : ℕ) (s : State P N) → IsShut n s → enabled (fires id) s ≢ true
  unfolding enabled
  fires_never n id s v e = ground (arith, v.inv.known id e, v.inv.idle)

  handle-IsShut :
      (n : ℕ) (e : Event P N) (s : State P N)
      → enabled e s ≡ true
      → is_connect e ≡ false
      → IsShut n s
      → IsShut n (handle e s)
  unfolding handle
  handle-IsShut n connects s e c v = cc
  handle-IsShut n disconnects s e c v = record {
    inv = disconnect-Inv s v.inv;
    wanted = refl;
    counted = ground (arith, v.counted);
    still = λ i. ground (arith, v.still i);
  }
  handle-IsShut n (sends p) s e c v = record {
    inv = handle-Inv (sends p) s e v.inv;
    wanted = ground (arith, v.wanted);
    counted = ground (arith, v.counted);
    still = λ i. ground (arith, v.still i);
  }
  handle-IsShut n (opens id) s e c v = record {
    inv = handle-Inv (opens id) s e v.inv;
    wanted = ground (arith, v.wanted);
    counted = ground (arith, v.counted);
    still = λ i. unfold enabled in ground (arith, v.still i, v.still id);
  }
  handle-IsShut n (receives id raw) s e c v = on_receive-IsShut n id raw s v
  handle-IsShut n (peer_closes id) s e c v = record {
    inv = handle-Inv (peer_closes id) s e v.inv;
    wanted = v.wanted;
    counted = v.counted;
    still = λ i. ground (arith, v.still i);
  }
  handle-IsShut n (closes id jitter) s e c v = record {
    inv = handle-Inv (closes id jitter) s e v.inv;
    wanted = ground (arith, v.wanted);
    counted = ground (arith, v.counted, v.wanted);
    still = λ i. ground (arith, v.still i, v.wanted);
  }
  handle-IsShut n (errors id) s e c v = v
  handle-IsShut n (fires id) s e c v = absurd (fires_never n id s v e)

  Drift-IsShut : {n : ℕ} {s t : State P N} → IsShut n s → Drift s t → IsShut n t
  Drift-IsShut v stay = v
  Drift-IsShut {n = n} v (move e d h c) = handle-IsShut n e _ h c (Drift-IsShut v d)

  -- After `disconnect`, in any state that a run from a new object leads to, no order of other calls
  -- and events makes a socket, has a connecting or open one, or has a timer pending, until `connect`.
  pub quiet_after_disconnect :
      (accepts : String → Bool) (url : String) (base cap : ℕ) {s t : State P N}
      → Reach (start accepts (new url base cap)) s
      → Drift (disconnect s) t
      → (t.host.next_socket ≡ s.host.next_socket)
        × ((i : ℕ) → is_live (t.host.ready i) ≡ false)
        × ((i : ℕ) → is_some (t.host.timers i) ≡ false)
  quiet_after_disconnect accepts url base cap {s = s} r d =
      let v = Drift-IsShut (disconnect-IsShut s (Reach-Inv (start-Inv accepts url base cap) r)) d in
      (v.counted, v.still, λ i. ground (arith, v.inv.known i, v.inv.idle, v.wanted))
