-- ===== src/Web/Socket/Backoff.antt =====
-- How long client/ws.js waits before it reconnects.
use web_dashboard.Prelude.{
  ℕ, suc, ◌+◌, ◌*◌, ◌^◌, ◌≤◌, ◌<◌, ◌≡◌, refl, ◌∙◌, ap, true, false, none, some, arith, min, String,
  Bool, Bool-cases, Option, inl, inr, [], if-holds,
}
use web_dashboard.Host.{Timer, timeout, closed, set_ready, update, clear_timer, is_live}
use web_dashboard.Wire.{Decoded, is_frame}
use web_dashboard.Web.Socket.{
  State, Retry, Event, connects, disconnects, sends, opens, receives, peer_closes, closes, errors,
  fires, enabled, handle, Reach, start, new, connect, on_close, schedule_reconnect, lose,
  is_current, delay, deliver, open_socket, ws_is, clear, send, disconnect,
}
use web_dashboard.Web.Socket.Invariant.{
  Inv, Kept, handle-Kept, connect-Kept, Reach-Kept, Kept-trans, forget-Inv, handle-Inv, connect-Inv,
  Reach-Inv, start-Inv,
}
use web_dashboard.Web.Socket.Closing.{Drift, stay, move, is_connect}
use web_dashboard.Web.Socket.Announced.{streak, announced, IsPaced, IsTimed}

in_range :
    (base cap b c n m jitter : ℕ)
    → b ≡ base
    → c ≡ cap
    → m ≡ n
    → jitter < 200
    → (suc m ≡ suc n)
      × (min cap (base * 2 ^ n) ≤ min c (b * 2 ^ m) + jitter)
      × (min c (b * 2 ^ m) + jitter < min cap (base * 2 ^ n) + 200)
in_range base cap b c n m jitter e f g h = rw (e, f, g) (refl, omega arith, omega arith)

-- The object's count is that of the announcements, and they and the timers are as they should be.
record Paced {ℓ κ} {P : Type ℓ} {N : Type κ} (base cap : ℕ) (s : State P N) : Type 0 where
  pub counted : s.socket.reconnect_attempt ≡ streak s.calls
  pub paced : IsPaced base cap s.calls
  pub timed : IsTimed s

only_timer :
    (timers : ℕ → Option Timer) (n i : ℕ) (t w : Timer)
    → ((j : ℕ) → timers j ≡ none)
    → update timers n (some t) i ≡ some w
    → w ≡ t
only_timer timers n i t w quiet e = ground (arith, e, quiet i)

module _ {ℓ κ} {P : Type ℓ} {N : Type κ} (base cap : ℕ) where
  schedule_reconnect-Paced :
      (jitter : ℕ) (s : State P N)
      → jitter < 200
      → s.socket.base_backoff_ms ≡ base
      → s.socket.max_backoff_ms ≡ cap
      → ((i : ℕ) → s.host.timers i ≡ none)
      → Paced base cap s
      → Paced base cap (schedule_reconnect jitter s)
  unfolding schedule_reconnect IsTimed
  schedule_reconnect-Paced jitter s h b c quiet v =
      let k = s.socket in
      let t = schedule_reconnect jitter s in
      record {
        counted = ap suc v.counted;
        paced = (
          in_range base cap k.base_backoff_ms k.max_backoff_ms (streak s.calls) k.reconnect_attempt
              jitter b c v.counted h,
          v.paced,
        );
        timed = λ i w e. (
          record { wait_ms = delay k + jitter; attempt = suc k.reconnect_attempt },
          refl,
          only_timer s.host.timers s.host.next_timer i (timeout (delay k + jitter)) w quiet e,
        );
      }

  -- The object that holds a socket has no timer pending.
  no_timer :
      (s : State P N) (id : ℕ)
      → Inv s
      → is_current s.socket.ws id ≡ true
      → (i : ℕ) → s.host.timers i ≡ none
  no_timer s id v held i = ground (arith, v.known i, v.idle, held)

  on_close-Paced :
      (id jitter : ℕ) (s : State P N)
      → jitter < 200
      → s.socket.base_backoff_ms ≡ base
      → s.socket.max_backoff_ms ≡ cap
      → Inv s
      → Paced base cap s
      → Paced base cap (on_close id jitter s)
  unfolding on_close IsTimed set_ready
  on_close-Paced id jitter s h b c inv v =
      let s' = record s { host = set_ready id closed s.host } in
      let still : Paced base cap s' = record {
        counted = v.counted;
        paced = v.paced;
        timed = v.timed;
      } in
      let lost : Paced base cap (lose s') = record {
        counted = v.counted;
        paced = v.paced;
        timed = v.timed;
      } in
      elim (Bool-cases (is_current s.socket.ws id)) [
        | inr other ↦ rw other still
        | inl held ↦ rw held (
            if-holds (λ (x : State P N). Paced base cap x) s.socket.manual_close _ _ lost
              (schedule_reconnect-Paced jitter (lose s') h b c (no_timer s id inv held) lost))
      ]

  deliver-Paced :
      (raw : Decoded N) (s : State P N) → Paced base cap s → Paced base cap (deliver raw s)
  unfolding deliver IsTimed
  deliver-Paced none s v = v
  deliver-Paced (some none) s v = record { counted = v.counted; paced = v.paced; timed = v.timed }
  deliver-Paced (some (some m)) s v = elim (Bool-cases (is_frame m)) [
    | inl frame ↦ rw frame (record { counted = v.counted; paced = v.paced; timed = v.timed })
    | inr other ↦ rw other (record { counted = v.counted; paced = v.paced; timed = v.timed })
  ]

  -- `open_socket` announces nothing of a reconnection.
  open_socket-Paced : (s : State P N) → Paced base cap s → Paced base cap (open_socket s)
  unfolding open_socket IsTimed
  open_socket-Paced s v =
      if-holds (λ (x : State P N). Paced base cap x) (ws_is is_live s.socket.ws s.host) _ _ v
        (if-holds (λ (x : State P N). Paced base cap x) (s.accepts s.socket.url) _ _
          (record { counted = v.counted; paced = v.paced; timed = v.timed })
          (record { counted = v.counted; paced = v.paced; timed = v.timed }))

  fewer_timers :
      (s : State P N) (id : ℕ)
      → IsTimed s
      → (i : ℕ) (w : Timer) → update s.host.timers id none i ≡ some w
      → (r : Retry) × (announced s.calls ≡ some r) × (w ≡ timeout r.wait_ms)
  unfolding IsTimed
  fewer_timers s id v i w e = v i w (ground (arith, e))

  -- What the invariant reads stays the same, but for timers that are cleared.
  same-Paced :
      (s t : State P N)
      → t.socket.reconnect_attempt ≡ s.socket.reconnect_attempt
      → t.calls ≡ s.calls
      → ((i : ℕ) (w : Timer) → t.host.timers i ≡ some w → s.host.timers i ≡ some w)
      → Paced base cap s
      → Paced base cap t
  unfolding IsTimed
  same-Paced s t count calls fewer v = record {
    counted = rw (count, calls) v.counted;
    paced = rw calls v.paced;
    timed = λ i w e. rw calls (v.timed i w (fewer i w e));
  }

  handle-Paced :
      (e : Event P N) (s : State P N)
      → enabled e s ≡ true
      → is_connect e ≡ false
      → s.socket.base_backoff_ms ≡ base
      → s.socket.max_backoff_ms ≡ cap
      → Inv s
      → Paced base cap s
      → Paced base cap (handle e s)
  unfolding handle enabled IsTimed
  handle-Paced connects s e n b c inv v = cc
  handle-Paced disconnects s e n b c inv v = record {
    counted = v.counted;
    paced = v.paced;
    timed = λ i w on. v.timed i w (unfold disconnect in ground (arith, on));
  }
  handle-Paced (sends p) s e n b c inv v =
      same-Paced s (send p s).0 (ground arith) (ground arith) (λ i w on. ground (arith, on)) v
  handle-Paced (opens id) s e n b c inv v = elim (Bool-cases (is_current s.socket.ws id)) [
    | inl held ↦ rw held (record { counted = refl; paced = v.paced; timed = v.timed })
    | inr other ↦ rw other (record { counted = v.counted; paced = v.paced; timed = v.timed })
  ]
  handle-Paced (receives id raw) s e n b c inv v =
      if-holds (λ (x : State P N). Paced base cap x) (is_current s.socket.ws id) _ _
        (deliver-Paced raw s v) v
  handle-Paced (peer_closes id) s e n b c inv v = record {
    counted = v.counted;
    paced = v.paced;
    timed = v.timed;
  }
  handle-Paced (closes id jitter) s e n b c inv v =
      on_close-Paced id jitter s (ground arith) b c inv v
  handle-Paced (errors id) s e n b c inv v = v
  handle-Paced (fires id) s e n b c inv v =
      open_socket-Paced
        (record s {
          socket = record (s.socket) { reconnect_timer = none };
          host = clear_timer id s.host;
        })
        (record { counted = v.counted; paced = v.paced; timed = fewer_timers s id v.timed })

  connect-Paced : (s : State P N) → Inv s → Paced base cap (connect (record s { calls = [] }))
  unfolding connect IsTimed
  connect-Paced s v =
      let r : State P N = record s {
        socket = record (s.socket) {
          manual_close = false;
          reconnect_timer = none;
          reconnect_attempt = 0;
        };
        host = clear s.socket.reconnect_timer s.host;
        calls = [];
      } in
      open_socket-Paced r (record {
        counted = refl;
        paced = tt;
        timed = λ i w on. absurd (ground (arith, on, v.known i));
      })

  Drift-Paced :
      {s t : State P N}
      → s.socket.base_backoff_ms ≡ base
      → s.socket.max_backoff_ms ≡ cap
      → Inv s
      → Paced base cap s
      → Drift s t
      → Inv t × Kept s t × Paced base cap t
  Drift-Paced {s = s} b c inv v stay =
      (inv, record { accepts = refl; url = refl; base = refl; most = refl }, v)
  Drift-Paced {s = s} b c inv v (move {t = u} e d on other) =
      let (inv', kept, v') = Drift-Paced b c inv v d in
      (
        handle-Inv e u on inv',
        Kept-trans s u (handle e u) kept (handle-Kept e u),
        handle-Paced e u on other (kept.base ∙ b) (kept.most ∙ c) inv' v',
      )

  -- From a call of `connect` on, in any state that a run from a new object leads to, with the log of
  -- callbacks emptied, and until `connect` is called again: each `reconnecting` status that follows n
  -- others since the last `connected` announces attempt n + 1 with a wait of at least
  -- min(maxBackoffMs, baseBackoffMs * 2^n) and less than 200 ms more, and every pending timer is a
  -- timeout of exactly the wait that was announced last.
  pub retries-IsPaced :
      (accepts : String → Bool) (url : String) {s t : State P N}
      → Reach (start accepts (new url base cap)) s
      → Drift (connect (record s { calls = [] })) t
      → IsPaced base cap t.calls × IsTimed t
  unfolding new
  retries-IsPaced accepts url {s = s} before after =
      let start_state : State P N = start accepts (new url base cap) in
      let inv = Reach-Inv (start-Inv accepts url base cap) before in
      let fresh = record s { calls = [] } in
      let kept = Reach-Kept before in
      let again = connect-Kept fresh in
      let (_, _, v) =
        Drift-Paced (again.base ∙ kept.base) (again.most ∙ kept.most)
          (connect-Inv fresh (forget-Inv s inv)) (connect-Paced s inv) after in
      (v.paced, v.timed)
