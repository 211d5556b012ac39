-- ===== src/Mobile/WsClient/Orphans.antt =====
-- What mobile/src/telemetry/ws-client.js does with sockets that it no longer holds: its listeners do
-- not ask whether their socket is the current one, and `connect` does not close the one that it has.
use native.Mathlib.Nat.{pow-suc}
use web_dashboard.Prelude.{
  ℕ, zero, suc, ◌*◌, ◌^◌, ◌<◌, ◌≡◌, ◌≢◌, refl, ◌∙◌, ap, subst, ◌⊎◌, inl, inr, Option-cases, true,
  false, none, some, arith, min, String, is_some,
}
use web_dashboard.Host.{is_live, Timer, interval, timeout}
use web_dashboard.Mobile.Protocol.{Payload}
use web_dashboard.Mobile.WsClient.{
  State, Listeners, Reach, start, connect, disconnect, send_json, on_close, on_timer, has_url, lose,
  emit_state, schedule_reconnect, max_backoff_ms,
}
use web_dashboard.Mobile.WsClient.Timers.{Inv, Reach-Inv, start-Inv}

doubled : (n : ℕ) → min (min 15000 (1000 * 2 ^ n) * 2) 15000 ≡ min 15000 (1000 * 2 ^ suc n)
doubled n = rw (pow-suc 2 n) (omega arith)

module _ {ℓ} {N : Type ℓ} where
  -- After an unwanted close the object holds nothing and has a reconnection pending.
  after_close :
      (s : State N) (id : ℕ)
      → s.client.manual_close ≡ false
      → let t = on_close id s in
        (t.client.ws ≡ none)
        × (t.client.url ≡ s.client.url)
        × (t.client.backoff_ms ≡ min (s.client.backoff_ms * 2) max_backoff_ms)
        × (t.host.next_socket ≡ s.host.next_socket)
        × (t.host.timers s.host.next_timer ≡ some (timeout s.client.backoff_ms))
  unfolding on_close lose emit_state schedule_reconnect
  after_close s id kept = ground arith

  after_close_other :
      (s : State N) (id w : ℕ) → id ≢ w → (on_close id s).host.ready w ≡ s.host.ready w
  unfolding on_close lose emit_state schedule_reconnect
  after_close_other s id w other = ground arith

  -- The reconnection opens a socket, whatever the object holds.
  after_timeout :
      (s : State N) (k d now : ℕ)
      → s.host.timers k ≡ some (timeout d)
      → has_url s.client.url ≡ true
      → let t = on_timer k now s in
        (t.client.ws ≡ some s.host.next_socket)
        × (t.client.url ≡ s.client.url)
        × (t.client.backoff_ms ≡ s.client.backoff_ms)
        × (t.client.manual_close ≡ s.client.manual_close)
        × (is_live (t.host.ready s.host.next_socket) ≡ true)
  unfolding on_timer
  after_timeout s k d now pending usable = ground arith

  after_timeout_other :
      (s : State N) (k w d now : ℕ)
      → s.host.timers k ≡ some (timeout d)
      → w < s.host.next_socket
      → (on_timer k now s).host.ready w ≡ s.host.ready w
  unfolding on_timer
  after_timeout_other s k w d now pending made = ground arith

  send_json_idle : (p : Payload N) (s : State N) → s.client.ws ≡ none → send_json p s ≡ (s, false)
  unfolding send_json
  send_json_idle p s h = ground arith

  -- When the close event of another socket arrives while the object holds a live one and no close was
  -- asked for, the object lets go of the live socket, reports that nothing can be sent although the
  -- socket is still live, and arms a reconnection; when that fires there are two live sockets.
  pub stale_close :
      (s : State N) (w id now : ℕ) (p : Payload N)
      → s.client.ws ≡ some w
      → is_live (s.host.ready w) ≡ true
      → w < s.host.next_socket
      → s.client.manual_close ≡ false
      → has_url s.client.url ≡ true
      → id ≢ w
      → let t = on_close id s in
        let u = on_timer s.host.next_timer now t in
        (t.client.ws ≡ none)
        × (is_live (t.host.ready w) ≡ true)
        × (send_json p t ≡ (t, false))
        × (is_live (u.host.ready w) ≡ true)
        × (u.client.ws ≡ some s.host.next_socket)
        × (is_live (u.host.ready s.host.next_socket) ≡ true)
        × (s.host.next_socket ≢ w)
  stale_close s w id now p held live made kept usable other =
      let t = on_close id s in
      let (idle, same_url, _, same_count, pending) = after_close s id kept in
      let (opens_new, _, _, _, new_live) =
        after_timeout t s.host.next_timer s.client.backoff_ms now pending (rw same_url usable) in
      let still : t.host.ready w ≡ s.host.ready w = after_close_other s id w other in
      let later =
        after_timeout_other t s.host.next_timer w s.client.backoff_ms now pending
          (omega (arith, same_count)) in
      (
        idle,
        rw still live,
        send_json_idle p t idle,
        rw (later, still) live,
        opens_new ∙ ap some same_count,
        subst (λ n. is_live ((on_timer s.host.next_timer now t).host.ready n) ≡ true) same_count
            new_live,
        omega arith,
      )

  -- `connect` over a live socket lets go of it without closing it: it stays live beside the new one,
  -- and also after a `disconnect`.
  pub connect_leaks :
      (s : State N) (w : ℕ) (url : String)
      → s.client.ws ≡ some w
      → is_live (s.host.ready w) ≡ true
      → w < s.host.next_socket
      → has_url (some url) ≡ true
      → let t = connect url s in
        (t.client.ws ≡ some s.host.next_socket)
        × (is_live (t.host.ready s.host.next_socket) ≡ true)
        × (is_live (t.host.ready w) ≡ true)
        × (is_live ((disconnect t).host.ready w) ≡ true)
        × (s.host.next_socket ≢ w)
  unfolding connect disconnect
  connect_leaks s w url held live made usable = ground arith

  pending_known :
      (s : State N) (k : ℕ) (t : Timer)
      → Inv s
      → s.host.timers k ≡ some t
      → (s.client.reconnect_timer ≡ some k) ⊎ (s.client.ping_timer ≡ some k)
  pending_known s k (timeout d) v e = inl (v.retry k d e).0
  pending_known s k (interval d) v e = inr (v.ping k d e).0

  -- `disconnect` leaves no timer pending: neither a reconnection nor a ping interval
  -- survives it, the object holds no socket, and the one that it held is no longer live.
  pub disconnect_clears :
      (l : Listeners) {s : State N}
      → Reach (start l) s
      → let t = disconnect s in
        ((k : ℕ) → t.host.timers k ≡ none)
        × (t.client.ws ≡ none)
        × ((w : ℕ) → s.client.ws ≡ some w → is_live (t.host.ready w) ≡ false)
  unfolding disconnect
  disconnect_clears l {s = s} r =
      let v = Reach-Inv (start-Inv l) r in
      (
        λ k. elim (Option-cases (s.host.timers k)) [
          | inl e ↦ ground arith
          | inr (t, e) ↦ ground (arith, pending_known s k t v e)
        ],
        ground arith,
        λ w held. ground arith,
      )

  -- The current socket closes unwanted, and the timer set for it fires.
  pub round : State N → State N
  round s = elim s.client.ws [ none ↦ s | some id ↦ on_timer s.host.next_timer 0 (on_close id s) ]

  pub rounds : ℕ → State N → State N
  rounds zero s = s
  rounds (suc n) s = round (rounds n s)

  -- Before each of the rounds of `rounds` the object has its socket.
  record IsRetrying (n : ℕ) (s : State N) : Type 0 where
    pub holds : is_some s.client.ws ≡ true
    pub unwanted : s.client.manual_close ≡ false
    pub usable : has_url s.client.url ≡ true
    pub delay : s.client.backoff_ms ≡ min max_backoff_ms (1000 * 2 ^ n)

  after_close_kept :
      (s : State N) (id : ℕ) → (on_close id s).client.manual_close ≡ s.client.manual_close
  unfolding on_close lose emit_state schedule_reconnect
  after_close_kept s id = ground arith

  round-IsRetrying : (n : ℕ) (s : State N) → IsRetrying n s → IsRetrying (suc n) (round s)
  unfolding round
  round-IsRetrying n s v = elim (Option-cases s.client.ws) [
    | inl e ↦ ground (arith, e, v.holds)
    | inr (id, e) ↦
        let t = on_close id s in
        let (_, same_url, grown, _, pending) = after_close s id v.unwanted in
        let (new, url_too, delay_too, kept, _) =
          after_timeout t s.host.next_timer s.client.backoff_ms 0 pending (rw same_url v.usable) in
        rw (e, round)
          (record {
            holds = rw new refl;
            unwanted = kept ∙ after_close_kept s id ∙ v.unwanted;
            usable = ap has_url (url_too ∙ same_url) ∙ v.usable;
            delay = delay_too ∙ grown ∙ ap (λ b. min (b * 2) 15000) v.delay ∙ doubled n;
          })
  ]

  connect-IsRetrying :
      (url : String) (s : State N) → has_url (some url) ≡ true → IsRetrying 0 (connect url s)
  unfolding connect
  connect-IsRetrying url s h = record {
    holds = ground arith;
    unwanted = ground arith;
    usable = ground arith;
    delay = ground arith;
  }

  rounds-IsRetrying : (n : ℕ) (s : State N) → IsRetrying 0 s → IsRetrying n (rounds n s)
  unfolding rounds
  rounds-IsRetrying zero s v = v
  rounds-IsRetrying (suc n) s v = round-IsRetrying n (rounds n s) (rounds-IsRetrying n s v)

  -- After `connect` to a usable address and n rounds in which the socket closes unwanted and the
  -- reconnection fires, with no open in between, the object again holds a socket, and the next
  -- reconnection will wait for min(15000, 1000 * 2^n) milliseconds.
  pub rounds_delay :
      (url : String) (s : State N) (n : ℕ)
      → has_url (some url) ≡ true
      → let t = rounds n (connect url s) in
        (is_some t.client.ws ≡ true) × (t.client.backoff_ms ≡ min 15000 (1000 * 2 ^ n))
  rounds_delay url s n h =
      let v = rounds-IsRetrying n (connect url s) (connect-IsRetrying url s h) in (v.holds, v.delay)
