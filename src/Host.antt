-- ===== src/Host.antt =====
-- What the two WebSocket clients use of their runtime: sockets with a ready state, the frames handed
-- to them, and timers. Sockets and timers are numbered in order of creation.
use web_dashboard.Prelude.{
  ℕ, suc, Bool, true, false, Option, none, some, List, [], ◌∷◌, ◌++◌, if◌then◌else◌, ◌==◌,
}

-- `WebSocket.CONNECTING`, `OPEN`, `CLOSING`, `CLOSED`.
pub data ReadyState : Type 0 where
  connecting opened closing closed : ReadyState

-- `setTimeout` and `setInterval`, with the delay in milliseconds.
pub data Timer : Type 0 where
  timeout interval : ℕ → Timer

pub record Host {ℓ} (P : Type ℓ) : Type ℓ where
  pub next_socket : ℕ
  pub ready : ℕ → ReadyState
  pub sent : List (ℕ × P)
  pub next_timer : ℕ
  pub timers : ℕ → Option Timer

-- `f` changed at one place.
abbrev pub update {ℓ} : {A : Type ℓ} → (ℕ → A) → ℕ → A → ℕ → A
update f p a q = if p == q then a else f q

-- `readyState <= WebSocket.OPEN`.
abbrev pub is_live : ReadyState → Bool
is_live connecting = true
is_live opened = true
is_live _ = false

-- `readyState === WebSocket.OPEN`.
abbrev pub is_open : ReadyState → Bool
is_open opened = true
is_open _ = false

abbrev pub is_connecting : ReadyState → Bool
is_connecting connecting = true
is_connecting _ = false

abbrev pub is_closed : ReadyState → Bool
is_closed closed = true
is_closed _ = false

-- `close()` on an open or connecting socket starts the closing handshake.
abbrev pub after_close : ReadyState → ReadyState
after_close connecting = closing
after_close opened = closing
after_close r = r

module _ {ℓ} {P : Type ℓ} where
  abbrev pub empty_host : Host P
  empty_host = record {
    next_socket = 0;
    ready = λ _. closed;
    sent = [];
    next_timer = 1;
    timers = λ _. none;
  }

  -- `new WebSocket(url)`; its number is `next_socket` of the host before.
  unfoldable pub add_socket : Host P → Host P
  add_socket h = record h {
    next_socket = suc h.next_socket;
    ready = update h.ready h.next_socket connecting;
  }

  unfoldable pub set_ready : ℕ → ReadyState → Host P → Host P
  set_ready id r h = record h { ready = update h.ready id r }

  unfoldable pub close_socket : ℕ → Host P → Host P
  close_socket id h = record h { ready = update h.ready id (after_close (h.ready id)) }

  -- `ws.send`, on an open socket; the oldest frame first.
  unfoldable pub send_on : ℕ → P → Host P → Host P
  send_on id p h = record h { sent = h.sent ++ (id, p) ∷ [] }

  -- A new timer; its number is `next_timer` of the host before.
  unfoldable pub add_timer : Timer → Host P → Host P
  add_timer t h = record h {
    next_timer = suc h.next_timer;
    timers = update h.timers h.next_timer (some t);
  }

  unfoldable pub clear_timer : ℕ → Host P → Host P
  clear_timer id h = record h { timers = update h.timers id none }
