-- ===== src/Web/Socket/Announced.antt =====
-- client/ws.js: what the statuses announce of the reconnections.
use web_dashboard.Prelude.{
  ℕ, suc, ◌+◌, ◌*◌, ◌^◌, ◌≤◌, ◌<◌, ◌≡◌, none, some, min, Option, List, [], ◌∷◌,
}
use web_dashboard.Host.{Timer, timeout}
use web_dashboard.Web.Socket.{
  State, Callback, Retry, on_status, on_message, on_frame, connecting, connected, disconnected,
  reconnecting,
}

-- A reconnection is announced after n others in a row as attempt n + 1, with a wait of
-- min(cap, base * 2^n) and less than 200 ms more.
abbrev pub PacedAfter : ℕ → ℕ → ℕ → Option Retry → Type 0
PacedAfter base cap n none = ⊥
PacedAfter base cap n (some r) =
    (r.attempt ≡ suc n)
    × (min cap (base * 2 ^ n) ≤ r.wait_ms)
    × (r.wait_ms < min cap (base * 2 ^ n) + 200)

module _ {κ} {N : Type κ} where
  -- How many reconnections were announced since the last `connected`; the latest status stands first.
  abbrev pub streak : List (Callback N) → ℕ
  streak [] = 0
  streak (on_status reconnecting retry ∷ cs) = suc (streak cs)
  streak (on_status connected retry ∷ cs) = 0
  streak (on_status connecting retry ∷ cs) = streak cs
  streak (on_status disconnected retry ∷ cs) = streak cs
  streak (on_message m ∷ cs) = streak cs
  streak (on_frame m ∷ cs) = streak cs

  -- The latest announcement of a reconnection.
  abbrev pub announced : List (Callback N) → Option Retry
  announced [] = none
  announced (on_status reconnecting retry ∷ cs) = retry
  announced (on_status connected retry ∷ cs) = announced cs
  announced (on_status connecting retry ∷ cs) = announced cs
  announced (on_status disconnected retry ∷ cs) = announced cs
  announced (on_message m ∷ cs) = announced cs
  announced (on_frame m ∷ cs) = announced cs

  abbrev pub IsPaced : ℕ → ℕ → List (Callback N) → Type 0
  IsPaced base cap [] = Unit
  IsPaced base cap (on_status reconnecting retry ∷ cs) =
      PacedAfter base cap (streak cs) retry × IsPaced base cap cs
  IsPaced base cap (on_status connected retry ∷ cs) = IsPaced base cap cs
  IsPaced base cap (on_status connecting retry ∷ cs) = IsPaced base cap cs
  IsPaced base cap (on_status disconnected retry ∷ cs) = IsPaced base cap cs
  IsPaced base cap (on_message m ∷ cs) = IsPaced base cap cs
  IsPaced base cap (on_frame m ∷ cs) = IsPaced base cap cs

-- Every pending timer runs as long as the latest announcement says.
unfoldable pub IsTimed {ℓ κ} : {P : Type ℓ} {N : Type κ} → State P N → Type 0
IsTimed s =
    (i : ℕ) (w : Timer)
    → s.host.timers i ≡ some w
    → (r : Retry) × (announced s.calls ≡ some r) × (w ≡ timeout r.wait_ms)
