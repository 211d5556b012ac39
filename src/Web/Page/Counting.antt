-- ===== src/Web/Page/Counting.antt =====
-- client/app.js: what the page counts of the frames, the lost ones among them.
use web_dashboard.Prelude.{ℕ, ◌+◌, ◌-◌, Option, none, some, ltb, if◌then◌else◌}
use web_dashboard.Wire.{Message}

pub record Counters {ℓ} (N : Type ℓ) : Type ℓ where
  pub last_can_frame : Option (Message N)
  pub last_frame_recv_ms : Option ℕ
  pub last_seq : Option ℕ
  pub last_server_drop : ℕ
  pub local_drop_count : ℕ

-- `Number.isFinite(frame?.status?.drop) ? frame.status.drop : 0`.
abbrev pub server_drop {ℓ} : {N : Type ℓ} → Message N → ℕ
server_drop m = elim m.status [ none ↦ 0 | some s ↦ elim s.drop [ none ↦ 0 | some d ↦ d ] ]

-- `frame?.status?.seq`, where it is finite.
abbrev pub frame_seq {ℓ} : {N : Type ℓ} → Message N → Option ℕ
frame_seq m = elim m.status [ none ↦ none | some s ↦ s.seq ]

-- The frames lost on the way, from the two sequence numbers and the two drop counts.
abbrev pub network_gap : Option ℕ → Option ℕ → ℕ → ℕ → ℕ
network_gap none last drop last_drop = 0
network_gap (some seq) none drop last_drop = 0
network_gap (some seq) (some last) drop last_drop =
    if ltb (last + 1) seq then seq - last - 1 - (drop - last_drop) else 0

abbrev pub newer : Option ℕ → Option ℕ → Option ℕ
newer none last = last
newer (some seq) last = some seq

module _ {ℓ} {N : Type ℓ} where
  abbrev pub no_frames : Counters N
  no_frames = record {
    last_can_frame = none;
    last_frame_recv_ms = none;
    last_seq = none;
    last_server_drop = 0;
    local_drop_count = 0;
  }

  -- The `onFrame` callback, at the time `now` of `performance.now()`.
  unfoldable pub count_frame : ℕ → Message N → Counters N → Counters N
  count_frame now m c = record {
    last_can_frame = some m;
    last_frame_recv_ms = some now;
    last_seq = newer (frame_seq m) c.last_seq;
    last_server_drop = server_drop m;
    local_drop_count =
        c.local_drop_count
        + network_gap (frame_seq m) c.last_seq (server_drop m) c.last_server_drop;
  }
