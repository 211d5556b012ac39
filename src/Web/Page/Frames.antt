-- ===== src/Web/Page/Frames.antt =====
-- client/app.js: what the counters of frames say.
use web_dashboard.Prelude.{
  ℕ, ◌+◌, ◌-◌, ◌≤◌, ◌<◌, ◌≡◌, ◌↔◌, refl, true, none, some, String, List, [], ◌∷◌, length, arith,
  Option, Option-cases, inl, inr,
}
use web_dashboard.Wire.{Message}
use web_dashboard.Web.Page.{Page, pill, is_stale, shows_connected, socket_open}
use web_dashboard.Web.Page.Counting.{Counters, count_frame}

-- A frame that reached the page: when, and the two numbers of its status.
pub record Arrival : Type 0 where
  pub at : ℕ
  pub seq : ℕ
  pub drop : ℕ

-- Frames of one run of the server, in order: the sequence numbers grow, and so does the number of
-- frames that the server says it has dropped, each of which has used up a sequence number.
unfoldable pub InOrder : ℕ → ℕ → List Arrival → Type 0
InOrder last drop [] = Unit
InOrder last drop (a ∷ rest) =
    last < a.seq × drop ≤ a.drop × a.drop + last < a.seq + drop × InOrder a.seq a.drop rest

module _ {ℓ} {N : Type ℓ} where
  abbrev pub frame : (String → Option N) → Arrival → Message N
  frame sig a = record {
    kind = none;
    t_ms = none;
    sig = some sig;
    status = some (record { seq = some a.seq; drop = some a.drop });
  }

  pub count_all : (String → Option N) → List Arrival → Counters N → Counters N
  count_all sig [] c = c
  count_all sig (a ∷ rest) c = count_all sig rest (count_frame a.at (frame sig a) c)

  count_frame_gap :
      (sig : String → Option N) (a : Arrival) (c : Counters N) (last : ℕ)
      → c.last_seq ≡ some last
      → last < a.seq
      → c.last_server_drop ≤ a.drop
      → a.drop + last < a.seq + c.last_server_drop
      → let c' = count_frame a.at (frame sig a) c in
        c'.local_drop_count + a.drop + last + 1 ≡ a.seq + c.local_drop_count + c.last_server_drop
  unfolding count_frame
  count_frame_gap sig a c last has later more fits = ground arith

  -- Over frames of one run of the server, in order, whose sequence numbers grow by more than its count
  -- of dropped frames does, every sequence number from the last one on is accounted for exactly once: its frame reached the
  -- page, the server counts it as dropped, or the page counts it as lost on the way.
  pub frames_accounted :
      (sig : String → Option N) (rest : List Arrival) (c : Counters N) (last : ℕ)
      → c.last_seq ≡ some last
      → InOrder last c.last_server_drop rest
      → let c' = count_all sig rest c in
        (last' : ℕ) × (c'.last_seq ≡ some last')
        × (last + length rest + c'.local_drop_count + c'.last_server_drop
            ≡ last' + c.local_drop_count + c.last_server_drop)
  unfolding count_all InOrder count_frame
  frames_accounted sig [] c last has order = (last, has, omega arith)
  frames_accounted sig (a ∷ rest) c last has order =
      let c' = count_frame a.at (frame sig a) c in
      let gap = count_frame_gap sig a c last has order.0 order.1 order.2 in
      let (last', has', sum) = frames_accounted sig rest c' a.seq refl order.3 in
      (last', has', omega (arith, gap, sum))

  -- The page shows the connection as connected exactly when its socket is open and the last frame came
  -- within the last 1500 ms.
  pub pill_connected :
      (now : ℕ) (p : Page N)
      → (pill now p ≡ shows_connected) ↔ (
          (socket_open p ≡ true)
          × ((t : ℕ) × (p.counters.last_frame_recv_ms ≡ some t) × (now - t ≤ 1500)))
  unfolding pill is_stale
  pill_connected now p = elim (Option-cases p.counters.last_frame_recv_ms) [
    | inl e ↦ (λ h. ground (arith, e), λ h. ground (arith, e, h.1.1))
    | inr (t, e) ↦ (
      λ h. (ground (arith, e), (t, e, ground (arith, e))),
      λ h. ground (arith, h.0, h.1.1, h.1.2),
    )
  ]
