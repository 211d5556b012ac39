-- ===== src/Mobile/App/Accounts.antt =====
-- Every fix is accounted for (mobile/src/App.js).
use web_dashboard.Prelude.{
  ℕ, suc, ◌+◌, ◌≡◌, refl, ap, ◌∙◌, Bool, true, false, some, List, [], ◌∷◌, ◌++◌, arith, length, ◌⊎◌,
  inl, inr, Bool-cases, ltb, All, All-append, All-drop, ◌||◌, not, Option-cases, if◌then◌else◌,
}
use web_dashboard.Mobile.Protocol.{Fix, Payload, Body, gps, create_gps_payload, stamp_queued}
use web_dashboard.Mobile.Queue.{Queue, Codec, Storage, accepted, declined, drain, push}
use web_dashboard.Mobile.Queue.Window.{
  enqueue-push, push-items, push-length, push-overflow, push-loaded,
}
use web_dashboard.Mobile.Queue.Drain.{drain_accepted, drain_declined, drain-limit, flush_calm}
use web_dashboard.Mobile.WsClient.{State, is_open_now, send_json}
use web_dashboard.Mobile.App.{App, build_meta, send_queued, flush_queued_gps, send_gps_uplink}

-- Whether a payload is a fix.
abbrev pub is_gps {ℓ} : {N : Type ℓ} → Body N → Bool
is_gps (gps fix meta) = true
is_gps _ = false

abbrev pub weight {ℓ} : {N : Type ℓ} → Payload N → ℕ
weight p = if is_gps p.body then 1 else 0

abbrev pub IsGps {ℓ} : {N : Type ℓ} → Payload N → Type 0
IsGps p = is_gps p.body ≡ true

module _ {ℓ} {N : Type ℓ} where
  -- How many of the frames are fixes.
  abbrev pub gps_frames : List (ℕ × Payload N) → ℕ
  gps_frames [] = 0
  gps_frames ((id, p) ∷ fs) = weight p + gps_frames fs

  abbrev pub frames : State N → ℕ
  frames w = gps_frames w.host.sent

  gps_frames-append :
      (xs : List (ℕ × Payload N)) (id : ℕ) (p : Payload N)
      → gps_frames (xs ++ (id, p) ∷ []) ≡ gps_frames xs + weight p
  gps_frames-append [] id p = omega arith
  gps_frames-append ((i, q) ∷ xs) id p = omega (arith, gps_frames-append xs id p)

  -- A call of `sendJson` adds one frame and answers true, or adds none and answers false.
  pub send_json_adds :
      (p : Payload N) (w : State N)
      → (((send_json p w).1 ≡ true) × (frames (send_json p w).0 ≡ frames w + weight p))
        ⊎ (send_json p w ≡ (w, false))
  unfolding send_json is_open_now
  send_json_adds p w = elim (Bool-cases (is_open_now w)) [
    | inr shut ↦ inr (rw (shut, send_json))
    | inl ready ↦ elim (Option-cases w.client.ws) [
      | inl e ↦ ground (arith, ready, e)
      | inr (id, e) ↦ inl (
        rw (ready, send_json) refl,
        rw (ready, e, send_json) (gps_frames-append w.host.sent id p),
      )
    ]
  ]

  send_queued_adds :
      (w : State N) (p : Payload N)
      → (((send_queued w p).1 ≡ accepted) × (frames (send_queued w p).0 ≡ frames w + weight p))
        ⊎ (send_queued w p ≡ (w, declined))
  unfolding send_queued
  send_queued_adds w p = elim (send_json_adds p w) [
    | inl (e, n) ↦ inl (rw (e, send_queued) refl, n)
    | inr e ↦ inr (rw (e, send_queued) refl)
  ]

  drain-adds :
      (limit sent : ℕ) (xs : List (Payload N)) (w : State N)
      → All IsGps xs
      → let d = drain send_queued limit sent xs w in
        (frames d.world + length d.items ≡ frames w + length xs)
        × (d.threw ≡ false)
        × All IsGps d.items
  unfolding drain
  drain-adds limit sent [] w g = (refl, refl, tt)
  drain-adds limit sent (x ∷ xs) w g = elim (Bool-cases (ltb sent limit)) [
    | inr full ↦ rw (drain-limit send_queued limit sent x xs w full) (refl, refl, g)
    | inl more ↦ elim (send_queued_adds w x) [
      | inr e ↦
          rw (drain_declined send_queued limit sent x xs w more (ap (λ r. r.1) e), e)
            (refl, refl, g)
      | inl (e, n) ↦
          let (sum, calm, still) = drain-adds limit (suc sent) xs (send_queued w x).0 g.1 in
          rw (drain_accepted send_queued limit sent x xs w more e)
            (ground (arith, sum, n, g.0), calm, still)
    ]
  ]

-- The fixes sent, queued and dropped so far.
abbrev pub accounted {ℓ ℓ'} : {N : Type ℓ} {S : Type ℓ'} → App N S → ℕ
accounted a = frames a.ws + length a.queue.items + a.queue.overflow_count

-- The queue has been read from the store, and it holds fixes only; no flush is under way.
pub record IsSound {ℓ ℓ'} {N : Type ℓ} {S : Type ℓ'} (a : App N S) : Type 0 where
  pub loaded : a.queue.loaded ≡ true
  pub idle : a.queue.flushing ≡ false
  pub fixes : All IsGps a.queue.items

module _ {ℓ ℓ'} {N : Type ℓ} {S : Type ℓ'} (codec : Codec (Payload N)) (storage : Storage S) where
  -- `a` accounts for `n` fixes, and is sound.
  abbrev pub Keeps : ℕ → App N S → Type 0
  Keeps n a = (accounted a ≡ n) × IsSound a

  pub flush-Keeps :
      (a : App N S) → IsSound a → Keeps (accounted a) (flush_queued_gps codec storage a)
  unfolding flush_queued_gps
  flush-Keeps a v = elim (Bool-cases (a.flushing || not (is_open_now a.ws))) [
    | inl busy ↦ rw (busy, flush_queued_gps) (refl, v)
    | inr go ↦
        let (sum, calm, still) = drain-adds 200 0 a.queue.items a.ws v.fixes in
        rw
          (
            go,
            flush_queued_gps,
            flush_calm codec storage send_queued 200 a.queue a.store a.ws v.idle v.loaded calm,
          )
          (omega (arith, sum), record { loaded = v.loaded; idle = refl; fixes = still })
  ]

  push-Keeps :
      (q : Queue (Payload N)) (p : Payload N)
      → IsGps p
      → All IsGps q.items
      → (length (push q p).items + (push q p).overflow_count
          ≡ length q.items + q.overflow_count + 1)
        × All IsGps (push q p).items
  push-Keeps q p g h = (
    omega (arith, push-length q p, push-overflow q p),
    rw (push-items q p)
        (All-drop IsGps _ (q.items ++ p ∷ []) (All-append IsGps q.items (p ∷ []) h (g, tt))),
  )

  gps_weight :
      (fix : Fix N) (a : App N S) (now : ℕ)
      → weight (create_gps_payload fix (some (build_meta a.app_state a.platform)) now) ≡ 1
  unfolding create_gps_payload
  gps_weight fix a now = refl

  stamped-IsGps :
      (fix : Fix N) (a : App N S) (now later : ℕ)
      → IsGps (
          stamp_queued
            (create_gps_payload fix (some (build_meta a.app_state a.platform)) now)
            later)
  unfolding create_gps_payload stamp_queued
  stamped-IsGps fix a now later = refl

  push-idle : (q : Queue (Payload N)) (p : Payload N) → (push q p).flushing ≡ q.flushing
  unfolding push
  push-idle q p = ground arith

  pub uplink-Keeps :
      (fix : Fix N) (now later : ℕ) (a : App N S)
      → IsSound a
      → Keeps (accounted a + 1) (send_gps_uplink codec storage fix now later a)
  unfolding send_gps_uplink
  uplink-Keeps fix now later a v =
      let p = create_gps_payload fix (some (build_meta a.app_state a.platform)) now in
      let stamped = stamp_queued p later in
      elim (send_json_adds p a.ws) [
        | inl (e, n) ↦
            let b = record a { ws = (send_json p a.ws).0 } in
            let (sum, sound) =
              flush-Keeps b (record { loaded = v.loaded; idle = v.idle; fixes = v.fixes }) in
            rw (e, send_gps_uplink) (omega (arith, sum, n, gps_weight fix a now), sound)
        | inr e ↦
            let queued = enqueue-push codec storage a.queue a.store stamped v.loaded in
            let (sum, fixes) = push-Keeps a.queue stamped (stamped-IsGps fix a now later) v.fixes in
            rw (e, queued, send_gps_uplink)
              (
                omega (arith, sum),
                record {
                  loaded = push-loaded a.queue stamped ∙ v.loaded;
                  idle = push-idle a.queue stamped ∙ v.idle;
                  fixes = fixes;
                },
              )
      ]
