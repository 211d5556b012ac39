-- ===== src/Mobile/Queue/Drain.antt =====
-- What `flush` delivers, in which order, and where it stops (store-forward-queue.js).
use web_dashboard.Prelude.{
  ℕ, suc, ◌+◌, ◌-◌, ◌≤◌, ◌≡◌, refl, ap, sym, ◌∙◌, ◌⊎◌, inl, inr, Bool, true, false, List, [], ◌∷◌,
  ◌++◌, none, some, arith, length, drop, ltb, ltb→lt, min, length-append, length-drop, Bool-cases,
  drop-nil, drop_eq, drop_of_zero,
}
use web_dashboard.Mobile.Queue.{
  Queue, Codec, Storage, Reply, accepted, declined, thrown, Report, Drained, Flushed, drain, init,
  persist, settle, flush,
}

pub Reply-cases : (r : Reply) → (r ≡ accepted) ⊎ ((r ≡ declined) ⊎ (r ≡ thrown))
Reply-cases accepted = inl refl
Reply-cases declined = inr (inl refl)
Reply-cases thrown = inr (inr refl)

module _ {ℓ κ} {A : Type ℓ} {W : Type κ} (send_fn : W → A → W × Reply) where
  -- The payloads were handed over in this order, and every call was answered by a truthy value.
  abbrev pub Delivers : W → List A → W → Type κ
  Delivers w [] w' = w ≡ w'
  Delivers w (x ∷ xs) w' = ((send_fn w x).1 ≡ accepted) × Delivers (send_fn w x).0 xs w'

  -- Why the loop stopped, from the world in which the last payload was delivered.
  pub data Stops (limit : ℕ) (w : W) (d : Drained A W) : Type (ℓ ⊔ κ) where
    emptied : d.items ≡ [] → d.world ≡ w → d.threw ≡ false → Stops limit w d
    limited : limit ≤ d.sent → d.world ≡ w → d.threw ≡ false → Stops limit w d
    refused :
        (next : A) (rest : List A)
        → d.items ≡ next ∷ rest
        → d.world ≡ (send_fn w next).0
        → ((send_fn w next).1 ≡ declined) × (d.threw ≡ false)
          ⊎ ((send_fn w next).1 ≡ thrown) × (d.threw ≡ true)
        → Stops limit w d

  -- The account of a run of the loop.
  pub record Account (limit sent : ℕ) (xs : List A) (w : W) (d : Drained A W) : Type (ℓ ⊔ κ) where
    pub delivered : List A
    pub after : W
    pub split : xs ≡ delivered ++ d.items
    pub counted : d.sent ≡ sent + length delivered
    pub within : sent ≤ limit → d.sent ≤ limit
    pub in_order : Delivers w delivered after
    pub stop : Stops limit after d

  module _ (limit : ℕ) where
    abbrev halted : ℕ → List A → W → Bool → Drained A W
    halted sent xs w threw = record { items = xs; world = w; sent = sent; threw = threw }

    pub drain-limit :
        (sent : ℕ) (x : A) (xs : List A) (w : W)
        → ltb sent limit ≡ false
        → drain send_fn limit sent (x ∷ xs) w ≡ halted sent (x ∷ xs) w false
    unfolding drain
    drain-limit sent x xs w h = rw (h, drain)

    pub drain_accepted :
        (sent : ℕ) (x : A) (xs : List A) (w : W)
        → ltb sent limit ≡ true
        → (send_fn w x).1 ≡ accepted
        → drain send_fn limit sent (x ∷ xs) w ≡ drain send_fn limit (suc sent) xs (send_fn w x).0
    unfolding drain
    drain_accepted sent x xs w h r = rw (h, r, drain)

    pub drain_declined :
        (sent : ℕ) (x : A) (xs : List A) (w : W)
        → ltb sent limit ≡ true
        → (send_fn w x).1 ≡ declined
        → drain send_fn limit sent (x ∷ xs) w ≡ halted sent (x ∷ xs) (send_fn w x).0 false
    unfolding drain
    drain_declined sent x xs w h r = rw (h, r, drain)

    pub drain_thrown :
        (sent : ℕ) (x : A) (xs : List A) (w : W)
        → ltb sent limit ≡ true
        → (send_fn w x).1 ≡ thrown
        → drain send_fn limit sent (x ∷ xs) w ≡ halted sent (x ∷ xs) (send_fn w x).0 true
    unfolding drain
    drain_thrown sent x xs w h r = rw (h, r, drain)

    halts :
        {sent : ℕ} {xs : List A} {w w' : W} {threw : Bool}
        → Stops limit w (halted sent xs w' threw)
        → Account limit sent xs w (halted sent xs w' threw)
    halts {w = w} stop = record {
      delivered = [];
      after = w;
      split = refl;
      counted = omega arith;
      within = λ h. h;
      in_order = refl;
      stop = stop;
    }

    pub drain-Account :
        (sent : ℕ) (xs : List A) (w : W) → Account limit sent xs w (drain send_fn limit sent xs w)
    unfolding drain
    drain-Account sent [] w = halts (emptied refl refl refl)
    drain-Account sent (x ∷ xs) w = elim (Bool-cases (ltb sent limit)) [
      | inr full ↦ rw (drain-limit sent x xs w full) (halts (limited (ground arith) refl refl))
      | inl more ↦ elim (Reply-cases (send_fn w x).1) [
        | inl r ↦
            rw (drain_accepted sent x xs w more r)
              (delivers more r (drain-Account (suc sent) xs (send_fn w x).0))
        | inr (inl r) ↦
            rw (drain_declined sent x xs w more r) (halts (refused x xs refl refl (inl (r, refl))))
        | inr (inr r) ↦
            rw (drain_thrown sent x xs w more r) (halts (refused x xs refl refl (inr (r, refl))))
      ]
    ]
      where
        delivers :
            {d : Drained A W}
            → ltb sent limit ≡ true
            → (send_fn w x).1 ≡ accepted
            → Account limit (suc sent) xs (send_fn w x).0 d
            → Account limit sent (x ∷ xs) w d
        delivers more r a = record {
          delivered = x ∷ a.delivered;
          after = a.after;
          split = ap (◌∷◌ x) a.split;
          counted = omega (arith, a.counted);
          within = λ _. a.within (ltb→lt _ _ more);
          in_order = (r, a.in_order);
          stop = a.stop;
        }

    -- With a `sendFn` that always answers by a truthy value the loop takes what the limit allows.
    pub drain_all :
        ((w : W) (x : A) → (send_fn w x).1 ≡ accepted)
        → (sent : ℕ) (xs : List A) (w : W) → sent ≤ limit
        → let d = drain send_fn limit sent xs w in
          (d.items ≡ drop (limit - sent) xs) × (d.threw ≡ false)
    unfolding drain
    drain_all always sent [] w h = (sym (drop-nil (limit - sent)), refl)
    drain_all always sent (x ∷ xs) w h = elim (Bool-cases (ltb sent limit)) [
      | inr full ↦
          rw (drain-limit sent x xs w full)
            (sym (drop_of_zero (limit - sent) (x ∷ xs) (ground arith)), refl)
      | inl more ↦
          let (rest, calm) = drain_all always (suc sent) xs (send_fn w x).0 (ltb→lt _ _ more) in
          rw (drain_accepted sent x xs w more (always w x))
            (rest ∙ drop_eq (suc (limit - suc sent)) (limit - sent) (x ∷ xs) (ground arith), calm)
    ]

-- What one call of `flush` did, in terms of the queue `q` after `init` and a run of the loop.
pub record Outcome {ℓ ℓ' κ} {A : Type ℓ} {S : Type ℓ'} {W : Type κ} (codec : Codec A)
    (storage : Storage S) (send_fn : W → A → W × Reply) (limit : ℕ) (q : Queue A) (s : S) (w : W)
    (f : Flushed A S W) : Type (ℓ ⊔ ℓ' ⊔ κ) where
  pub run : Drained A W
  pub account : Account send_fn limit 0 q.items w run
  pub kept : f.queue ≡ record q { items = run.items; flushing = false }
  pub reached : f.world ≡ run.world
  pub returned :
      run.threw ≡ false
      → (f.result ≡ some (record { sent = run.sent; remaining = length f.queue.items }))
        × (f.store ≡ persist codec storage f.queue s)
  pub raised : run.threw ≡ true → (f.result ≡ none) × (f.store ≡ s)

report_eq :
    {a b c d : ℕ}
    → a ≡ c
    → b ≡ d
    → ◌≡◌ {A = Report} (record { sent = a; remaining = b }) (record { sent = c; remaining = d })
report_eq p q = λ i. record { sent = p i; remaining = q i }

module _ {ℓ ℓ' κ} {A : Type ℓ} {S : Type ℓ'} {W : Type κ} (codec : Codec A) (storage : Storage S)
    (send_fn : W → A → W × Reply) where
  settle-Outcome :
      (limit : ℕ) (q : Queue A) (s : S) (w : W) (d : Drained A W)
      → Account send_fn limit 0 q.items w d
      → Outcome codec storage send_fn limit q s w (settle codec storage send_fn q s d)
  unfolding settle
  settle-Outcome limit q s w d a = elim (Bool-cases d.threw) [
    | inl e ↦ record {
      run = d;
      account = a;
      kept = rw e;
      reached = rw e;
      returned = λ calm. cc;
      raised = λ _. rw e (refl, refl);
    }
    | inr e ↦ record {
      run = d;
      account = a;
      kept = rw e;
      reached = rw e;
      returned = λ _. rw e (refl, refl);
      raised = λ threw. cc;
    }
  ]

  pub flush_idle :
      (limit : ℕ) (q : Queue A) (s : S) (w : W)
      → q.flushing ≡ false
      → let q' = init codec storage q s in
        flush codec storage send_fn q s w limit
        ≡ settle codec storage send_fn q' s (drain send_fn limit 0 q'.items w)
  unfolding flush
  flush_idle limit q s w h = ground (arith, h)

  pub init_loaded : (q : Queue A) (s : S) → q.loaded ≡ true → init codec storage q s ≡ q
  unfolding init
  init_loaded q s h = ground (arith, h)

  pub settle_calm :
      (q : Queue A) (s : S) (d : Drained A W)
      → d.threw ≡ false
      → let q' = record q { items = d.items; flushing = false } in
        settle codec storage send_fn q s d ≡ record {
          queue = q';
          store = persist codec storage q' s;
          world = d.world;
          result = some (record { sent = d.sent; remaining = length d.items });
        }
  unfolding settle
  settle_calm q s d h = ground (arith, h)

  pub flush_calm :
      (limit : ℕ) (q : Queue A) (s : S) (w : W)
      → q.flushing ≡ false
      → q.loaded ≡ true
      → let d = drain send_fn limit 0 q.items w in
        d.threw ≡ false
        → let q' = record q { items = d.items; flushing = false } in
          flush codec storage send_fn q s w limit ≡ record {
            queue = q';
            store = persist codec storage q' s;
            world = d.world;
            result = some (record { sent = d.sent; remaining = length d.items });
          }
  flush_calm limit q s w h l calm =
      flush_idle limit q s w h
      ∙ ap (λ k. settle codec storage send_fn k s (drain send_fn limit 0 k.items w))
          (init_loaded q s l)
      ∙ settle_calm q s (drain send_fn limit 0 q.items w) calm

  -- A call of `flush` that no other call is inside of hands over a prefix of the queue, in order
  -- and each payload once; it keeps the rest, in order; it stops only at the end of the queue, at
  -- the limit, or at the first payload that `sendFn` declines or throws at, which stays queued. It
  -- leaves the in-progress flag clear on every way out. When `sendFn` did not throw it reports the
  -- exact counts and writes what is left to the store; when it threw there is no result and the
  -- store is untouched.
  pub flush-Outcome :
      (limit : ℕ) (q : Queue A) (s : S) (w : W)
      → q.flushing ≡ false
      → Outcome codec storage send_fn limit
          (init codec storage q s)
          s
          w
          (flush codec storage send_fn q s w limit)
  flush-Outcome limit q s w h = rw (flush_idle limit q s w h) (
      settle-Outcome limit (init codec storage q s) s w _
        (drain-Account send_fn limit 0 (init codec storage q s).items w))

  -- With a `sendFn` that always answers by a truthy value, `flush` sends the oldest `limit`
  -- payloads of a loaded queue and keeps the others.
  pub flush_all :
      (limit : ℕ) (q : Queue A) (s : S) (w : W)
      → q.flushing ≡ false
      → q.loaded ≡ true
      → ((v : W) (x : A) → (send_fn v x).1 ≡ accepted)
      → let f = flush codec storage send_fn q s w limit in
        (f.queue.items ≡ drop limit q.items)
        × (f.result
            ≡ some
                (record { sent = min limit (length q.items); remaining = length q.items - limit }))
  flush_all limit q s w h l always =
      let d = drain send_fn limit 0 q.items w in
      let (rest, calm) = drain_all send_fn limit always 0 q.items w (omega arith) in
      let a = drain-Account send_fn limit 0 q.items w in
      let total : length q.items ≡ d.sent + length d.items =
        ap length a.split ∙ length-append a.delivered d.items ∙ omega (arith, a.counted) in
      let left : length d.items ≡ length q.items - limit =
        ap length rest ∙ length-drop (limit - 0) q.items ∙ omega arith in
      rw (flush_calm limit q s w h l calm) (
        rest ∙ drop_eq (limit - 0) limit q.items (omega arith),
        ap some (report_eq (omega (arith, a.within (omega arith))) left),
      )
