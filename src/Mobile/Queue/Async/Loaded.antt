-- ===== src/Mobile/Queue/Async/Loaded.antt =====
-- Once the storage has answered, calls overlap at their writes only (store-forward-queue.js).
use web_dashboard.Prelude.{
  ℕ, ◌+◌, ◌≤◌, ◌≡◌, ◌≢◌, refl, sym, ◌∙◌, ap, true, false, inl, inr, Option, Option-cases, none,
  String, List, [], ◌∷◌, ◌++◌, arith, length, drop, length-append, length-drop, drop-append_le,
  drop-add, append-nil, append_assoc,
}
use web_dashboard.Mobile.Queue.{Codec, Storage, Reply, thrown, push, settle, drain, Drained}
use web_dashboard.Mobile.Queue.Window.{excess, push-items, push-overflow}
use web_dashboard.Mobile.Queue.Drain.{Stops, emptied, limited, refused, drain-Account}
use web_dashboard.Mobile.Queue.Async.{
  Call, inits, enqueues, flushes, Live, Ending, enqueued, flushed, depth_is, Step, calls, answers,
  resumes, writes, at, is_unanswered, run_on, wait_or_run, call, answer, resume, finish, result_of,
  step, run,
}
use web_dashboard.Mobile.Queue.Async.Counts.{
  sent_by, reported, sum, sum-append, sum-remove_at, length-remove_at, given, payloads, count_call,
  count_calls,
}

module _ {ℓ ℓ' κ} {A : Type ℓ} {S : Type ℓ'} {W : Type κ} where
  -- The payloads that `flush` calls have sent so far.
  abbrev pub all_sent : Live A S W → ℕ
  all_sent l = sum sent_by l.writing + sum reported l.returned

  -- Calls that have got to their write, or have returned.
  abbrev pub under_way : Live A S W → ℕ
  under_way l = length l.writing + length l.returned

  -- The storage has answered, and no call waits for it.
  pub record IsLoaded (l : Live A S W) : Type ℓ where
    pub loaded : l.queue.loaded ≡ true
    pub idle : l.queue.flushing ≡ false
    pub none_waits : l.waiting ≡ []

  -- From the old items and the payloads `xs`, in order, the first `gone` are missing: they have been
  -- counted as dropped, or are in the report of a `flush`.
  pub record Moved (xs : List A) (count : ℕ) (l l' : Live A S W) : Type ℓ where
    pub gone : ℕ
    pub in_order : l'.queue.items ≡ drop gone (l.queue.items ++ xs)
    pub within : gone ≤ length l.queue.items + length xs
    pub counted : l'.queue.overflow_count + all_sent l' ≡ l.queue.overflow_count + all_sent l + gone
    pub ended : under_way l' ≡ under_way l + count

  Moved-trans :
      (xs ys : List A) (m n : ℕ) (l l' l'' : Live A S W)
      → Moved xs m l l'
      → Moved ys n l' l''
      → Moved (xs ++ ys) (m + n) l l''
  Moved-trans xs ys m n l l' l'' a b =
      let items = l.queue.items in
      let long = length-append items xs in
      let left = length-drop a.gone (items ++ xs) in
      let same = ap length a.in_order in
      record {
        gone = a.gone + b.gone;
        in_order =
            b.in_order
            ∙ ap (λ is. drop b.gone (is ++ ys)) a.in_order
            ∙ ap (drop b.gone)
                (sym (drop-append_le a.gone (items ++ xs) ys (omega (arith, long, a.within))))
            ∙ drop-add a.gone b.gone ((items ++ xs) ++ ys)
            ∙ ap (drop (a.gone + b.gone)) (append_assoc items xs ys);
        within = omega (arith, a.within, b.within, long, left, same, length-append xs ys);
        counted = omega (arith, a.counted, b.counted);
        ended = omega (arith, a.ended, b.ended);
      }

  Moved-refl : (l : Live A S W) → Moved [] 0 l l
  Moved-refl l = record {
    gone = 0;
    in_order = sym (append-nil l.queue.items);
    within = omega arith;
    counted = omega arith;
    ended = omega arith;
  }

-- `sendFn` throws at nothing.
unfoldable pub Calm {ℓ κ} : {A : Type ℓ} {W : Type κ} → (W → A → W × Reply) → Type (ℓ ⊔ κ)
Calm {A = A} {W = W} send_fn = (w : W) (x : A) → (send_fn w x).1 ≢ thrown

drop-prefix {ℓ} : {A : Type ℓ} (xs ys : List A) → drop (length xs) (xs ++ ys) ≡ ys
drop-prefix [] ys = refl
drop-prefix (x ∷ xs) ys = drop-prefix xs ys

module _ {ℓ ℓ' κ} {A : Type ℓ} {S : Type ℓ'} {W : Type κ} (codec : Codec A) (storage : Storage S)
    (send_fn : W → A → W × Reply) where
  stops-threw :
      (limit : ℕ) (w : W) (d : Drained A W)
      → Calm send_fn
      → Stops send_fn limit w d
      → d.threw ≡ false
  unfolding Calm
  stops-threw limit w d calm (emptied i k t) = t
  stops-threw limit w d calm (limited i k t) = t
  stops-threw limit w d calm (refused x xs i k (inl (r, t))) = t
  stops-threw limit w d calm (refused x xs i k (inr (r, t))) = absurd (calm w x r)

  inits-Moved : (l : Live A S W) → Moved [] 1 l (run_on codec storage send_fn inits l)
  unfolding run_on
  inits-Moved l = record {
    gone = 0;
    in_order = sym (append-nil l.queue.items);
    within = omega arith;
    counted = omega (arith, sum-append reported l.returned (depth_is (length l.queue.items)));
    ended = omega (arith, length-append l.returned (depth_is (length l.queue.items) ∷ []));
  }

  enqueues-Moved :
      (p : A) (l : Live A S W) → Moved (p ∷ []) 1 l (run_on codec storage send_fn (enqueues p) l)
  unfolding run_on
  enqueues-Moved p l = record {
    gone = excess l.queue (length l.queue.items + 1);
    in_order = push-items l.queue p;
    within = omega arith;
    counted = omega (arith, push-overflow l.queue p, sum-append sent_by l.writing enqueued);
    ended = omega (arith, length-append l.writing (enqueued ∷ []));
  }

  flushes-Moved :
      (limit : ℕ) (l : Live A S W)
      → Calm send_fn
      → Moved [] 1 l (run_on codec storage send_fn (flushes limit) l)
  unfolding run_on settle
  flushes-Moved limit l calm =
      let items = l.queue.items in
      let d = drain send_fn limit 0 items l.world in
      let a = drain-Account send_fn limit 0 items l.world in
      let quiet = stops-threw limit a.after d calm a.stop in
      let cut : d.items ≡ drop (length a.delivered) (items ++ []) =
        sym (drop-prefix a.delivered d.items)
        ∙ ap (drop (length a.delivered)) (sym a.split ∙ sym (append-nil items)) in
      let long = length-append a.delivered d.items in
      let same = ap length a.split in
      rw quiet (record {
        gone = length a.delivered;
        in_order = cut;
        within = omega (arith, long, same);
        counted = omega (arith, a.counted, sum-append sent_by l.writing (flushed d.sent));
        ended = omega (arith, length-append l.writing (flushed d.sent ∷ []));
      })

  result-reported :
      (e : Ending) (l : Live A S W) → reported (result_of codec storage send_fn e l) ≡ sent_by e
  result-reported enqueued l = refl
  result-reported (flushed sent) l = refl

  finish-Moved : (i : ℕ) (l : Live A S W) → Moved [] 0 l (finish codec storage send_fn i l)
  unfolding finish
  finish-Moved i l = elim (Option-cases (at i l.writing)) [
    | inl e ↦ rw (e, finish) (Moved-refl l)
    | inr (x, e) ↦
        let r = result_of codec storage send_fn x l in
        rw (e, finish)
          (record {
            gone = 0;
            in_order = sym (append-nil l.queue.items);
            within = omega arith;
            counted = omega (
              arith,
              sum-remove_at sent_by i x l.writing e,
              sum-append reported l.returned r,
              result-reported x l,
            );
            ended =
                omega (arith, length-remove_at i x l.writing e, length-append l.returned (r ∷ []));
          })
  ]

  run_on-IsLoaded :
      (c : Call A) (l : Live A S W) → IsLoaded l → IsLoaded (run_on codec storage send_fn c l)
  unfolding run_on settle push
  run_on-IsLoaded inits l v = record { loaded = v.loaded; idle = v.idle; none_waits = v.none_waits }
  run_on-IsLoaded (enqueues p) l v = record {
    loaded = ground (arith, v.loaded);
    idle = ground (arith, v.idle);
    none_waits = v.none_waits;
  }
  run_on-IsLoaded (flushes limit) l v = record {
    loaded = ground (arith, v.loaded);
    idle = ground arith;
    none_waits = ground (arith, v.none_waits);
  }

  finish-IsLoaded :
      (i : ℕ) (l : Live A S W) → IsLoaded l → IsLoaded (finish codec storage send_fn i l)
  unfolding finish
  finish-IsLoaded i l v = record {
    loaded = ground (arith, v.loaded);
    idle = ground (arith, v.idle);
    none_waits = ground (arith, v.none_waits);
  }

  run_on-Moved :
      (c : Call A) (l : Live A S W)
      → Calm send_fn
      → Moved (given (calls c)) 1 l (run_on codec storage send_fn c l)
  run_on-Moved inits l calm = inits-Moved l
  run_on-Moved (enqueues p) l calm = enqueues-Moved p l
  run_on-Moved (flushes limit) l calm = flushes-Moved limit l calm

  -- A call on a loaded queue does not wait for the storage.
  call_now :
      (c : Call A) (l : Live A S W)
      → IsLoaded l
      → call codec storage send_fn c l ≡ run_on codec storage send_fn c l
  unfolding call wait_or_run
  call_now inits l v = rw v.loaded refl
  call_now (enqueues p) l v = rw v.loaded refl
  call_now (flushes limit) l v = rw (v.idle, v.loaded) refl

  answer_nobody :
      (i : ℕ) (raw : Option (Option String)) (l : Live A S W)
      → IsLoaded l
      → answer codec storage send_fn i raw l ≡ l
  unfolding answer
  answer_nobody i raw l v =
      let nobody : is_unanswered (at i l.waiting) ≡ false =
        ap (λ ts. is_unanswered (at i ts)) v.none_waits in
      rw nobody refl

  resume_nobody : (i : ℕ) (l : Live A S W) → IsLoaded l → resume codec storage send_fn i l ≡ l
  unfolding resume
  resume_nobody i l v =
      let nobody : at i l.waiting ≡ none = ap (at i) v.none_waits in rw (nobody, resume) refl

  step-Moved :
      (s : Step A) (l : Live A S W)
      → Calm send_fn
      → IsLoaded l
      → Moved (given s) (count_call s) l (step codec storage send_fn s l)
        × IsLoaded (step codec storage send_fn s l)
  unfolding step
  step-Moved (calls c) l calm v = rw (call_now c l v) (run_on-Moved c l calm, run_on-IsLoaded c l v)
  step-Moved (answers i raw) l calm v = rw (answer_nobody i raw l v) (Moved-refl l, v)
  step-Moved (resumes i) l calm v = rw (resume_nobody i l v) (Moved-refl l, v)
  step-Moved (writes i) l calm v = (finish-Moved i l, finish-IsLoaded i l v)

  run-Moved :
      (ss : List (Step A)) (l : Live A S W)
      → Calm send_fn
      → IsLoaded l
      → Moved (payloads ss) (count_calls ss) l (run codec storage send_fn ss l)
  unfolding run count_calls
  run-Moved [] l calm v = Moved-refl l
  run-Moved (s ∷ ss) l calm v =
      let (one, still) = step-Moved s l calm v in
      let l' = step codec storage send_fn s l in
      Moved-trans (given s) (payloads ss) (count_call s) (count_calls ss) l l' _ one
        (run-Moved ss l' calm still)

  -- Once the storage has answered and no call waits for it, with a `sendFn` that does not throw, calls
  -- of all three methods may begin while the writes of others are on their way, and the writes may end
  -- in any order: the queue then holds its old items and the payloads given to `enqueue`, in order,
  -- without the first `gone` of them, and `gone` is exactly the number that have been counted as
  -- dropped or as sent by a `flush`; and each call has returned or waits for its write.
  pub loaded_in_order :
      (ss : List (Step A)) (l : Live A S W)
      → Calm send_fn
      → IsLoaded l
      → let l' = run codec storage send_fn ss l in
        (gone : ℕ) × (l'.queue.items ≡ drop gone (l.queue.items ++ payloads ss))
        × (gone ≤ length l.queue.items + length (payloads ss))
        × (l'.queue.overflow_count + all_sent l' ≡ l.queue.overflow_count + all_sent l + gone)
        × (under_way l' ≡ under_way l + count_calls ss)
  loaded_in_order ss l calm v =
      let m = run-Moved ss l calm v in (m.gone, m.in_order, m.within, m.counted, m.ended)
