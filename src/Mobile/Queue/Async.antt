-- ===== src/Mobile/Queue/Async.antt =====
-- mobile/src/telemetry/store-forward-queue.js with its `await`s: calls overlap while the storage has
-- not answered. A call runs on at once up to the read of the storage; the answer comes later; then
-- the call runs on up to its write, whose text the storage gets at once; and when the write has ended,
-- well or not, the call returns, with the depth of the queue at that time.
pub mod Counts
pub mod Loaded
pub mod Race
use web_dashboard.Prelude.{
  ℕ, zero, suc, Bool, true, false, Option, none, some, String, List, [], ◌∷◌, ◌++◌, not, length,
  if◌then◌else◌,
}
use web_dashboard.Mobile.Queue.{
  Queue, Codec, Storage, Reply, Report, push, read_items, persist, drain, settle, Flushed,
}

pub data Call {ℓ} (A : Type ℓ) : Type ℓ where
  inits : Call A
  enqueues : A → Call A
  flushes : ℕ → Call A

-- A call that waits in `init`: for the storage, or, answered, for its turn to run on.
pub record Task {ℓ} (A : Type ℓ) : Type ℓ where
  pub call : Call A
  pub answered : Bool

-- A call that waits for its write: an `enqueue`, or a `flush` with the number it has sent.
pub data Ending : Type 0 where
  enqueued : Ending
  flushed : ℕ → Ending

-- What a call has come to: a depth, the report of a `flush`, or an exception of `sendFn`.
pub data Result : Type 0 where
  depth_is : ℕ → Result
  reports : Report → Result
  raised : Result

-- The calls that wait, and the results of those that have ended, the first one first.
pub record Live {ℓ ℓ' κ} (A : Type ℓ) (S : Type ℓ') (W : Type κ) : Type (ℓ ⊔ ℓ' ⊔ κ) where
  pub queue : Queue A
  pub store : S
  pub world : W
  pub waiting : List (Task A)
  pub writing : List Ending
  pub returned : List Result

pub data Step {ℓ} (A : Type ℓ) : Type ℓ where
  calls : Call A → Step A
  answers : ℕ → Option (Option String) → Step A
  resumes : ℕ → Step A
  writes : ℕ → Step A

module _ {ℓ} {A : Type ℓ} where
  abbrev pub at : ℕ → List A → Option A
  at i [] = none
  at zero (x ∷ xs) = some x
  at (suc i) (x ∷ xs) = at i xs

  abbrev pub remove_at : ℕ → List A → List A
  remove_at i [] = []
  remove_at zero (x ∷ xs) = xs
  remove_at (suc i) (x ∷ xs) = x ∷ remove_at i xs

  abbrev pub answer_at : ℕ → List (Task A) → List (Task A)
  answer_at i [] = []
  answer_at zero (t ∷ ts) = record t { answered = true } ∷ ts
  answer_at (suc i) (t ∷ ts) = t ∷ answer_at i ts

  abbrev pub is_answered : Option (Task A) → Bool
  is_answered none = false
  is_answered (some t) = t.answered

  abbrev pub is_unanswered : Option (Task A) → Bool
  is_unanswered none = false
  is_unanswered (some t) = not t.answered

module _ {ℓ ℓ' κ} {A : Type ℓ} {S : Type ℓ'} {W : Type κ} (codec : Codec A) (storage : Storage S)
    (send_fn : W → A → W × Reply) where
  abbrev pub return_with : Result → Live A S W → Live A S W
  return_with r l = record l { returned = l.returned ++ r ∷ [] }

  -- A call behind its `init`, up to its write.
  unfoldable pub run_on : Call A → Live A S W → Live A S W
  run_on inits l = return_with (depth_is (length l.queue.items)) l
  run_on (enqueues payload) l =
      let q = push l.queue payload in
      record l {
        queue = q;
        store = persist codec storage q l.store;
        writing = l.writing ++ enqueued ∷ [];
      }
  run_on (flushes limit) l =
      let d = drain send_fn limit 0 l.queue.items l.world in
      let f = settle codec storage send_fn l.queue l.store d in
      let l' = record l { queue = f.queue; store = f.store; world = f.world } in
      if d.threw
      then return_with raised l'
      else record l' { writing = l.writing ++ flushed d.sent ∷ [] }

  unfoldable pub wait_or_run : Call A → Live A S W → Live A S W
  unfolding run_on
  wait_or_run c l =
      if l.queue.loaded
      then run_on c l
      else record l { waiting = l.waiting ++ record { call = c; answered = false } ∷ [] }

  -- `flush` returns at once while another one is inside its loop.
  unfoldable pub call : Call A → Live A S W → Live A S W
  unfolding wait_or_run
  call (flushes limit) l =
      if l.queue.flushing
      then return_with (reports (record { sent = 0; remaining = length l.queue.items })) l
      else wait_or_run (flushes limit) l
  call c l = wait_or_run c l

  -- The storage answers the read of the i-th waiting call: `init` sets the items, whatever they are
  -- by now, and `loaded`.
  unfoldable pub answer : ℕ → Option (Option String) → Live A S W → Live A S W
  answer i raw l =
      if is_unanswered (at i l.waiting)
      then record l {
        queue = record (l.queue) { items = read_items codec l.queue.items raw; loaded = true };
        waiting = answer_at i l.waiting;
      }
      else l

  unfoldable pub resume : ℕ → Live A S W → Live A S W
  unfolding run_on
  resume i l = elim (at i l.waiting) [
    | none ↦ l
    | some t ↦
        let l' = run_on t.call (record l { waiting = remove_at i l.waiting }) in
        if t.answered then l' else l
  ]

  abbrev pub result_of : Ending → Live A S W → Result
  result_of enqueued l = depth_is (length l.queue.items)
  result_of (flushed sent) l = reports (record { sent = sent; remaining = length l.queue.items })

  -- The write of the i-th writing call ends.
  unfoldable pub finish : ℕ → Live A S W → Live A S W
  finish i l = elim (at i l.writing) [
    | none ↦ l
    | some e ↦ return_with (result_of e l) (record l { writing = remove_at i l.writing })
  ]

  unfoldable pub step : Step A → Live A S W → Live A S W
  unfolding call answer resume finish
  step (calls c) l = call c l
  step (answers i raw) l = answer i raw l
  step (resumes i) l = resume i l
  step (writes i) l = finish i l

  unfoldable pub run : List (Step A) → Live A S W → Live A S W
  unfolding step
  run [] l = l
  run (s ∷ ss) l = run ss (step s l)
