-- ===== src/Mobile/Queue/Async/Race.antt =====
-- Two calls of `enqueue` before the storage has answered (store-forward-queue.js).
use text.Mathlib.Text.{◌==◌ as str_eq}
use web_dashboard.Prelude.{
  ℕ, ◌+◌, ◌≤◌, ◌≡◌, refl, true, false, some, String, List, [], ◌∷◌, ◌++◌, arith, length,
  length-append,
}
use web_dashboard.Mobile.Queue.{Queue, Codec, Storage, array, Reply, new, push, read_items, persist}
use web_dashboard.Mobile.Queue.Async.{Step, calls, answers, resumes, enqueues, run}

-- Both reads are on their way before either is answered, so both see the same text; the first call
-- runs to its end before the second is answered.
abbrev pub overlap {ℓ} : {A : Type ℓ} → A → A → String → List (Step A)
overlap x y raw =
    calls (enqueues x)
    ∷ calls (enqueues y)
    ∷ answers 0 (some (some raw))
    ∷ resumes 0
    ∷ answers 0 (some (some raw))
    ∷ resumes 0
    ∷ []

module _ {ℓ ℓ' κ} {A : Type ℓ} {S : Type ℓ'} {W : Type κ} (codec : Codec A) (storage : Storage S)
    (send_fn : W → A → W × Reply) where
  push_fits :
      (q : Queue A) (x : A)
      → length q.items + 1 ≤ q.max_items
      → push q x ≡ record q { items = q.items ++ x ∷ [] }
  unfolding push
  push_fits q x h = ground (arith, length-append q.items (x ∷ []))

  read_array :
      (before xs : List A) (raw : String)
      → str_eq raw "" ≡ false
      → codec.parse raw ≡ some (array xs)
      → read_items codec before (some (some raw)) ≡ xs
  unfolding read_items
  read_array before xs raw h e = rw (h, e, read_items)

  -- When two calls of `enqueue` wait for the first read of a new queue, and the first runs to its end
  -- before the second is answered, then, whatever array the store holds, if there is room for one more
  -- payload, the second answer overwrites the queue that the first call has pushed to: the first
  -- payload is in neither the queue nor the last text written to the store, and it is not counted as
  -- dropped.
  pub overlap_loses :
      (key : String) (limit : ℕ) (s : S) (w : W) (x y : A) (xs : List A) (raw : String)
      → str_eq raw "" ≡ false
      → codec.parse raw ≡ some (array xs)
      → length xs + 1 ≤ limit
      → let l = run codec storage send_fn (overlap x y raw) (record {
        queue = new key limit;
        store = s;
        world = w;
        waiting = [];
        writing = [];
        returned = [];
      }) in
        let written = (storage.set_item s key (codec.stringify (xs ++ x ∷ []))).0 in
        (l.queue.items ≡ xs ++ y ∷ [])
        × (l.queue.overflow_count ≡ 0)
        × (l.store ≡ (storage.set_item written key (codec.stringify (xs ++ y ∷ []))).0)
        × (l.waiting ≡ [])
  unfolding run new persist
  overlap_loses key limit s w x y xs raw ne e room =
      let q = record (new key limit) { items = xs; loaded = true } in
      rw
        (
          read_array [] xs raw ne e,
          push_fits q x room,
          read_array (xs ++ x ∷ []) xs raw ne e,
          push_fits q y room,
        )
        (refl, refl, refl, refl)
