-- ===== src/Mobile/Queue/Restart.antt =====
-- What a fresh queue finds in the store after a restart (store-forward-queue.js).
use text.Mathlib.Text.{◌==◌ as str_eq}
use web_dashboard.Prelude.{
  ◌≡◌, true, false, none, some, String, List, [], ℕ, ◌≢◌, Bool-cases, inl, inr,
}
use web_dashboard.Mobile.Queue.{
  Queue, Codec, Storage, array, Reply, new, read_items, init, persist, enqueue, flush, push,
}
use web_dashboard.Mobile.Queue.Drain.{flush-Outcome}

-- JSON of an array of plain payloads is a text that is not empty, and parses back.
pub record IsFaithful {ℓ} {A : Type ℓ} (codec : Codec A) : Type ℓ where
  pub non_empty : (xs : List A) → str_eq (codec.stringify xs) "" ≡ false
  pub round_trip : (xs : List A) → codec.parse (codec.stringify xs) ≡ some (array xs)

-- A write that succeeded is what the key reads back.
abbrev pub IsReadBack {ℓ} : {S : Type ℓ} → Storage S → Type ℓ
IsReadBack {S = S} storage =
    (s : S) (key value : String)
    → (storage.set_item s key value).1 ≡ true
    → storage.get_item (storage.set_item s key value).0 key ≡ some (some value)

module _ {ℓ ℓ'} {A : Type ℓ} {S : Type ℓ'} (codec : Codec A) (storage : Storage S)
    (faithful : IsFaithful codec) (reads_back : IsReadBack storage) where
  -- The write of `persist` was accepted by the storage.
  abbrev pub Persisted : Queue A → S → Type 0
  Persisted q s = (storage.set_item s q.storage_key (codec.stringify q.items)).1 ≡ true

  read_stringify :
      (before xs : List A) → read_items codec before (some (some (codec.stringify xs))) ≡ xs
  unfolding read_items
  read_stringify before xs = rw (faithful.non_empty xs, faithful.round_trip xs, read_items)

  pub init-persist :
      (q : Queue A) (s : S) (limit : ℕ)
      → Persisted q s
      → (init codec storage (new q.storage_key limit) (persist codec storage q s)).items ≡ q.items
  unfolding init persist new
  init-persist q s limit h =
      rw (reads_back s q.storage_key (codec.stringify q.items) h) (read_stringify [] q.items)

  -- After a process restart a fresh queue over the same key starts with exactly the items that the
  -- last `enqueue` left in memory, if the storage accepted that call's write.
  pub enqueue-restart :
      (q : Queue A) (s : S) (x : A) (limit : ℕ)
      → let (q', s') = enqueue codec storage q s x in
        Persisted q' s → (init codec storage (new q'.storage_key limit) s').items ≡ q'.items
  unfolding enqueue
  enqueue-restart q s x limit h = init-persist (push (init codec storage q s) x) s limit h

  module _ {κ} {W : Type κ} (send_fn : W → A → W × Reply) where
    -- A restart after `flush`: if the call returned, and the storage accepted its write, a fresh
    -- queue starts with what the flush left in memory. If `sendFn` threw, the store is as before the
    -- call, so a fresh queue starts with what it would have started with then: the payloads that
    -- were delivered before the exception are still in the store.
    pub flush-restart :
        (q : Queue A) (s : S) (w : W) (n limit : ℕ)
        → q.flushing ≡ false
        → let f = flush codec storage send_fn q s w n in
          let restarted = λ (t : S). (init codec storage (new f.queue.storage_key limit) t).items in
          (f.result ≢ none → Persisted f.queue s → restarted f.store ≡ f.queue.items)
          × (f.result ≡ none → restarted f.store ≡ restarted s)
    flush-restart q s w n limit h =
        let o = flush-Outcome codec storage send_fn n q s w h in
        let f = flush codec storage send_fn q s w n in
        elim (Bool-cases o.run.threw) [
          | inl e ↦ (λ some_result. absurd (some_result (o.raised e).0), λ _. rw (o.raised e).1)
          | inr e ↦ (
            λ _ p. rw (o.returned e).1 (init-persist f.queue s limit p),
            λ no_result. cc ((o.returned e).0),
          )
        ]
