-- ===== src/Mobile/Queue.antt =====
-- mobile/src/telemetry/store-forward-queue.js: the queue that holds payloads while the socket is
-- down. Each `async` method is one function here, run to its end.
pub mod Window
pub mod Drain
pub mod Restart
pub mod Async
mod Tests
use text.Mathlib.Text.{◌==◌ as str_eq}
use web_dashboard.Prelude.{
  ℕ, ◌+◌, ◌-◌, Bool, true, false, Option, none, some, String, List, [], ◌∷◌, ◌++◌, length, drop,
  ltb, suc, if◌then◌else◌,
}

-- What `JSON.parse` returned: an array of payloads, or any other value.
pub data Json {ℓ} (A : Type ℓ) : Type ℓ where
  array : List A → Json A
  other : Json A

-- `JSON.stringify` of an array of payloads and `JSON.parse`, which throws as `none`.
pub record Codec {ℓ} (A : Type ℓ) : Type ℓ where
  pub stringify : List A → String
  pub parse : String → Option (Json A)

-- The storage that the constructor is given. `get_item` rejects as `none`, and an absent key is
-- `some none`. `set_item` gives the store after the call, and whether the call succeeded.
pub record Storage {ℓ} (S : Type ℓ) : Type ℓ where
  pub get_item : S → String → Option (Option String)
  pub set_item : S → String → String → S × Bool

pub record Queue {ℓ} (A : Type ℓ) : Type ℓ where
  pub storage_key : String
  pub max_items : ℕ
  pub items : List A
  pub loaded : Bool
  pub flushing : Bool
  pub overflow_count : ℕ

abbrev pub default_max_items : ℕ
default_max_items = 1000

abbrev pub default_storage_key : String
default_storage_key = "telemetry:gps:queue:v1"

-- The constructor.
unfoldable pub new {ℓ} : {A : Type ℓ} → String → ℕ → Queue A
new key limit = record {
  storage_key = key;
  max_items = limit;
  items = [];
  loaded = false;
  flushing = false;
  overflow_count = 0;
}

-- What came of one call of `sendFn`: a truthy value, a falsy one, or an exception.
pub data Reply : Type 0 where
  accepted declined thrown : Reply

-- `{ sent, remaining }`.
pub record Report : Type 0 where
  pub sent : ℕ
  pub remaining : ℕ

-- Where `flush` left the three parts; `none` is an exception from `sendFn`, passed on.
pub record Flushed {ℓ ℓ' κ} (A : Type ℓ) (S : Type ℓ') (W : Type κ) : Type (ℓ ⊔ ℓ' ⊔ κ) where
  pub queue : Queue A
  pub store : S
  pub world : W
  pub result : Option Report

-- Where the `while` loop of `flush` stopped.
pub record Drained {ℓ κ} (A : Type ℓ) (W : Type κ) : Type (ℓ ⊔ κ) where
  pub items : List A
  pub world : W
  pub sent : ℕ
  pub threw : Bool

module _ {ℓ} {A : Type ℓ} where
  unfoldable pub depth : Queue A → ℕ
  depth q = length q.items

  -- The part of `enqueue` between its two `await`s.
  unfoldable pub push : Queue A → A → Queue A
  push q payload =
      let grown = q.items ++ payload ∷ [] in
      let dropped = length grown - q.max_items in
      if ltb q.max_items (length grown)
      then record q { items = drop dropped grown; overflow_count = q.overflow_count + dropped }
      else record q { items = grown }

  -- The `while` loop of `flush`, over the items that are left; `world` is what `sendFn` acts on.
  module _ {κ} {W : Type κ} (send_fn : W → A → W × Reply) (limit : ℕ) where
    unfoldable pub drain : ℕ → List A → W → Drained A W
    drain sent [] w = record { items = []; world = w; sent = sent; threw = false }
    drain sent (next ∷ rest) w = elim (ltb sent limit) [
      | false ↦ record { items = next ∷ rest; world = w; sent = sent; threw = false }
      | true ↦
          let (w', reply) = send_fn w next in
          elim reply [
            | accepted ↦ drain (suc sent) rest w'
            | declined ↦ record { items = next ∷ rest; world = w'; sent = sent; threw = false }
            | thrown ↦ record { items = next ∷ rest; world = w'; sent = sent; threw = true }
          ]
    ]

  -- What `init` does with the answer of the storage.
  unfoldable pub read_items : Codec A → List A → Option (Option String) → List A
  read_items codec items none = []
  read_items codec items (some none) = items
  read_items codec items (some (some raw)) =
      if str_eq raw ""
      then items
      else elim (codec.parse raw) [ none ↦ [] | some (array parsed) ↦ parsed | some other ↦ items ]

  module _ {ℓ'} {S : Type ℓ'} (codec : Codec A) (storage : Storage S) where
    unfoldable pub init : Queue A → S → Queue A
    unfolding read_items
    init q s = if q.loaded then q else record q {
      items = read_items codec q.items (storage.get_item s q.storage_key);
      loaded = true;
    }

    -- A failed write is swallowed.
    unfoldable pub persist : Queue A → S → S
    persist q s = (storage.set_item s q.storage_key (codec.stringify q.items)).0

    unfoldable pub enqueue : Queue A → S → A → Queue A × S
    unfolding init push persist
    enqueue q s payload = let q' = push (init q s) payload in (q', persist q' s)

    module _ {κ} {W : Type κ} (send_fn : W → A → W × Reply) where
      -- The `finally` block clears the flag on every way out; only a return writes the store.
      unfoldable pub settle : Queue A → S → Drained A W → Flushed A S W
      unfolding persist
      settle q s d =
          let q' = record q { items = d.items; flushing = false } in
          if d.threw
          then record { queue = q'; store = s; world = d.world; result = none }
          else record {
            queue = q';
            store = persist q' s;
            world = d.world;
            result = some (record { sent = d.sent; remaining = length d.items });
          }

      unfoldable pub flush : Queue A → S → W → ℕ → Flushed A S W
      flush q s w limit =
          if q.flushing
          then record {
            queue = q;
            store = s;
            world = w;
            result = some (record { sent = 0; remaining = length q.items });
          }
          else let q' = init q s in settle q' s (drain send_fn limit 0 q'.items w)
