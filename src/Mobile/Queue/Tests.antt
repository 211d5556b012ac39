-- ===== src/Mobile/Queue/Tests.antt =====
-- Runs of the queue at concrete inputs, some of them those of mobile/tests/store-forward-queue.test.js,
-- and the theorems about it at inputs that meet their conditions.
use Prim.Native.Char.{Char, code}
use text.Mathlib.Text.{◌==◌ as str_eq}
use text.Mathlib.TextEquality.{eq_iff}
use text.Mathlib.TextLemmas.{cons-ne-nil}
use text.Mathlib.TextPositions.{eq_refl}
use web_dashboard.Prelude.{
  ◌≤◌, drop, length, ◌++◌, ℕ, ◌+◌, ◌≡◌, refl, ◌≢◌, inl, inr, Bool-cases, true, false, Option, none,
  some, String, List, [], ◌∷◌, arith, if◌then◌else◌, ◌==◌,
}
use web_dashboard.Mobile.Queue.{
  Queue, Codec, Storage, Json, array, Reply, accepted, declined, thrown, push, new, init, persist,
  enqueue, drain, settle, flush,
}
use web_dashboard.Mobile.Queue.Async.{
  inits, enqueues, flushes, Live, Step, calls, writes, enqueued, depth_is, reports, run,
}
use web_dashboard.Mobile.Queue.Async.Loaded.{Calm, all_sent, under_way, loaded_in_order}
use web_dashboard.Mobile.Queue.Async.Counts.{payloads, count_calls}
use web_dashboard.Mobile.Queue.Async.Race.{overlap, overlap_loses}
use web_dashboard.Mobile.Queue.Window.{enqueue_all, enqueue_all_window}
use web_dashboard.Mobile.Queue.Drain.{Outcome, flush-Outcome}
use web_dashboard.Mobile.Queue.Restart.{IsFaithful, IsReadBack, enqueue-restart, flush-restart}

-- Payloads that are single characters, written after a bracket.
abbrev text_of : List Char → String
text_of [] = String.[]
text_of (c ∷ cs) = String.◌∷◌ c (text_of cs)

abbrev chars : String → List Char
chars String.[] = []
chars (String.◌∷◌ c s) = c ∷ chars s

abbrev parse_chars : String → Option (Json Char)
parse_chars String.[] = none
parse_chars (String.◌∷◌ c s) = if code c == b'[' then some (array (chars s)) else none

abbrev char_codec : Codec Char
char_codec = record { stringify = λ xs. String.◌∷◌ "[" (text_of xs); parse = parse_chars }

chars-text_of : (xs : List Char) → chars (text_of xs) ≡ xs
chars-text_of [] = refl
chars-text_of (x ∷ xs) = rw (chars-text_of xs)

non_empty : (c : Char) (s : String) → str_eq (String.◌∷◌ c s) "" ≡ false
non_empty c s = elim (Bool-cases (str_eq (String.◌∷◌ c s) "")) [
  | inl e ↦ absurd (cons-ne-nil c s ((eq_iff _ _).0 e))
  | inr e ↦ e
]

char_codec-IsFaithful : IsFaithful char_codec
char_codec-IsFaithful = record {
  non_empty = λ xs. non_empty "[" (text_of xs);
  round_trip = λ xs. rw (chars-text_of xs);
}

abbrev Store : Type 0
Store = String → Option String

abbrev memory : Storage Store
memory = record {
  get_item = λ s key. some (s key);
  set_item = λ s key value. (λ k. if str_eq k key then some value else s k, true);
}

memory-IsReadBack : IsReadBack memory
memory-IsReadBack s key value h = rw (eq_refl key)

abbrev blank : Store
blank key = none

abbrev small : Queue Char
small = record (new "k" 3) { loaded = true; items = "1" ∷ "2" ∷ [] }

abbrev later : List Char
later = "3" ∷ "4" ∷ "5" ∷ []

-- A peer that counts what it gets, and answers `reply` to the character "3".
abbrev peer : Reply → ℕ → Char → ℕ × Reply
peer reply n c = if code c == b'3' then (n, reply) else (n + 1, accepted)

overflow_run :
    let q =
      (enqueue_all char_codec memory (new "k" 3) blank ("1" ∷ "2" ∷ "3" ∷ "4" ∷ "5" ∷ [])).0 in
    (q.items ≡ "3" ∷ "4" ∷ "5" ∷ []) × (q.overflow_count ≡ 2)
unfolding enqueue_all enqueue new
overflow_run = (refl, refl)

refused_run :
    let f = flush char_codec memory (peer declined) small blank 0 200 in
    (f.queue.items ≡ []) × (f.world ≡ 2)
unfolding flush init drain settle persist new
refused_run = (refl, refl)

enqueue_all_window_example :
    let q' = (enqueue_all char_codec memory small blank later).0 in
    (q'.items ≡ "3" ∷ "4" ∷ "5" ∷ []) × (q'.overflow_count ≡ 2)
unfolding new
enqueue_all_window_example =
    enqueue_all_window char_codec memory small blank later refl (omega arith)

flush-Outcome_example :
    Outcome char_codec memory
      (peer declined)
      200
      (init char_codec memory small blank)
      blank
      0
      (flush char_codec memory (peer declined) small blank 0 200)
unfolding new
flush-Outcome_example = flush-Outcome char_codec memory (peer declined) 200 small blank 0 refl

enqueue-restart_example :
    let (q', s') = enqueue char_codec memory small blank "9" in
    (init char_codec memory (new q'.storage_key 3) s').items ≡ q'.items
enqueue-restart_example =
    enqueue-restart char_codec memory char_codec-IsFaithful memory-IsReadBack small blank "9" 3 refl

flush-restart_example :
    let f = flush char_codec memory (peer thrown) small blank 0 200 in
    let restarted = λ (t : Store). (init char_codec memory (new f.queue.storage_key 3) t).items in
    (f.result ≢ none
      → (memory.set_item blank f.queue.storage_key (char_codec.stringify f.queue.items)).1 ≡ true
      → restarted f.store ≡ f.queue.items)
    × (f.result ≡ none → restarted f.store ≡ restarted blank)
unfolding new
flush-restart_example =
    flush-restart char_codec memory char_codec-IsFaithful memory-IsReadBack (peer thrown) small
      blank 0 200 3 refl

abbrev live : Queue Char → Live Char Store ℕ
live q = record { queue = q; store = blank; world = 0; waiting = []; writing = []; returned = [] }

-- Two writes are on their way when the flush begins, and the writes end in another order.
abbrev busy : List (Step Char)
busy =
    calls (enqueues "7")
    ∷ calls (enqueues "8")
    ∷ calls (flushes 2)
    ∷ writes 2
    ∷ writes 0
    ∷ calls inits
    ∷ []

accepts_all : Calm (peer accepted)
unfolding Calm
accepts_all n c h = ground (arith, h)

-- "1" was dropped for want of room, "2" and "7" were sent.
busy_run :
    let l = run char_codec memory (peer accepted) busy (live small) in
    (l.queue.items ≡ "8" ∷ [])
    × (l.returned ≡ reports (record { sent = 2; remaining = 1 }) ∷ depth_is 1 ∷ depth_is 1 ∷ [])
    × (l.writing ≡ enqueued ∷ [])
unfolding run push new drain settle
busy_run = (refl, refl, refl)

loaded_in_order_example :
    let l = live small in
    let l' = run char_codec memory (peer accepted) busy l in
    (gone : ℕ) × (l'.queue.items ≡ drop gone (l.queue.items ++ payloads busy))
    × (gone ≤ length l.queue.items + length (payloads busy))
    × (l'.queue.overflow_count + all_sent l' ≡ l.queue.overflow_count + all_sent l + gone)
    × (under_way l' ≡ under_way l + count_calls busy)
loaded_in_order_example =
    loaded_in_order char_codec memory (peer accepted) busy (live small) accepts_all
      (record { loaded = refl; idle = unfold new in refl; none_waits = refl })

overlap_loses_example :
    let l = run char_codec memory (peer accepted) (overlap "8" "9" "[12") (live (new "k" 5)) in
    let written = (memory.set_item blank "k" "[128").0 in
    (l.queue.items ≡ "1" ∷ "2" ∷ "9" ∷ [])
    × (l.queue.overflow_count ≡ 0)
    × (l.store ≡ (memory.set_item written "k" "[129").0)
    × (l.waiting ≡ [])
overlap_loses_example =
    overlap_loses char_codec memory (peer accepted) "k" 5 blank 0 "8" "9" ("1" ∷ "2" ∷ []) "[12"
      refl refl (omega arith)
