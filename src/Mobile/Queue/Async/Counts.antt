-- ===== src/Mobile/Queue/Async/Counts.antt =====
-- store-forward-queue.js: what the steps of overlapping calls hand over, and what their results count.
use web_dashboard.Prelude.{ℕ, zero, suc, ◌+◌, ◌≡◌, some, List, [], ◌∷◌, ◌++◌, arith, length}
use web_dashboard.Mobile.Queue.Async.{
  enqueues, Ending, enqueued, flushed, Result, reports, Step, calls, at, remove_at,
}

-- How many payloads a call of `flush` has sent.
abbrev pub sent_by : Ending → ℕ
sent_by enqueued = 0
sent_by (flushed sent) = sent

abbrev pub reported : Result → ℕ
reported (reports r) = r.sent
reported _ = 0

abbrev pub sum {ℓ} : {A : Type ℓ} → (A → ℕ) → List A → ℕ
sum f [] = 0
sum f (x ∷ xs) = f x + sum f xs

pub sum-append {ℓ} :
    {A : Type ℓ} (f : A → ℕ) (xs : List A) (x : A) → sum f (xs ++ x ∷ []) ≡ sum f xs + f x
sum-append f [] x = omega arith
sum-append f (y ∷ ys) x = omega (arith, sum-append f ys x)

pub sum-remove_at {ℓ} :
    {A : Type ℓ} (f : A → ℕ) (i : ℕ) (x : A) (xs : List A)
    → at i xs ≡ some x
    → sum f xs ≡ sum f (remove_at i xs) + f x
sum-remove_at f i x [] h = ground (arith, h)
sum-remove_at f zero x (y ∷ ys) h = ground (arith, h)
sum-remove_at f (suc i) x (y ∷ ys) h = omega (arith, sum-remove_at f i x ys h)

pub length-remove_at {ℓ} :
    {A : Type ℓ} (i : ℕ) (x : A) (xs : List A)
    → at i xs ≡ some x
    → length xs ≡ length (remove_at i xs) + 1
length-remove_at i x [] h = ground (arith, h)
length-remove_at zero x (y ∷ ys) h = omega arith
length-remove_at (suc i) x (y ∷ ys) h = omega (arith, length-remove_at i x ys h)

-- The payloads that the steps hand to `enqueue`, in order, and the number of calls among them.
abbrev pub given {ℓ} : {A : Type ℓ} → Step A → List A
given (calls (enqueues p)) = p ∷ []
given _ = []

abbrev pub payloads {ℓ} : {A : Type ℓ} → List (Step A) → List A
payloads [] = []
payloads (s ∷ ss) = given s ++ payloads ss

abbrev pub count_call {ℓ} : {A : Type ℓ} → Step A → ℕ
count_call (calls c) = 1
count_call _ = 0

unfoldable pub count_calls {ℓ} : {A : Type ℓ} → List (Step A) → ℕ
count_calls [] = 0
count_calls (s ∷ ss) = count_call s + count_calls ss
