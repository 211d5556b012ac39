-- ===== src/Mobile/Queue/Window.antt =====
-- What `enqueue` keeps and drops (store-forward-queue.js).
use mathlib.Core.Path.{◌≡⟨◌⟩◌, ◌∎}
use web_dashboard.Prelude.{
  ℕ, ◌+◌, ◌-◌, ◌≤◌, ◌≡◌, refl, ap, sym, ◌∙◌, true, List, [], ◌∷◌, ◌++◌, arith, length, drop,
  length-append, length-drop, drop-append_le, drop-add, drop_eq, drop_of_zero, append-nil,
  append_assoc, ltb, inl, inr, Bool-cases,
}
use web_dashboard.Mobile.Queue.{Queue, Codec, Storage, push, init, enqueue}

module _ {ℓ} {A : Type ℓ} where
  -- How many of `n` items the bound makes the queue drop.
  abbrev pub excess : Queue A → ℕ → ℕ
  excess q n = n - q.max_items

  pub push-items :
      (q : Queue A) (x : A)
      → (push q x).items ≡ drop (excess q (length q.items + 1)) (q.items ++ x ∷ [])
  unfolding push
  push-items q x =
      let e : length (q.items ++ x ∷ []) ≡ length q.items + 1 = length-append q.items (x ∷ []) in
      elim (Bool-cases (ltb q.max_items (length (q.items ++ x ∷ [])))) [
        | inl over ↦ rw (over, e)
        | inr fits ↦ rw fits (sym (drop_of_zero _ (q.items ++ x ∷ []) (ground (arith, e))))
      ]

  pub push-length :
      (q : Queue A) (x : A)
      → length (push q x).items ≡ length q.items + 1 - excess q (length q.items + 1)
  push-length q x = rw (push-items q x) (
      omega (
        arith,
        length-drop (excess q (length q.items + 1)) (q.items ++ x ∷ []),
        length-append q.items (x ∷ []),
      ))

  pub push-overflow :
      (q : Queue A) (x : A)
      → (push q x).overflow_count ≡ q.overflow_count + excess q (length q.items + 1)
  unfolding push
  push-overflow q x = ground (arith, length-append q.items (x ∷ []))

  push-max : (q : Queue A) (x : A) → (push q x).max_items ≡ q.max_items
  unfolding push
  push-max q x = ground arith

  pub push-loaded : (q : Queue A) (x : A) → (push q x).loaded ≡ q.loaded
  unfolding push
  push-loaded q x = ground arith

  -- The payloads of `xs` handed to the loaded queue one after the other, without the store.
  unfoldable pub push_all : Queue A → List A → Queue A
  push_all q [] = q
  push_all q (x ∷ xs) = push_all (push q x) xs

  pub push_all_window :
      (q : Queue A) (xs : List A)
      → length q.items ≤ q.max_items
      → (push_all q xs).items ≡ drop (excess q (length q.items + length xs)) (q.items ++ xs)
  unfolding push_all
  push_all_window q [] h = rw (append-nil q.items) (sym (drop_of_zero _ q.items (omega arith)))
  push_all_window q (x ∷ xs) h =
      let q' = push q x in
      let d : ℕ = excess q (length q.items + 1) in
      (push_all q' xs).items
      ≡⟨ push_all_window q' xs (omega (arith, push-length q x, push-max q x)) ⟩
        drop (length q'.items + length xs - q'.max_items) (q'.items ++ xs)
      ≡⟨ (rw (push-length q x, push-max q x, push-items q x)) ⟩
        drop (length q.items + 1 - d + length xs - q.max_items) (drop d (q.items ++ x ∷ []) ++ xs)
      ≡⟨ ap (drop _) (
          sym (
            drop-append_le d (q.items ++ x ∷ []) xs
              (omega (arith, length-append q.items (x ∷ []))))) ⟩
        drop (length q.items + 1 - d + length xs - q.max_items) (drop d ((q.items ++ x ∷ []) ++ xs))
      ≡⟨ drop-add d _ ((q.items ++ x ∷ []) ++ xs) ⟩
        drop (d + (length q.items + 1 - d + length xs - q.max_items)) ((q.items ++ x ∷ []) ++ xs)
      ≡⟨ (rw append_assoc (drop_eq _ _ (q.items ++ x ∷ xs) (omega arith))) ⟩
        drop (excess q (length q.items + length (x ∷ xs))) (q.items ++ x ∷ xs) ∎

  push_all-overflow :
      (q : Queue A) (xs : List A)
      → length q.items ≤ q.max_items
      → (push_all q xs).overflow_count ≡ q.overflow_count + excess q (length q.items + length xs)
  unfolding push_all
  push_all-overflow q [] h = omega arith
  push_all-overflow q (x ∷ xs) h = omega (
    arith,
    push_all-overflow (push q x) xs (omega (arith, push-length q x, push-max q x)),
    push-length q x,
    push-max q x,
    push-overflow q x,
  )

  module _ {ℓ'} {S : Type ℓ'} (codec : Codec A) (storage : Storage S) where
    -- Calls of `enqueue`, each awaited before the next.
    unfoldable pub enqueue_all : Queue A → S → List A → Queue A × S
    enqueue_all q s [] = (q, s)
    enqueue_all q s (x ∷ xs) = let (q', s') = enqueue codec storage q s x in enqueue_all q' s' xs

    pub enqueue-push :
        (q : Queue A) (s : S) (x : A) → q.loaded ≡ true → (enqueue codec storage q s x).0 ≡ push q x
    unfolding enqueue init
    enqueue-push q s x h = rw h

    enqueue_all-push_all :
        (q : Queue A) (s : S) (xs : List A)
        → q.loaded ≡ true
        → (enqueue_all q s xs).0 ≡ push_all q xs
    unfolding enqueue_all push_all
    enqueue_all-push_all q s [] h = refl
    enqueue_all-push_all q s (x ∷ xs) h =
        let e = enqueue-push q s x h in
        enqueue_all-push_all (enqueue codec storage q s x).0 (enqueue codec storage q s x).1 xs
          (rw e (push-loaded q x ∙ h))
        ∙ ap (λ p. push_all p xs) e

    -- After any run of `enqueue` calls on a loaded queue that is within its bound, the queue holds
    -- the newest `max_items` of its old items and the new payloads, in order of arrival, and
    -- `overflow_count` has grown by exactly the number of older ones that were dropped.
    pub enqueue_all_window :
        (q : Queue A) (s : S) (xs : List A)
        → q.loaded ≡ true
        → length q.items ≤ q.max_items
        → let q' = (enqueue_all q s xs).0 in
          let surplus = length q.items + length xs - q.max_items in
          (q'.items ≡ drop surplus (q.items ++ xs))
          × (q'.overflow_count ≡ q.overflow_count + surplus)
    enqueue_all_window q s xs h b =
        rw (enqueue_all-push_all q s xs h) (push_all_window q xs b, push_all-overflow q xs b)
