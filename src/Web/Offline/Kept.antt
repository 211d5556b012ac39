-- ===== src/Web/Offline/Kept.antt =====
-- client/sw.js: an answer in the cache is the answer until another version is activated.
use text.Mathlib.Text.{◌==◌ as str_eq}
use web_dashboard.Prelude.{
  ℕ, zero, suc, ◌≡◌, refl, ap, ◌∙◌, inl, inr, Bool-cases, Bool, false, Option, none, some, String,
  List, [], ◌∷◌, All, All-append, pick, str_eq_text, subst,
}
use web_dashboard.Web.Offline.{
  Worker, Request, cache_name, match_in, open_cache, ask, look_up, end_request, write, receive,
  store, answered, Event, asks, arrives, stores, handle, run,
}
use web_dashboard.Web.Offline.Assets.{match_in-open_cache, match_in-put_in_other}

-- What is picked has the property of all, and the others keep it.
Picked {ℓ κ} : {A : Type ℓ} → (A → Type κ) → Option (A × List A) → Type κ
Picked P none = Unit
Picked P (some (x, others)) = P x × All P others

pick-Picked {ℓ κ} :
    {A : Type ℓ} (P : A → Type κ) (k : ℕ) (xs : List A) → All P xs → Picked P (pick k xs)
unfolding Picked
pick-Picked P k [] h = tt
pick-Picked P zero (x ∷ xs) h = h
pick-Picked P (suc k) (x ∷ xs) h = further (pick k xs) (pick-Picked P k xs (h.1))
  where
    further :
        (o : Option _)
        → Picked P o
        → Picked P (elim o [ none ↦ none | some (y, rest) ↦ some (y, x ∷ rest) ])
    further none g = tt
    further (some (y, rest)) g = (g.0, (h.0, g.1))

abbrev pub Elsewhere : String → String → Type 0
Elsewhere u url = str_eq url u ≡ false

abbrev pub get : String → Request
get url = record { method = "GET"; url = url }

module _ {ℓ} {R : Type ℓ} where
  -- The address `u` is answered with `r` from the cache, and nothing is under way for it.
  pub record Kept (u : String) (r : R) (w : Worker R) : Type ℓ where
    pub cached : match_in u w.caches ≡ some r
    pub not_asked : All (Elsewhere u) w.asked
    pub not_put : All (λ e. Elsewhere u e.0) w.puts

  -- An address that no cache has is another one.
  missing_other :
      (u url : String) (r : R) (w : Worker R)
      → Kept u r w
      → match_in url w.caches ≡ none
      → Elsewhere u url
  missing_other u url r w h e = elim (Bool-cases (str_eq url u)) [
    | inl same ↦
        let there = subst (λ v. match_in v w.caches ≡ none) (str_eq_text url u same) e in
        cc (there, h.cached)
    | inr differ ↦ differ
  ]

  look_up-Kept :
      (u : String) (r : R) (url : String) (o : Option R) (w : Worker R)
      → match_in url w.caches ≡ o
      → Kept u r w
      → Kept u r (look_up o url w)
  look_up-Kept u r url none w e h = record {
    cached = h.cached;
    not_asked =
        All-append (Elsewhere u) w.asked (url ∷ []) h.not_asked (missing_other u url r w h e, tt);
    not_put = h.not_put;
  }
  look_up-Kept u r url (some got) w e h = record {
    cached = h.cached;
    not_asked = h.not_asked;
    not_put = h.not_put;
  }

  ask-Kept :
      (u : String) (r : R) (request : Request) (w : Worker R)
      → Kept u r w
      → Kept u r (ask request w)
  unfolding ask
  ask-Kept u r request w h = elim (Bool-cases (str_eq request.method "GET")) [
    | inl get ↦ rw get (look_up-Kept u r request.url (match_in request.url w.caches) w refl h)
    | inr other ↦ rw other h
  ]

  receive-Kept :
      (u url : String) (r : R) (response : Option R) (w : Worker R)
      → Elsewhere u url
      → Kept u r w
      → Kept u r (receive url response w)
  unfolding receive
  receive-Kept u url r none w differ h = record {
    cached = h.cached;
    not_asked = h.not_asked;
    not_put = h.not_put;
  }
  receive-Kept u url r (some got) w differ h = record {
    cached = h.cached;
    not_asked = h.not_asked;
    not_put = All-append (λ e. Elsewhere u e.0) w.puts ((url, got) ∷ []) h.not_put (differ, tt);
  }

  match_in-store_other :
      (storable : R → Bool) (u url : String) (got : R) (w : Worker R)
      → Elsewhere u url
      → match_in u ((store storable url got w).caches) ≡ match_in u w.caches
  unfolding store
  match_in-store_other storable u url got w differ = elim (Bool-cases (storable got)) [
    | inl stored ↦ rw stored (
        match_in-put_in_other cache_name url u got (open_cache cache_name w.caches) differ
        ∙ match_in-open_cache u cache_name w.caches)
    | inr refused ↦ rw refused (match_in-open_cache u cache_name w.caches)
  ]

  store-Kept :
      (storable : R → Bool) (u url : String) (r got : R) (w : Worker R)
      → Elsewhere u url
      → Kept u r w
      → Kept u r (store storable url got w)
  unfolding store
  store-Kept storable u url r got w differ h = record {
    cached = match_in-store_other storable u url got w differ ∙ h.cached;
    not_asked = h.not_asked;
    not_put = h.not_put;
  }

  end_request-Kept :
      (u : String) (r : R) (response : Option R) (o : Option (String × List String)) (w : Worker R)
      → Picked (Elsewhere u) o
      → Kept u r w
      → Kept u r (end_request response o w)
  unfolding Picked
  end_request-Kept u r response none w p h = h
  end_request-Kept u r response (some (url, others)) w p h =
      receive-Kept u url r response (record w { asked = others }) (p.0)
        (record { cached = h.cached; not_asked = p.1; not_put = h.not_put })

  write-Kept :
      (storable : R → Bool) (u : String) (r : R) (o : Option ((String × R) × List (String × R)))
      (w : Worker R)
      → Picked (λ e. Elsewhere u e.0) o
      → Kept u r w
      → Kept u r (write storable o w)
  unfolding Picked
  write-Kept storable u r none w p h = h
  write-Kept storable u r (some ((url, got), others)) w p h =
      store-Kept storable u url r got (record w { puts = others }) (p.0)
        (record { cached = h.cached; not_asked = h.not_asked; not_put = p.1 })

  handle-Kept :
      (storable : R → Bool) (u : String) (r : R) (e : Event R) (w : Worker R)
      → Kept u r w
      → Kept u r (handle storable e w)
  unfolding handle
  handle-Kept storable u r (asks request) w h = ask-Kept u r request w h
  handle-Kept storable u r (arrives k response) w h =
      end_request-Kept u r response (pick k w.asked) w
        (pick-Picked (Elsewhere u) k w.asked h.not_asked) h
  handle-Kept storable u r (stores k) w h =
      write-Kept storable u r (pick k w.puts) w
        (pick-Picked (λ e. Elsewhere u e.0) k w.puts h.not_put) h

  -- Whatever the page asks for and the network sends.
  pub run-Kept :
      (storable : R → Bool) (u : String) (r : R) (es : List (Event R)) (w : Worker R)
      → Kept u r w
      → Kept u r (run storable es w)
  unfolding run
  run-Kept storable u r [] w h = h
  run-Kept storable u r (e ∷ es) w h =
      run-Kept storable u r es (handle storable e w) (handle-Kept storable u r e w h)

  -- Once an address is in a cache and nothing is under way for it, then after any requests, answers
  -- of the network and writes, a request for it is answered at once with the same response, and the
  -- network is not asked.
  pub cached_answer :
      (storable : R → Bool) (u : String) (r : R) (es : List (Event R)) (w : Worker R)
      → Kept u r w
      → let w' = run storable es w in
        ask (get u) w' ≡ record w' { answers = (u, answered r) ∷ w'.answers }
  unfolding ask
  cached_answer storable u r es w h =
      let w' = run storable es w in ap (λ o. look_up o u w') ((run-Kept storable u r es w h).cached)
