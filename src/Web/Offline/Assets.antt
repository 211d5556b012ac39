-- ===== src/Web/Offline/Assets.antt =====
-- client/sw.js: what the caches hold after they are opened, written to and cleaned up.
use text.Mathlib.Text.{◌==◌ as str_eq}
use web_dashboard.Prelude.{
  ◌≡◌, refl, ap, inl, inr, Bool-cases, true, false, none, some, String, [], ◌∷◌, ◌++◌, is_some,
  if◌then◌else◌, lookup, All, All-append, lookup-put_entry_same, lookup-put_entry_other,
  str_eq_refl,
}
use web_dashboard.Web.Offline.{
  Caches, cache_name, is_current, match_in, open_cache, put_in, activate, first_of,
}

module _ {ℓ} {R : Type ℓ} where
  match_in-add_empty :
      (u name : String) (cs : Caches R) → match_in u (cs ++ (name, []) ∷ []) ≡ match_in u cs
  unfolding match_in
  match_in-add_empty u name [] = refl
  match_in-add_empty u name ((n, cache) ∷ rest) =
      ap (first_of (lookup u cache)) (match_in-add_empty u name rest)

  -- Opening a cache changes no answer.
  pub match_in-open_cache :
      (u name : String) (cs : Caches R) → match_in u (open_cache name cs) ≡ match_in u cs
  unfolding open_cache
  match_in-open_cache u name cs = elim (Bool-cases (is_some (lookup name cs))) [
    | inl there ↦ rw there refl
    | inr missing ↦ rw missing (match_in-add_empty u name cs)
  ]

  -- Neither does a write for another address.
  pub match_in-put_in_other :
      (name k u : String) (r : R) (cs : Caches R)
      → str_eq k u ≡ false
      → match_in u (put_in name k r cs) ≡ match_in u cs
  unfolding put_in match_in
  match_in-put_in_other name k u r [] differ =
      ap (λ b. first_of (if b then some r else none) none) differ
  match_in-put_in_other name k u r ((n, cache) ∷ rest) differ = elim (Bool-cases (str_eq n name)) [
    | inl here ↦
        rw here (ap (λ o. first_of o (match_in u rest)) (lookup-put_entry_other k u r cache differ))
    | inr further ↦
        rw further (ap (first_of (lookup u cache)) (match_in-put_in_other name k u r rest differ))
  ]

  -- There is no cache but the current one.
  abbrev pub OnlyCurrent : Caches R → Type 0
  OnlyCurrent cs = All (λ c. is_current c ≡ true) cs

  pub match_in-put_in_same :
      (k : String) (r : R) (cs : Caches R)
      → OnlyCurrent cs
      → match_in k (put_in cache_name k r cs) ≡ some r
  unfolding put_in match_in
  match_in-put_in_same k r [] only =
      ap (λ b. first_of (if b then some r else none) none) (str_eq_refl k)
  match_in-put_in_same k r ((n, cache) ∷ rest) only =
      rw (only.0) (ap (λ o. first_of o (match_in k rest)) (lookup-put_entry_same k r cache))

  pub put_in-OnlyCurrent :
      (k : String) (r : R) (cs : Caches R) → OnlyCurrent cs → OnlyCurrent (put_in cache_name k r cs)
  unfolding put_in
  put_in-OnlyCurrent k r [] only = (str_eq_refl cache_name, tt)
  put_in-OnlyCurrent k r ((n, cache) ∷ rest) only = rw (only.0) only

  pub open_cache-OnlyCurrent :
      (cs : Caches R) → OnlyCurrent cs → OnlyCurrent (open_cache cache_name cs)
  unfolding open_cache
  open_cache-OnlyCurrent cs only = elim (Bool-cases (is_some (lookup cache_name cs))) [
    | inl there ↦ rw there only
    | inr missing ↦ rw missing (
        All-append (λ c. is_current c ≡ true) cs ((cache_name, []) ∷ []) only
          (str_eq_refl cache_name, tt))
  ]

  pub activate-OnlyCurrent : (cs : Caches R) → OnlyCurrent (activate cs)
  unfolding activate
  activate-OnlyCurrent [] = tt
  activate-OnlyCurrent ((n, cache) ∷ rest) = elim (Bool-cases (str_eq n cache_name)) [
    | inl current ↦ rw current (current, activate-OnlyCurrent rest)
    | inr old ↦ rw old (activate-OnlyCurrent rest)
  ]
