-- ===== src/Web/Offline/Fetching.antt =====
-- client/sw.js: the responses that an installation fetches, and where it puts them.
use text.Mathlib.Text.{◌==◌ as str_eq}
use web_dashboard.Prelude.{
  ◌≡◌, refl, sym, ap, ◌∙◌, inl, inr, Bool-cases, Bool, true, false, Option, none, some, String,
  List, [], ◌∷◌, if◌then◌else◌, All, str_eq_text, subst,
}
use web_dashboard.Web.Offline.{
  Cache, Caches, cache_name, match_in, put_in, put_all, fetched, fetch_all, activate,
}
use web_dashboard.Web.Offline.Assets.{
  OnlyCurrent, match_in-put_in_other, match_in-put_in_same, put_in-OnlyCurrent,
}

abbrev pub among : String → List String → Bool
among u [] = false
among u (v ∷ vs) = let rest = among u vs in if str_eq v u then true else rest

module _ {ℓ} {R : Type ℓ} where
  -- Deleting the old caches and writing to the current one, in either order.
  activate-put_in :
      (k : String) (r : R) (cs : Caches R)
      → activate (put_in cache_name k r cs) ≡ put_in cache_name k r (activate cs)
  unfolding activate put_in
  activate-put_in k r [] = refl
  activate-put_in k r ((n, cache) ∷ rest) = elim (Bool-cases (str_eq n cache_name)) [
    | inl current ↦ rw (current, current) refl
    | inr old ↦ rw (old, old) (activate-put_in k r rest)
  ]

  pub activate-put_all :
      (es : Cache R) (cs : Caches R)
      → activate (put_all cache_name es cs) ≡ put_all cache_name es (activate cs)
  unfolding put_all
  activate-put_all [] cs = refl
  activate-put_all ((k, r) ∷ es) cs =
      activate-put_all es (put_in cache_name k r cs)
      ∙ ap (put_all cache_name es) (activate-put_in k r cs)

module _ {ℓ} {R : Type ℓ} (net : String → Option R) (ok : R → Bool) where
  -- Responses that the network sent and that `ok` accepts.
  abbrev Fetched : Cache R → Type ℓ
  Fetched es = All (λ e. (net e.0 ≡ some e.1) × (ok e.1 ≡ true)) es

  put_in_net :
      (u k : String) (r : R) (cs : Caches R)
      → net k ≡ some r
      → OnlyCurrent cs
      → match_in u cs ≡ net u
      → match_in u (put_in cache_name k r cs) ≡ net u
  put_in_net u k r cs sent only h = elim (Bool-cases (str_eq k u)) [
    | inl same ↦
        subst (λ v. match_in v (put_in cache_name k r cs) ≡ net v) (str_eq_text k u same)
          (match_in-put_in_same k r cs only ∙ sym sent)
    | inr differ ↦ match_in-put_in_other cache_name k u r cs differ ∙ h
  ]

  put_all_keeps :
      (u : String) (es : Cache R) (cs : Caches R)
      → Fetched es
      → OnlyCurrent cs
      → match_in u cs ≡ net u
      → match_in u (put_all cache_name es cs) ≡ net u
  unfolding put_all
  put_all_keeps u [] cs f only h = h
  put_all_keeps u ((k, r) ∷ es) cs f only h =
      put_all_keeps u es (put_in cache_name k r cs) (f.1) (put_in-OnlyCurrent k r cs only)
        (put_in_net u k r cs (f.0.0) only h)

  -- One pair for each address.
  pub data Fetches : List String → Cache R → Type ℓ where
    nothing : Fetches [] []
    one_more :
        {url : String} {r : R} {urls : List String} {es : Cache R}
        → net url ≡ some r
        → ok r ≡ true
        → Fetches urls es
        → Fetches (url ∷ urls) ((url, r) ∷ es)

  -- Where every response came and was good.
  unfoldable pub WhereFetched : List String → Option (Cache R) → Type ℓ
  WhereFetched urls none = Unit
  WhereFetched urls (some es) = Fetches urls es

  fetched-WhereFetched :
      (url : String) (urls : List String) (o : Option R) (rest : Option (Cache R))
      → net url ≡ o
      → WhereFetched urls rest
      → WhereFetched (url ∷ urls) (fetched ok url o rest)
  unfolding WhereFetched
  fetched-WhereFetched url urls none rest e f = tt
  fetched-WhereFetched url urls (some r) none e f = tt
  fetched-WhereFetched url urls (some r) (some es) e f = elim (Bool-cases (ok r)) [
    | inl good ↦ rw good (one_more e good f)
    | inr bad ↦ rw bad tt
  ]

  pub fetch_all-WhereFetched : (urls : List String) → WhereFetched urls (fetch_all net ok urls)
  unfolding fetch_all WhereFetched
  fetch_all-WhereFetched [] = nothing
  fetch_all-WhereFetched (url ∷ urls) =
      fetched-WhereFetched url urls (net url) (fetch_all net ok urls) refl
        (fetch_all-WhereFetched urls)

  Fetches-Fetched : (urls : List String) (es : Cache R) → Fetches urls es → Fetched es
  Fetches-Fetched _ _ nothing = tt
  Fetches-Fetched _ _ (one_more {urls = urls} {es = es} sent good f) =
      ((sent, good), Fetches-Fetched urls es f)

  -- Each address that was fetched is answered with what was fetched.
  pub put_all_holds :
      (u : String) (urls : List String) (es : Cache R) (cs : Caches R)
      → Fetches urls es
      → among u urls ≡ true
      → OnlyCurrent cs
      → match_in u (put_all cache_name es cs) ≡ net u
  unfolding put_all
  put_all_holds u _ _ cs nothing m only = cc (m)
  put_all_holds u _ _ cs (one_more {url = url} {r = r} {urls = urls} {es = es} sent good f) m only =
      let later = put_in-OnlyCurrent url r cs only in
      elim (Bool-cases (str_eq url u)) [
        | inl same ↦
            let here =
              subst (λ v. match_in v (put_in cache_name url r cs) ≡ net v) (str_eq_text url u same)
                (match_in-put_in_same url r cs only ∙ sym sent) in
            put_all_keeps u es (put_in cache_name url r cs) (Fetches-Fetched urls es f) later here
        | inr differ ↦
            put_all_holds u urls es (put_in cache_name url r cs) f
              (sym (ap (λ b. if b then true else among u urls) differ) ∙ m) later
      ]

  -- An address that was fetched had a good response.
  pub fetched_good :
      (u : String) (urls : List String) (es : Cache R)
      → Fetches urls es
      → among u urls ≡ true
      → (r : R) × (net u ≡ some r) × (ok r ≡ true)
  fetched_good u _ _ nothing m = cc (m)
  fetched_good u _ _ (one_more {url = url} {r = r} {urls = urls} {es = es} sent good f) m =
      elim (Bool-cases (str_eq url u)) [
        | inl same ↦ (r, subst (λ v. net v ≡ some r) (str_eq_text url u same) sent, good)
        | inr differ ↦
            fetched_good u urls es f (sym (ap (λ b. if b then true else among u urls) differ) ∙ m)
      ]
