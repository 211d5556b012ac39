-- ===== src/Web/Offline/Ready.antt =====
-- client/sw.js: the installation of the static assets, and the page without a network.
use web_dashboard.Prelude.{
  ◌≡◌, refl, sym, ap, ◌∙◌, Bool, true, false, Option, none, some, String, List, ◌∷◌,
}
use web_dashboard.Web.Offline.{
  Cache, Caches, cache_name, static_assets, match_in, open_cache, install_with, fetch_all, install,
  activate, ask, receive, answered, answer_of, Event, run, fresh,
}
use web_dashboard.Web.Offline.Assets.{match_in-open_cache, activate-OnlyCurrent}
use web_dashboard.Web.Offline.Kept.{Kept, run-Kept, get, cached_answer}
use web_dashboard.Web.Offline.Fetching.{
  among, WhereFetched, activate-put_all, fetch_all-WhereFetched, put_all_holds, fetched_good,
}

module _ {ℓ} {R : Type ℓ} (net : String → Option R) (ok : R → Bool) where
  -- What `u` is answered with after the installation, when it is a static asset.
  record Answers (u : String) (cs : Caches R) : Type ℓ where
    response : R
    sent : net u ≡ some response
    good : ok response ≡ true
    kept : match_in u (activate cs) ≡ some response

  install_with-Answers :
      (u : String) (o : Option (Cache R)) (cs : Caches R)
      → WhereFetched net ok static_assets o
      → among u static_assets ≡ true
      → (install_with o cs).1 ≡ true
      → Answers u ((install_with o cs).0)
  unfolding WhereFetched
  install_with-Answers u none cs f m done = cc (done)
  install_with-Answers u (some es) cs f m done =
      let (r, sent, good) = fetched_good net ok u static_assets es f m in
      record {
        response = r;
        sent = sent;
        good = good;
        kept =
            ap (match_in u) (activate-put_all es cs)
            ∙ put_all_holds net ok u static_assets es (activate cs) f m (activate-OnlyCurrent cs)
            ∙ sent;
      }

  install_with_fails :
      (o : Option (Cache R)) (cs : Caches R)
      → (install_with o cs).1 ≡ false
      → (install_with o cs).0 ≡ cs
  install_with_fails none cs failed = refl
  install_with_fails (some es) cs failed = cc (failed)

  -- An installation that fails changes no answer; one that succeeds has had a good response for
  -- every static asset, and after the activation answers each with it.
  pub install-Outcome :
      (cs : Caches R) (u : String)
      → let (installed, done) = install net ok cs in
        (done ≡ false → match_in u installed ≡ match_in u cs)
        × (done ≡ true
            → among u static_assets ≡ true
            → (r : R) × (net u ≡ some r)
              × (ok r ≡ true)
              × (match_in u (activate installed) ≡ some r))
  unfolding install
  install-Outcome cs u =
      let opened = open_cache cache_name cs in
      let o = fetch_all net ok static_assets in
      (
        λ failed.
            ap (match_in u) (install_with_fails o opened failed)
            ∙ match_in-open_cache u cache_name cs,
        λ done m.
            let a =
              install_with-Answers u o opened (fetch_all-WhereFetched net ok static_assets) m
                done in
            (a.response, a.sent, a.good, a.kept),
      )

  -- After an installation and an activation that succeeded, whatever the page asks for and whether
  -- or not the network answers: each static asset is answered with the response of the
  -- installation, and a request that the network does not answer with the installed index page.
  pub offline_page :
      (storable : R → Bool) (cs : Caches R) (es : List (Event R)) (asset url : String) (r index : R)
      → (install net ok cs).1 ≡ true
      → among asset static_assets ≡ true
      → net asset ≡ some r
      → net "/index.html" ≡ some index
      → let w = run storable es (fresh (activate ((install net ok cs).0))) in
        ((ask (get asset) w).answers ≡ (asset, answered r) ∷ w.answers)
        × ((receive url none w).answers ≡ (url, answered index) ∷ w.answers)
  unfolding receive
  offline_page storable cs es asset url r index done m sent sent_index =
      let w0 = fresh (activate ((install net ok cs).0)) in
      let w = run storable es w0 in
      let a = (install-Outcome cs asset).1 done m in
      let i = (install-Outcome cs "/index.html").1 done refl in
      let kept : Kept asset r w0 = record {
        cached = a.3 ∙ sym (a.1) ∙ sent;
        not_asked = tt;
        not_put = tt;
      } in
      let kept_index : Kept "/index.html" index w0 = record {
        cached = i.3 ∙ sym (i.1) ∙ sent_index;
        not_asked = tt;
        not_put = tt;
      } in
      (
        ap (λ v. v.answers) (cached_answer storable asset r es w0 kept),
        ap (λ o. (url, answer_of o) ∷ w.answers)
            ((run-Kept storable "/index.html" index es w0 kept_index).cached),
      )
