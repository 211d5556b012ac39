-- ===== src/Web/Offline/Tests.antt =====
-- Runs of client/sw.js; a response is its status and its text.
use web_dashboard.Prelude.{
  ℕ, ◌≡◌, refl, Bool, true, false, Option, none, some, String, List, [], ◌∷◌, ◌&&◌, leb, ltb,
}
use web_dashboard.Web.Offline.{
  Caches, Event, asks, arrives, stores, static_assets, match_in, open_cache, put_in, put_all,
  fetch_all, install, activate, ask, receive, run, fresh, answered,
}
use web_dashboard.Web.Offline.Kept.{get}
use web_dashboard.Web.Offline.Ready.{install-Outcome, offline_page}
use web_dashboard.Web.Offline.Fetching.{among}

abbrev Response : Type 0
Response = ℕ × String

abbrev ok : Response → Bool
ok r = leb 200 r.0 && ltb r.0 300

abbrev storable : Response → Bool
storable r = true

abbrev server : String → Option Response
server url = some (200, url)

abbrev server_error : Response
server_error = (500, "busy")

-- A cache of a version before.
abbrev before : Caches Response
before = ("telemetry-dashboard-v4", ("/app.js", (200, "old")) ∷ []) ∷ []

abbrev config : String
config = "/api/public-config"

abbrev events : List (Event Response)
events =
    asks (get config)
    ∷ asks (get "/logo.png")
    ∷ arrives 1 none
    ∷ arrives 0 (some server_error)
    ∷ stores 0
    ∷ []

installed : match_in "/app.js" (activate ((install server ok before).0)) ≡ some (200, "/app.js")
unfolding install activate match_in fetch_all open_cache put_all put_in
installed = refl

install-Outcome_example :
    let (after, done) = install server ok before in
    (done ≡ false → match_in "/app.js" after ≡ match_in "/app.js" before)
    × (done ≡ true
        → among "/app.js" static_assets ≡ true
        → (r : Response) × (server "/app.js" ≡ some r)
          × (ok r ≡ true)
          × (match_in "/app.js" (activate after) ≡ some r))
install-Outcome_example = install-Outcome server ok before "/app.js"

offline_page_example :
    let w = run storable events (fresh (activate ((install server ok before).0))) in
    ((ask (get "/app.js") w).answers ≡ ("/app.js", answered (200, "/app.js")) ∷ w.answers)
    × ((receive "/map.png" none w).answers
        ≡ ("/map.png", answered (200, "/index.html")) ∷ w.answers)
unfolding install fetch_all
offline_page_example =
    offline_page server ok storable before events "/app.js" "/map.png" (200, "/app.js")
      (200, "/index.html") refl refl refl refl
