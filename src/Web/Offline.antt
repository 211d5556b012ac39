-- ===== src/Web/Offline.antt =====
-- client/sw.js: the service worker that answers the page's requests from a cache. `R` is the type
-- of the responses. A request in flight and a write to the cache end in an event of their own.
pub mod Assets
pub mod Fetching
pub mod First
pub mod Kept
pub mod Ready
mod Tests
use text.Mathlib.Text.{◌==◌ as str_eq}
use web_dashboard.Prelude.{
  ℕ, Bool, true, false, not, Option, none, some, String, List, [], ◌∷◌, ◌++◌, is_some,
  if◌then◌else◌, filter, lookup, put_entry, pick,
}

abbrev pub cache_name : String
cache_name = "telemetry-dashboard-v5"

abbrev pub static_assets : List String
static_assets =
    "/" ∷ "/index.html" ∷ "/styles.css" ∷ "/app.js" ∷ "/naver-map.js" ∷ "/naver-roadview.js"
    ∷ "/ws.js" ∷ "/gps.js" ∷ "/ui.js" ∷ "/charts.js" ∷ "/manifest.json" ∷ []

-- A cache, by the address of the request, and all the caches, by name, in the order of creation.
abbrev pub Cache {ℓ} : Type ℓ → Type ℓ
Cache R = List (String × R)

abbrev pub Caches {ℓ} : Type ℓ → Type ℓ
Caches R = List (String × Cache R)

-- What the page gets for a request.
pub data Answer {ℓ} (R : Type ℓ) : Type ℓ where
  answered : R → Answer R
  network_error : Answer R

pub record Request : Type 0 where
  pub method : String
  pub url : String

-- `asked` are the requests in flight, `puts` the writes that are still to come, and `answers` what
-- the page has got, the latest first.
pub record Worker {ℓ} (R : Type ℓ) : Type ℓ where
  pub caches : Caches R
  pub asked : List String
  pub puts : List (String × R)
  pub answers : List (String × Answer R)

module _ {ℓ} {R : Type ℓ} where
  abbrev pub first_of : Option R → Option R → Option R
  first_of none later = later
  first_of (some r) later = some r

  -- `caches.match`: the first cache that has the request.
  unfoldable pub match_in : String → Caches R → Option R
  match_in url [] = none
  match_in url ((name, cache) ∷ rest) =
      let later = match_in url rest in first_of (lookup url cache) later

  -- `caches.open`.
  unfoldable pub open_cache : String → Caches R → Caches R
  open_cache name caches =
      if is_some (lookup name caches) then caches else caches ++ (name, []) ∷ []

  -- `cache.put`, in the cache of that name.
  unfoldable pub put_in : String → String → R → Caches R → Caches R
  put_in name url r [] = (name, (url, r) ∷ []) ∷ []
  put_in name url r ((n, cache) ∷ rest) =
      let later = put_in name url r rest in
      if str_eq n name then (n, put_entry url r cache) ∷ rest else (n, cache) ∷ later

  abbrev pub fetched : (R → Bool) → String → Option R → Option (Cache R) → Option (Cache R)
  fetched ok url none rest = none
  fetched ok url (some r) none = none
  fetched ok url (some r) (some es) = if ok r then some ((url, r) ∷ es) else none

  -- What `addAll` fetches, where every response comes and is one that `ok` accepts.
  unfoldable pub fetch_all : (String → Option R) → (R → Bool) → List String → Option (Cache R)
  fetch_all net ok [] = some []
  fetch_all net ok (url ∷ urls) = fetched ok url (net url) (fetch_all net ok urls)

  unfoldable pub put_all : String → Cache R → Caches R → Caches R
  unfolding put_in
  put_all name [] caches = caches
  put_all name ((url, r) ∷ es) caches = put_all name es (put_in name url r caches)

  abbrev pub install_with : Option (Cache R) → Caches R → Caches R × Bool
  install_with none caches = (caches, false)
  install_with (some es) caches = (put_all cache_name es caches, true)

  -- The `install` handler, and whether the installation succeeds.
  unfoldable pub install : (String → Option R) → (R → Bool) → Caches R → Caches R × Bool
  unfolding open_cache fetch_all
  install net ok caches =
      install_with (fetch_all net ok static_assets) (open_cache cache_name caches)

  -- `key === CACHE_NAME`, of a cache.
  abbrev pub is_current : String × Cache R → Bool
  is_current c = str_eq c.0 cache_name

  -- The `activate` handler.
  unfoldable pub activate : Caches R → Caches R
  activate caches = filter is_current caches

  abbrev pub answer_of : Option R → Answer R
  answer_of none = network_error
  answer_of (some r) = answered r

  abbrev pub answer : String → Answer R → Worker R → Worker R
  answer url a w = record w { answers = (url, a) ∷ w.answers }

  -- The answer from a cache, or a request to the network.
  abbrev pub look_up : Option R → String → Worker R → Worker R
  look_up none url w = record w { asked = w.asked ++ url ∷ [] }
  look_up (some r) url w = answer url (answered r) w

  -- The `fetch` handler up to the lookup; the browser sees to what is no `GET` itself.
  unfoldable pub ask : Request → Worker R → Worker R
  unfolding match_in
  ask request w =
      if str_eq request.method "GET"
      then look_up (match_in request.url w.caches) request.url w
      else w

  -- The rest of the `fetch` handler, once the network has come to a response or to none.
  unfoldable pub receive : String → Option R → Worker R → Worker R
  unfolding match_in
  receive url none w = answer url (answer_of (match_in "/index.html" w.caches)) w
  receive url (some r) w = record w {
    puts = w.puts ++ (url, r) ∷ [];
    answers = (url, answered r) ∷ w.answers;
  }

  -- `cache.put`, which refuses some responses (those of a range, or that vary with everything).
  unfoldable pub store : (R → Bool) → String → R → Worker R → Worker R
  unfolding put_in open_cache
  store storable url r w =
      let opened = open_cache cache_name w.caches in
      record w { caches = if storable r then put_in cache_name url r opened else opened }

-- A request of the page, the end of one in flight, and the write of one that is still to come.
pub data Event {ℓ} (R : Type ℓ) : Type ℓ where
  asks : Request → Event R
  arrives : ℕ → Option R → Event R
  stores : ℕ → Event R

module _ {ℓ} {R : Type ℓ} where
  -- The end of the request that was picked, and the write that was.
  abbrev pub end_request : Option R → Option (String × List String) → Worker R → Worker R
  end_request response none w = w
  end_request response (some (url, others)) w = receive url response (record w { asked = others })

  abbrev pub write : (R → Bool) → Option ((String × R) × List (String × R)) → Worker R → Worker R
  write storable none w = w
  write storable (some ((url, r), others)) w = store storable url r (record w { puts = others })

  unfoldable pub handle : (R → Bool) → Event R → Worker R → Worker R
  unfolding ask receive store
  handle storable (asks request) w = ask request w
  handle storable (arrives k response) w = end_request response (pick k w.asked) w
  handle storable (stores k) w = write storable (pick k w.puts) w

  unfoldable pub run : (R → Bool) → List (Event R) → Worker R → Worker R
  run storable [] w = w
  run storable (e ∷ es) w = run storable es (handle storable e w)

  -- A worker with nothing in flight.
  abbrev pub fresh : Caches R → Worker R
  fresh caches = record { caches = caches; asked = []; puts = []; answers = [] }
