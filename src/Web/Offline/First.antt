-- ===== src/Web/Offline/First.antt =====
-- client/sw.js: the first response that the network sends for an address, whatever it is.
use web_dashboard.Prelude.{some, String, List, ◌∷◌, length}
use web_dashboard.Web.Offline.{Worker, Event, asks, arrives, stores}
use web_dashboard.Web.Offline.Kept.{Kept, get}

module _ {ℓ} {R : Type ℓ} where
  -- A request for `u`, the response to it and its write.
  abbrev pub round : String → R → Worker R → List (Event R) → List (Event R)
  round u r w es = asks (get u) ∷ arrives (length w.asked) (some r) ∷ stores (length w.puts) ∷ es
