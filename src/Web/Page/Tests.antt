-- ===== src/Web/Page/Tests.antt =====
-- Runs of the page's connection, client/app.js, on concrete events.
use web_dashboard.Prelude.{
  Bool, true, ℕ, ◌+◌, ◌≡◌, refl, Option, some, String, List, [], ◌∷◌, length, arith, ℤ, pos,
}
use web_dashboard.Web.Socket
use web_dashboard.Web.Socket.{
  disconnected, is_open_now, handle, enabled, connect, disconnect, open_socket, on_open,
}
use web_dashboard.Web.Page.{Page, Clock, Event, connects, happens, page_run, blank}
use web_dashboard.Web.Page.Counting.{Counters, no_frames}
use web_dashboard.Web.Page.Frames.{Arrival, InOrder, count_all, frames_accounted}
use web_dashboard.Web.Page.Ping.{OnePing, page_run-OnePing}

abbrev clock : Clock
clock = record { now_ms = 5000; date_ms = 1_700_000_000_000 }

abbrev signals : String → Option ℤ
signals key = some (pos 1)

-- Frame 12 is lost, and the server drops frame 13.
abbrev arrivals : List Arrival
arrivals = record { at = 5000; seq = 11; drop = 2 } ∷ record { at = 5100; seq = 14; drop = 3 } ∷ []

abbrev ten_seen : Counters ℤ
ten_seen = record (no_frames {N = ℤ}) { last_seq = some 10; last_server_drop = 2 }

frames_accounted_example :
    let c' = count_all signals arrivals ten_seen in
    (last' : ℕ) × (c'.last_seq ≡ some last')
    × (10 + length arrivals + c'.local_drop_count + c'.last_server_drop
        ≡ last' + ten_seen.local_drop_count + ten_seen.last_server_drop)
unfolding InOrder
frames_accounted_example =
    frames_accounted signals arrivals ten_seen 10 refl
      (omega arith, omega arith, omega arith, (omega arith, omega arith, omega arith, tt))

abbrev events : List (Clock × Event ℤ)
events =
    (clock, connects "ws://a/ws")
    ∷ (clock, happens 0 (Socket.opens 0))
    ∷ (clock, connects "ws://a/ws")
    ∷ (clock, happens 1 (Socket.opens 0))
    ∷ []

abbrev any : String → Bool
any url = true

abbrev replaced : Page ℤ
replaced = page_run events (blank any)

page_run-OnePing_example : OnePing replaced
page_run-OnePing_example = page_run-OnePing any events

abbrev receiving : Page ℤ
receiving = record replaced { counters = count_all signals arrivals ten_seen }
