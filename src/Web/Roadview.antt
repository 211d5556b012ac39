-- ===== src/Web/Roadview.antt =====
-- client/naver-roadview.js: `NaverRoadview`, the panorama and the address below it.
-- A time is a whole number of milliseconds. `metres` is `haversineMeters` rounded down to whole
-- metres, `none` where that is no number; the code compares it with 8 and 20 only.
pub mod Pacing
pub mod Pause
pub mod Detail
mod Tests
use text.Mathlib.Text.{◌==◌ as str_eq}
use web_dashboard.Prelude.{
  ℕ, ◌+◌, ◌-◌, ◌*◌, ◌/◌, ◌^◌, min, max, Bool, true, false, not, Option, none, some, String, List,
  [], ◌∷◌, ◌&&◌, ◌||◌, ◌==◌, ◌≡◌, ltb, leb, if◌then◌else◌, ℤ, pos, negsuc,
}
use web_dashboard.Web.Geo.{Point, GpsFix, valid_point, normalize_pan}

-- What `addressEl` shows.
pub data Address : Type 0 where
  auth_failed : Address
  limited : ℕ → Address
  found : String → Address
  no_address : Address
  failed : ℕ → Address

-- The text of a `Retry-After` header as the code reads it: `Number` of it in thousandths of a
-- second, where that is finite, and `Date.parse` of it, where that is finite.
pub record RetryAfter : Type 0 where
  pub number : Option ℤ
  pub date : Option ℕ

-- What `fetch` comes to: an answer with the status `ok`, one with another status code, or an
-- exception, among them the abort after 4500 ms.
pub data Reply : Type 0 where
  answered : Option String → Reply
  refused : ℕ → Option RetryAfter → Reply
  threw : Reply

pub record Roadview : Type 0 where
  pub ready : Bool
  pub last_pano_fix : Option Point
  pub last_geocode_fix : Option Point
  pub last_geocode_at_ms : ℕ
  pub disabled : Bool
  pub in_flight : Bool
  pub fail_count : ℕ
  pub cooldown_until_ms : ℕ
  pub pan : Option ℤ
  pub address : Option Address

-- The fields after `init`, with the panorama where it succeeded.
unfoldable pub new : Bool → Roadview
new ready = record {
  ready = ready;
  last_pano_fix = none;
  last_geocode_fix = none;
  last_geocode_at_ms = 0;
  disabled = false;
  in_flight = false;
  fail_count = 0;
  cooldown_until_ms = 0;
  pan = none;
  address = none;
}

-- `Math.round(diffMs / 1000)`, in milliseconds, of the time from `now` to `date`.
abbrev pub seconds_until : ℕ → ℕ → ℕ
seconds_until date now = if leb date now then 0 else (date - now + 500) / 1000 * 1000

abbrev pub date_wait : Option ℕ → ℕ → Option ℕ
date_wait none now = none
date_wait (some date) now = some (seconds_until date now)

-- `parseRetryAfterSeconds`, in milliseconds.
unfoldable pub parse_retry_after : Option RetryAfter → ℕ → Option ℕ
parse_retry_after none now = none
parse_retry_after (some header) now = elim header.number [
  | none ↦ date_wait header.date now
  | some number ↦ elim number [ pos n ↦ some n | negsuc n ↦ date_wait header.date now ]
]

-- `Math.min(60, 5 * 2 ** Math.min(k, 4))`, in milliseconds.
unfoldable pub backoff : ℕ → ℕ
backoff k = min 60000 (5000 * 2 ^ min k 4)

abbrev pub limit_wait : Option ℕ → ℕ → ℕ
limit_wait none fail_count = backoff fail_count
limit_wait (some wait) fail_count = max 5000 wait

-- The branches of the reply's handler; `finally` clears `in_flight`.
unfoldable pub give_up : Roadview → Roadview
give_up r = record r { disabled = true; in_flight = false; address = some auth_failed }

unfoldable pub limit : Option ℕ → ℕ → Roadview → Roadview
limit wait now r = record r {
  fail_count = r.fail_count + 1;
  cooldown_until_ms = now + limit_wait wait r.fail_count;
  in_flight = false;
  address = some (limited (limit_wait wait r.fail_count));
}

unfoldable pub fail : ℕ → Roadview → Roadview
fail now r =
    let fail_count = r.fail_count + 1 in
    let wait = backoff (fail_count - 1) in
    record r {
      fail_count = fail_count;
      cooldown_until_ms = now + wait;
      in_flight = false;
      address = some (failed wait);
    }

-- `payload?.address || "(…)"`.
abbrev pub shown : Option String → Address
shown none = no_address
shown (some text) = if str_eq text "" then no_address else found text

unfoldable pub succeed : Option String → Roadview → Roadview
succeed address r = record r {
  fail_count = 0;
  cooldown_until_ms = 0;
  in_flight = false;
  address = some (shown address);
}

-- The rest of `_maybeReverseGeocode` once `fetch` has come to `reply`, at the time `now` of
-- `performance.now()` and `date` of `Date.now()`.
unfoldable pub on_reply : Reply → ℕ → ℕ → Roadview → Roadview
unfolding give_up limit fail succeed
on_reply (answered address) now date r = succeed address r
on_reply (refused code header) now date r =
    if code == 401 || code == 403
    then give_up r
    else if code == 429
    then limit (parse_retry_after header date) now r
    else fail now r
on_reply threw now date r = fail now r

module _ (metres : Point → Point → Option ℕ) where
  -- `haversineMeters(a, b) < k`, false where the distance is no number.
  abbrev pub within : ℕ → Option Point → Point → Bool
  within k none q = false
  within k (some p) q = elim (metres p q) [ none ↦ false | some d ↦ ltb d k ]

  -- `!p || haversineMeters(p, q) >= k`.
  abbrev pub moved : ℕ → Option Point → Point → Bool
  moved k none q = true
  moved k (some p) q = elim (metres p q) [ none ↦ false | some d ↦ leb k d ]

  -- The early returns of `_maybeReverseGeocode`.
  unfoldable pub may_ask : Point → ℕ → Roadview → Bool
  may_ask p now r = not (
      r.disabled
      || r.in_flight
      || ltb now r.cooldown_until_ms
      || ltb (now - r.last_geocode_at_ms) 5000
      || within 20 r.last_geocode_fix p)

  -- `_maybeReverseGeocode` up to its `fetch`, and whether it comes to that.
  unfoldable pub maybe_reverse_geocode : Point → ℕ → Roadview → Roadview × Bool
  maybe_reverse_geocode p now r =
      if may_ask p now r
      then (
        record r { last_geocode_at_ms = now; last_geocode_fix = some p; in_flight = true },
        true,
      )
      else (r, false)

  -- The part of `updateFromFix` that moves and turns the panorama.
  unfoldable pub aim : Point → GpsFix → Bool → Roadview → Roadview
  aim p fix stale r = record r {
    last_pano_fix = if moved 8 r.last_pano_fix p && not stale then some p else r.last_pano_fix;
    pan = some (normalize_pan fix.hdg);
  }

  -- `updateFromFix` with the point of a valid fix.
  unfoldable pub update_at : Option Point → GpsFix → Bool → ℕ → Roadview → Roadview × Bool
  unfolding aim
  update_at none fix stale now r = (r, false)
  update_at (some p) fix stale now r =
      if not r.ready
      then (r, false)
      else if stale
      then (aim p fix stale r, false)
      else maybe_reverse_geocode p now (aim p fix stale r)

  unfoldable pub update_from_fix : Option GpsFix → Bool → ℕ → Roadview → Roadview × Bool
  unfolding update_at
  update_from_fix none stale now r = (r, false)
  update_from_fix (some fix) stale now r = update_at (valid_point (some fix)) fix stale now r

-- A call of `updateFromFix`, or the end of a request.
pub data Event : Type 0 where
  update : Option GpsFix → Bool → ℕ → Event
  reply : Reply → ℕ → ℕ → Event

abbrev pub time : Event → ℕ
time (update fix stale now) = now
time (reply r now date) = now

-- The object, the time of the last event, and the times of the requests, the latest first.
pub record State : Type 0 where
  pub view : Roadview
  pub clock : ℕ
  pub requests : List ℕ

module _ (metres : Point → Point → Option ℕ) where
  -- Time does not run backwards, and a reply needs a request.
  unfoldable pub enabled : Event → State → Bool
  enabled (update fix stale now) s = leb s.clock now
  enabled (reply r now date) s = leb s.clock now && s.view.in_flight

  unfoldable pub handle : Event → State → State
  unfolding update_from_fix on_reply
  handle (update fix stale now) s =
      let (view, asked) = update_from_fix metres fix stale now s.view in
      record { view = view; clock = now; requests = if asked then now ∷ s.requests else s.requests }
  handle (reply r now date) s = record s { view = on_reply r now date s.view; clock = now }

  pub data Reach (s : State) : State → Type 0 where
    here : Reach s s
    next : {t : State} (e : Event) → Reach s t → enabled e t ≡ true → Reach s (handle e t)

abbrev pub start : Bool → State
start ready = record { view = new ready; clock = 0; requests = [] }
