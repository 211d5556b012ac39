-- ===== src/Web/Address.antt =====
-- client/app.js: normalizeHttpBase and httpToWs, which make the socket's address of what is typed.
-- A text is the list of its code units.
pub mod Schemes
mod Tests
use web_dashboard.Prelude.{
  ℕ, ◌+◌, Bool, true, false, Option, none, some, List, [], ◌∷◌, ◌++◌, ◌||◌, ◌==◌, if◌then◌else◌,
  is_some, drop,
}
use web_dashboard.Mobile.Address.{
  Text, text, is_empty, between, is_slash, trim_end, trim, after_prefix, starts_with,
}

-- `window.location`, as far as it is read.
pub record Location : Type 0 where
  pub protocol : Text
  pub host : Text

-- The flag `i` of an expression, on its ASCII letters.
abbrev pub lower : ℕ → ℕ
lower c = if between 65 90 c then c + 32 else c

-- What follows a prefix that is in lower case, in any case.
unfoldable pub after_any_case : Text → Text → Option Text
after_any_case [] s = some s
after_any_case (c ∷ p) [] = none
after_any_case (c ∷ p) (d ∷ s) =
    let rest = after_any_case p s in if c == lower d then rest else none

-- The expression `/^https?:\/\//i`.
unfoldable pub is_http : Text → Bool
unfolding after_any_case
is_http raw =
    is_some (after_any_case (text "http://") raw) || is_some (after_any_case (text "https://") raw)

abbrev pub origin : Location → Text
origin page = page.protocol ++ text "//" ++ page.host

-- A `ws` scheme as the `http` one.
unfoldable pub as_http : Text → Text
unfolding after_prefix
as_http raw =
    if starts_with (text "ws://") raw || starts_with (text "wss://") raw
    then text "http" ++ drop 2 raw
    else raw

unfoldable pub with_protocol : Location → Text → Text
unfolding is_http
with_protocol page raw = if is_http raw then raw else page.protocol ++ text "//" ++ raw

unfoldable pub normalize_http_base : Location → Text → Text
unfolding trim trim_end as_http with_protocol
normalize_http_base page raw_input =
    let raw = trim raw_input in
    if is_empty raw then origin page else trim_end is_slash (with_protocol page (as_http raw))

abbrev pub as_ws : Option Text → Text → Text
as_ws none http_base = http_base
as_ws (some rest) http_base = text "ws" ++ rest

unfoldable pub http_to_ws : Text → Text
unfolding after_any_case
http_to_ws http_base = as_ws (after_any_case (text "http") http_base) http_base ++ text "/ws"

-- The first lines of `connectSocket`.
unfoldable pub socket_url : Location → Text → Text
unfolding normalize_http_base http_to_ws
socket_url page server_url = http_to_ws (normalize_http_base page server_url)
