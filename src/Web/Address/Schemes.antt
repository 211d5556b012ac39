-- ===== src/Web/Address/Schemes.antt =====
-- client/app.js: the socket address made of an address with a scheme, or without one.
use web_dashboard.Prelude.{ℕ, ◌≡◌, refl, sym, ◌∙◌, ap, false, ◌∷◌, ◌++◌}
use web_dashboard.Mobile.Address.{
  Text, text, is_empty, is_space, is_slash, trim_end, trim, after_prefix, to_ws_url,
}
use web_dashboard.Mobile.Address.Schemes.{bare, not_empty, trim_end-append, to_ws_url_lem}
use web_dashboard.Web.Address.{
  Location, after_any_case, is_http, as_http, with_protocol, normalize_http_base, http_to_ws,
  socket_url,
}

-- An address `c s h` that starts with no space, and to which the tests for a scheme give the
-- beginning `front`.
normalized :
    (page : Location) (c : ℕ) (s front h : Text)
    → is_space c ≡ false
    → is_empty (bare h) ≡ false
    → with_protocol page (as_http (c ∷ s ++ trim_end is_space h)) ≡ front ++ trim_end is_space h
    → normalize_http_base page (c ∷ s ++ h) ≡ front ++ bare h
unfolding normalize_http_base trim bare
normalized page c s front h solid some_left e =
    let t = trim_end is_space h in
    let kept = not_empty is_slash t some_left in
    let trimmed = trim_end-append is_space (c ∷ s) h kept in
    rw (solid, trimmed) (ap (trim_end is_slash) e ∙ trim_end-append is_slash front t some_left)

-- For a host and a path `h` that are not all spaces and slashes, in both cases without the spaces and
-- then the slashes at the end of `h`: `ws://h` and `http://h` give `ws://h/ws`, `wss://h` and
-- `https://h` give `wss://h/ws`, whatever the page's own protocol is.
pub socket_url_lem :
    (page : Location) (h : Text)
    → is_empty (bare h) ≡ false
    → (socket_url page (text "ws://" ++ h) ≡ text "ws://" ++ bare h ++ text "/ws")
      × (socket_url page (text "http://" ++ h) ≡ text "ws://" ++ bare h ++ text "/ws")
      × (socket_url page (text "wss://" ++ h) ≡ text "wss://" ++ bare h ++ text "/ws")
      × (socket_url page (text "https://" ++ h) ≡ text "wss://" ++ bare h ++ text "/ws")
unfolding socket_url http_to_ws after_any_case after_prefix is_http as_http with_protocol
socket_url_lem page h some_left = (
  ap http_to_ws (normalized page 119 (text "s://") (text "http://") h refl some_left refl),
  ap http_to_ws (normalized page 104 (text "ttp://") (text "http://") h refl some_left refl),
  ap http_to_ws (normalized page 119 (text "ss://") (text "https://") h refl some_left refl),
  ap http_to_ws (normalized page 104 (text "ttps://") (text "https://") h refl some_left refl),
)

-- The page and the phone make the same socket address of an address `http://h` or `https://h`.
pub same_as_phone :
    (page : Location) (h : Text)
    → is_empty (bare h) ≡ false
    → (socket_url page (text "http://" ++ h) ≡ to_ws_url (text "http://" ++ h))
      × (socket_url page (text "https://" ++ h) ≡ to_ws_url (text "https://" ++ h))
same_as_phone page h some_left =
    let web = socket_url_lem page h some_left in
    let phone = to_ws_url_lem h some_left in (web.1 ∙ sym (phone.1), web.3 ∙ sym (phone.0))

-- With the scheme in capitals, `WS://h`, the socket address names a host `WS` behind the page's own
-- protocol.
pub capital_socket_scheme :
    (host h : Text)
    → is_empty (bare h) ≡ false
    → socket_url (record { protocol = text "http:"; host = host }) (text "WS://" ++ h)
      ≡ text "ws://WS://" ++ bare h ++ text "/ws"
unfolding socket_url http_to_ws after_any_case after_prefix is_http as_http with_protocol
capital_socket_scheme host h some_left =
    let page : Location = record { protocol = text "http:"; host = host } in
    ap http_to_ws (normalized page 87 (text "S://") (text "http://WS://") h refl some_left refl)
