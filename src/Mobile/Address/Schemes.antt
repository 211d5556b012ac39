-- ===== src/Mobile/Address/Schemes.antt =====
-- mobile/src/config.js: the socket address made of an address with a scheme.
use web_dashboard.Prelude.{ℕ, ◌≡◌, refl, ap, Bool, true, false, [], ◌∷◌, ◌++◌, arith}
use web_dashboard.Mobile.Address.{
  Text, text, is_empty, is_space, is_slash, trim_end, trim, after_prefix, has_scheme,
  normalize_base_url, ws_url_of, to_ws_url,
}

-- What is left of a host and a path: without spaces at the end, and then without slashes.
unfoldable pub bare : Text → Text
bare h = trim_end is_slash (trim_end is_space h)

empty_end :
    (p : ℕ → Bool) (xs h : Text)
    → is_empty (trim_end p h) ≡ false
    → is_empty (trim_end p (xs ++ h)) ≡ false
unfolding trim_end
empty_end p [] h e = e
empty_end p (x ∷ xs) h e = ground (arith, empty_end p xs h e)

pub trim_end-append :
    (p : ℕ → Bool) (xs h : Text)
    → is_empty (trim_end p h) ≡ false
    → trim_end p (xs ++ h) ≡ xs ++ trim_end p h
unfolding trim_end
trim_end-append p [] h e = refl
trim_end-append p (x ∷ xs) h e = ground (arith, empty_end p xs h e, trim_end-append p xs h e)

-- What is not empty without its slashes was not empty with them.
pub not_empty : (p : ℕ → Bool) (s : Text) → is_empty (trim_end p s) ≡ false → is_empty s ≡ false
unfolding trim_end
not_empty p [] e = e
not_empty p (c ∷ s) e = refl

-- An address that starts with a character `c` that is no space, and is seen to have a scheme.
normalized :
    (c : ℕ) (s h : Text)
    → is_space c ≡ false
    → has_scheme (c ∷ s ++ trim_end is_space h) ≡ true
    → is_empty (bare h) ≡ false
    → normalize_base_url (c ∷ s ++ h) ≡ c ∷ s ++ bare h
unfolding normalize_base_url trim bare
normalized c s h solid schemed some_left =
    let t = trim_end is_space h in
    let kept = not_empty is_slash t some_left in
    let trimmed = trim_end-append is_space (c ∷ s) h kept in
    let ended = trim_end-append is_slash (c ∷ s) t some_left in rw (solid, trimmed, schemed) ended

-- For a host and a path `h` that are not all spaces and slashes, an address `https://h` becomes
-- `wss://h/ws`, and `http://h` becomes `ws://h/ws`, in both without the spaces and then the slashes at
-- the end of `h`.
pub to_ws_url_lem :
    (h : Text)
    → is_empty (bare h) ≡ false
    → (to_ws_url (text "https://" ++ h) ≡ text "wss://" ++ bare h ++ text "/ws")
      × (to_ws_url (text "http://" ++ h) ≡ text "ws://" ++ bare h ++ text "/ws")
unfolding to_ws_url ws_url_of after_prefix has_scheme
to_ws_url_lem h some_left = (
  ap ws_url_of (normalized 104 (text "ttps://") h refl refl some_left),
  ap ws_url_of (normalized 104 (text "ttp://") h refl refl some_left),
)

-- With the scheme in capitals, `HTTPS://h`, which `normalizeBaseUrl` accepts, the socket address is
-- `ws:///h/ws`: without encryption, and with an empty host.
pub capital_scheme :
    (h : Text)
    → is_empty (bare h) ≡ false
    → (normalize_base_url (text "HTTPS://" ++ h) ≡ text "HTTPS://" ++ bare h)
      × (to_ws_url (text "HTTPS://" ++ h) ≡ text "ws:///" ++ bare h ++ text "/ws")
unfolding to_ws_url ws_url_of after_prefix has_scheme
capital_scheme h some_left =
    let n = normalized 72 (text "TTPS://") h refl refl some_left in (n, ap ws_url_of n)
