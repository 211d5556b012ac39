-- ===== src/Mobile/Address/Tests.antt =====
-- Addresses of mobile/src/config.js on concrete texts.
use web_dashboard.Prelude.{◌≡◌, refl}
use web_dashboard.Mobile.Address.{
  Text, text, trim_end, trim, after_prefix, has_scheme, normalize_base_url, ws_url_of, to_ws_url,
}

abbrev host : Text
host = text "car.example:8443// "

plain_host : to_ws_url (text " 10.0.0.2:8080/ ") ≡ text "ws://10.0.0.2:8080/ws"
unfolding to_ws_url ws_url_of normalize_base_url trim trim_end after_prefix has_scheme
plain_host = refl

kept_path : to_ws_url (text "wss://car/ws") ≡ text "wss://car/ws"
unfolding to_ws_url ws_url_of normalize_base_url trim trim_end after_prefix has_scheme
kept_path = refl

no_address : to_ws_url (text "  ") ≡ text "ws://127.0.0.1:8080/ws"
unfolding to_ws_url ws_url_of normalize_base_url trim trim_end after_prefix has_scheme
no_address = refl
