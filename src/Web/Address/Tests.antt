-- ===== src/Web/Address/Tests.antt =====
-- Addresses of client/app.js on concrete texts.
use web_dashboard.Prelude.{◌≡◌, refl, ◌++◌}
use web_dashboard.Mobile.Address.{Text, text, trim_end, trim, after_prefix}
use web_dashboard.Mobile.Address.Schemes.{bare}
use web_dashboard.Web.Address.{
  Location, after_any_case, is_http, as_http, with_protocol, normalize_http_base, http_to_ws,
  socket_url,
}
use web_dashboard.Web.Address.Schemes.{socket_url_lem}

abbrev page : Location
page = record { protocol = text "https:"; host = text "dash.example" }

abbrev server : Text
server = text "car.example:8443// "

no_input : socket_url page (text "  ") ≡ text "wss://dash.example/ws"
unfolding socket_url normalize_http_base http_to_ws trim trim_end after_any_case after_prefix
    is_http as_http with_protocol
no_input = refl

no_scheme : socket_url page (text " 10.0.0.2:8080/ ") ≡ text "wss://10.0.0.2:8080/ws"
unfolding socket_url normalize_http_base http_to_ws trim trim_end after_any_case after_prefix
    is_http as_http with_protocol
no_scheme = refl

capital_http : socket_url page (text "HTTP://car/") ≡ text "ws://car/ws"
unfolding socket_url normalize_http_base http_to_ws trim trim_end after_any_case after_prefix
    is_http as_http with_protocol
capital_http = refl

socket_url_lem_example :
    (socket_url page (text "ws://" ++ server) ≡ text "ws://" ++ bare server ++ text "/ws")
    × (socket_url page (text "http://" ++ server) ≡ text "ws://" ++ bare server ++ text "/ws")
    × (socket_url page (text "wss://" ++ server) ≡ text "wss://" ++ bare server ++ text "/ws")
    × (socket_url page (text "https://" ++ server) ≡ text "wss://" ++ bare server ++ text "/ws")
unfolding bare trim_end
socket_url_lem_example = socket_url_lem page server refl
