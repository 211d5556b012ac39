-- ===== src/Web/Theme/Tests.antt =====
-- Themes of client/app.js over a storage with one item, and over one that throws.
use text.Mathlib.Text.{◌==◌ as str_eq}
use web_dashboard.Prelude.{◌≡◌, refl, Option, none, some, String, if◌then◌else◌, str_eq_refl, ap}
use web_dashboard.Web.Theme.{
  LocalStorage, Document, shows, day, load, click, clicks, read_stored_theme, theme_of, or_night,
  write_stored_theme, apply_theme,
}
use web_dashboard.Web.Theme.Reload.{Works, after, clicks-reload}

-- The items, as a function of the key.
abbrev Items : Type 0
Items = String → Option String

abbrev storage : LocalStorage Items
storage = record {
  get_item = λ s key. some (s key);
  set_item = λ s key value. some (λ k. if str_eq k key then some value else s k);
}

storage-Works : Works storage
storage-Works = record {
  writes = λ s key value. (
    λ k. if str_eq k key then some value else s k,
    refl,
    ap (λ b. some (if b then some value else s key)) (str_eq_refl key),
  );
}

abbrev private_mode : LocalStorage Items
private_mode = record { get_item = λ s key. none; set_item = λ s key value. none }

abbrev nothing_yet : Items
nothing_yet = λ key. none

abbrev unstyled : Document
unstyled = record { data_theme = ""; theme_btn = ""; theme_color = "" }

three_clicks : (clicks storage 3 (load storage nothing_yet unstyled)).document ≡ shows day
unfolding clicks click load read_stored_theme or_night theme_of write_stored_theme apply_theme
three_clicks = refl

clicks-reload_example :
    let p = clicks storage 3 (load storage nothing_yet unstyled) in
    let t = after 3 (read_stored_theme storage nothing_yet) in
    (p.document ≡ shows t) × ((load storage p.store p.document).document ≡ shows t)
clicks-reload_example = clicks-reload storage storage-Works 3 nothing_yet unstyled
