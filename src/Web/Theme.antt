-- ===== src/Web/Theme.antt =====
-- client/app.js: the day and night themes, and the browser's storage that remembers the choice.
pub mod Reload
mod Tests
use text.Mathlib.Text.{◌==◌ as str_eq}
use web_dashboard.Prelude.{
  ℕ, zero, suc, Bool, true, false, Option, none, some, String, if◌then◌else◌,
}

pub data Theme : Type 0 where
  day night : Theme

abbrev pub theme_storage_key : String
theme_storage_key = "telemetry-theme"

-- The text that stands for a theme.
abbrev pub name : Theme → String
name day = "day"
name night = "night"

-- `x === "day" ? "day" : "night"`, of a text that may be missing.
unfoldable pub theme_of : Option String → Theme
theme_of none = night
theme_of (some stored) = if str_eq stored "day" then day else night

-- `localStorage` over its contents `S`: `none` is a method that throws.
pub record LocalStorage (S : Type 0) : Type 0 where
  pub get_item : S → String → Option (Option String)
  pub set_item : S → String → String → Option S

unfoldable pub or_night : Option (Option String) → Theme
unfolding theme_of
or_night none = night
or_night (some stored) = theme_of stored

abbrev pub or_before {ℓ} : {A : Type ℓ} → Option A → A → A
or_before none before = before
or_before (some after) before = after

-- What the document shows: its `data-theme`, the label of the button, and the `theme-color`.
pub record Document : Type 0 where
  pub data_theme : String
  pub theme_btn : String
  pub theme_color : String

abbrev pub label : Theme → String
label day = "Theme: Day"
label night = "Theme: Night"

abbrev pub color : Theme → String
color day = "#e8eef5"
color night = "#0f1720"

abbrev pub shows : Theme → Document
shows theme = record { data_theme = name theme; theme_btn = label theme; theme_color = color theme }

-- The click's `currentTheme === "day" ? "night" : "day"`.
abbrev pub other : Theme → Theme
other day = night
other night = day

pub record Page (S : Type 0) : Type 0 where
  pub store : S
  pub current : Theme
  pub document : Document

module _ {S : Type 0} (storage : LocalStorage S) where
  unfoldable pub read_stored_theme : S → Theme
  read_stored_theme s = or_night (storage.get_item s theme_storage_key)

  unfoldable pub write_stored_theme : Theme → S → S
  write_stored_theme theme s = or_before (storage.set_item s theme_storage_key (name theme)) s

  unfoldable pub apply_theme : Theme → Page S → Page S
  unfolding write_stored_theme
  apply_theme theme p = record p {
    store = write_stored_theme theme p.store;
    document = shows theme;
  }

  -- The page is loaded over the storage and the document of before.
  unfoldable pub load : S → Document → Page S
  unfolding read_stored_theme apply_theme
  load s document =
      let theme = read_stored_theme s in
      apply_theme theme (record { store = s; current = theme; document = document })

  -- The click on the theme's button.
  unfoldable pub click : Page S → Page S
  unfolding apply_theme
  click p = apply_theme (other p.current) (record p { current = other p.current })

  unfoldable pub clicks : ℕ → Page S → Page S
  unfolding click
  clicks zero p = p
  clicks (suc n) p = clicks n (click p)
