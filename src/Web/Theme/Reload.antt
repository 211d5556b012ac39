-- ===== src/Web/Theme/Reload.antt =====
-- client/app.js: the theme that is shown, and the one that a reload finds.
use web_dashboard.Prelude.{ℕ, zero, suc, ◌≡◌, refl, ap, ◌∙◌, none, some, String}
use web_dashboard.Web.Theme.{
  Theme, day, night, name, theme_of, theme_storage_key, LocalStorage, or_night, or_before, Document,
  shows, other, Page, read_stored_theme, write_stored_theme, apply_theme, load, click, clicks,
}

-- The theme `n` clicks after `t`.
abbrev pub after : ℕ → Theme → Theme
after zero t = t
after (suc n) t = after n (other t)

theme_of-name : (t : Theme) → theme_of (some (name t)) ≡ t
unfolding theme_of
theme_of-name day = refl
theme_of-name night = refl

module _ {S : Type 0} (storage : LocalStorage S) where
  -- A write is read again, in a storage that can be written.
  pub record Works : Type 0 where
    pub writes :
        (s : S) (key value : String)
        → (s' : S) × (storage.set_item s key value ≡ some s')
          × (storage.get_item s' key ≡ some (some value))

  write_read :
      (w : Works) (t : Theme) (s : S)
      → read_stored_theme storage (write_stored_theme storage t s) ≡ t
  unfolding read_stored_theme write_stored_theme or_night theme_of
  write_read w t s =
      let (s', written, read) = w.writes s theme_storage_key (name t) in
      ap (λ o. or_night (storage.get_item (or_before o s) theme_storage_key)) written
      ∙ ap or_night read
      ∙ theme_of-name t

  -- The document shows the page's theme, and the storage holds it.
  record Sound (t : Theme) (p : Page S) : Type 0 where
    current : p.current ≡ t
    shown : p.document ≡ shows t
    stored : read_stored_theme storage p.store ≡ t

  click-Sound : (w : Works) (t : Theme) (p : Page S) → Sound t p → Sound (other t) (click storage p)
  unfolding click apply_theme
  click-Sound w t p h = record {
    current = ap other h.current;
    shown = ap (λ c. shows (other c)) h.current;
    stored = write_read w (other p.current) p.store ∙ ap other h.current;
  }

  clicks-Sound :
      (w : Works) (n : ℕ) (t : Theme) (p : Page S)
      → Sound t p
      → Sound (after n t) (clicks storage n p)
  unfolding clicks
  clicks-Sound w zero t p h = h
  clicks-Sound w (suc n) t p h = clicks-Sound w n (other t) (click storage p) (click-Sound w t p h)

  load-Sound :
      (w : Works) (s : S) (d : Document) → Sound (read_stored_theme storage s) (load storage s d)
  unfolding load apply_theme
  load-Sound w s d =
      let t = read_stored_theme storage s in
      record { current = refl; shown = refl; stored = write_read w t s }

  -- With a storage that keeps what is written: after `n` clicks the page shows the theme that it
  -- was loaded with, switched `n` times, and a reload shows the same.
  pub clicks-reload :
      (w : Works) (n : ℕ) (s : S) (d : Document)
      → let p = clicks storage n (load storage s d) in
        let t = after n (read_stored_theme storage s) in
        (p.document ≡ shows t) × ((load storage p.store p.document).document ≡ shows t)
  unfolding load apply_theme
  clicks-reload w n s d =
      let t = read_stored_theme storage s in
      let h = clicks-Sound w n t (load storage s d) (load-Sound w s d) in
      (h.shown, ap shows h.stored)

  -- The document shows the page's theme, whatever the storage does.
  record Shown (t : Theme) (p : Page S) : Type 0 where
    current : p.current ≡ t
    shown : p.document ≡ shows t

  clicks-Shown :
      (n : ℕ) (t : Theme) (p : Page S) → Shown t p → Shown (after n t) (clicks storage n p)
  unfolding clicks click apply_theme
  clicks-Shown zero t p h = h
  clicks-Shown (suc n) t p h =
      clicks-Shown n (other t) (click storage p)
        (record { current = ap other h.current; shown = ap (λ c. shows (other c)) h.current })

  -- With a storage that throws when it is read, the page is loaded with the night theme, each of `n`
  -- clicks still switches what it shows, and a reload shows the night theme again.
  pub clicks_unstored :
      (n : ℕ) (s : S) (d : Document)
      → ((s' : S) (key : String) → storage.get_item s' key ≡ none)
      → let p = clicks storage n (load storage s d) in
        (p.document ≡ shows (after n night))
        × ((load storage p.store p.document).document ≡ shows night)
  unfolding load apply_theme read_stored_theme or_night
  clicks_unstored n s d throws =
      let p = clicks storage n (load storage s d) in
      let night_read = ap or_night (throws s theme_storage_key) in
      (
        (clicks-Shown n night (load storage s d)
            (record { current = night_read; shown = ap shows night_read })).shown,
        ap (λ o. shows (or_night o)) (throws p.store theme_storage_key),
      )
