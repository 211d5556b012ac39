-- ===== src/Web/Auth.antt =====
-- client/naver-map.js: how a failed authentication of the map service is found, in the texts of the
-- console and in the text of the map's container. A text is the list of its code units, and only
-- ASCII letters have two cases.

pub mod Latched
mod Tests
use web_dashboard.Prelude.{
  ℕ, Bool, true, false, not, Option, none, some, List, [], ◌∷◌, ◌++◌, ◌&&◌, ◌||◌, if◌then◌else◌,
}
use web_dashboard.Mobile.Address.{Text, text, is_space, starts_with, after_prefix, is_empty}
use web_dashboard.Web.Address.{lower}
use web_dashboard.Web.Geo.{GpsFix}
use web_dashboard.Web.Map.{NaverMap, Hint, auth_failure, fail_auth, update_from_fix}

-- `includes`.
unfoldable pub includes : Text → Text → Bool
unfolding after_prefix
includes [] part = starts_with part []
includes (c ∷ s) part = let further = includes s part in starts_with part (c ∷ s) || further

-- `.replace(/\s+/g, " ")`, after a character that is a space or not.
unfoldable pub collapse : Bool → Text → Text
collapse after_space [] = []
collapse after_space (c ∷ s) =
    let in_space = collapse true s in
    let in_word = collapse false s in
    if is_space c then (if after_space then in_space else 32 ∷ in_space) else c ∷ in_word

unfoldable pub to_lower : Text → Text
to_lower [] = []
to_lower (c ∷ s) = lower c ∷ to_lower s

unfoldable pub has_failure_text : Text → Bool
unfolding includes collapse to_lower
has_failure_text s =
    let normalized = to_lower (collapse false s) in
    (includes normalized (text "open api")
      && (includes normalized (text "설정 실패")
          || includes normalized (text "인증 실패")
          || includes normalized (text "인증이 실패")))
    || includes normalized (text "클라이언트 아이디와 웹 서비스 url")

-- An argument of `console.info` or `console.warn`: a text, or something else.
abbrev pub Argument : Type 0
Argument = Option Text

-- What the window and the console hold: `__naverAuthFailed` with its message, whether the probe is
-- installed, and the calls that the console itself has got.
pub record Window : Type 0 where
  pub auth_failed : Bool
  pub message : Text
  pub probe_installed : Bool
  pub console : List (List Argument)

unfoldable pub set_auth_failed : Text → Window → Window
set_auth_failed message w = record w {
  auth_failed = true;
  message = if is_empty message then w.message else message;
}

abbrev pub or_empty : Argument → Text
or_empty none = []
or_empty (some s) = s

-- `.map(…).join(" ")`.
unfoldable pub joined : List Argument → Text
joined [] = []
joined (a ∷ []) = or_empty a
joined (a ∷ b ∷ args) = or_empty a ++ 32 ∷ joined (b ∷ args)

unfoldable pub install_probe : Window → Window
install_probe w = if w.probe_installed then w else record w { probe_installed = true }

-- A call of `console.info` or `console.warn`, which go through the probe where it is installed.
unfoldable pub on_console : List Argument → Window → Window
unfolding has_failure_text set_auth_failed joined
on_console args w =
    let w' =
      if w.probe_installed && has_failure_text (joined args)
      then set_auth_failed (joined args) w
      else w in
    record w' { console = w'.console ++ args ∷ [] }

-- The interval of `_startAuthWatch`, with the text of the container.
unfoldable pub watch_auth : Text → Window → NaverMap → Window × NaverMap
unfolding has_failure_text set_auth_failed fail_auth
watch_auth content w m =
    if w.auth_failed
    then (w, fail_auth m)
    else if has_failure_text content
    then (set_auth_failed content w, fail_auth m)
    else (w, m)

-- What happens to the map and the console: a call of the console, the interval, a fix.
pub data Step : Type 0 where
  logs : List Argument → Step
  watches : Text → Step
  updates : Option GpsFix → Bool → Step

unfoldable pub step : Step → Window × NaverMap → Window × NaverMap
unfolding on_console watch_auth update_from_fix
step (logs args) (w, m) = (on_console args w, m)
step (watches content) (w, m) = watch_auth content w m
step (updates fix stale) (w, m) = (w, update_from_fix fix stale m)

unfoldable pub run : List Step → Window × NaverMap → Window × NaverMap
run [] s = s
run (e ∷ es) s = run es (step e s)
