-- ===== src/Web/Auth/Tests.antt =====
-- Console texts of client/naver-map.js.
use web_dashboard.Prelude.{◌≡◌, refl, true, false, none, some, List, [], ◌∷◌}
use web_dashboard.Mobile.Address.{text, after_prefix}
use web_dashboard.Web.Auth.{
  Argument, Window, includes, collapse, to_lower, has_failure_text, joined, Step, logs, updates,
}

abbrev failure : List Argument
failure = some (text "NAVER Maps  Open") ∷ some (text "API 인증 실패") ∷ none ∷ []

abbrev fresh_window : Window
fresh_window = record { auth_failed = false; message = []; probe_installed = true; console = [] }

finds : has_failure_text (joined failure) ≡ true
unfolding has_failure_text joined includes collapse to_lower after_prefix
finds = refl

passes_over : has_failure_text (text "Open API ready") ≡ false
unfolding has_failure_text includes collapse to_lower after_prefix
passes_over = refl

abbrev steps : List Step
steps = updates none false ∷ logs (none ∷ []) ∷ []
