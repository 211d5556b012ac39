-- ===== src/Web/Roadview/Detail.antt =====
-- client/naver-roadview.js: the text that an error response gives for its reason. A text is the list
-- of its code units; what is no text, or not there, is `none`.
use web_dashboard.Prelude.{◌≡◌, refl, Option, none, some, [], if◌then◌else◌}
use web_dashboard.Mobile.Address.{Text, text, is_empty, trim, trim_end}

-- `payload.detail`, and the `message` of `payload.status` and of `payload.error`.
pub record ErrorPayload : Type 0 where
  pub detail : Option Text
  pub status_message : Option Text
  pub error_message : Option Text

-- `typeof value === "string" && value.trim()`: the trimmed text, or the empty one.
abbrev pub trimmed : Option Text → Text
trimmed none = []
trimmed (some t) = trim t

-- `extractErrorDetail`.
unfoldable pub extract_error_detail : Option ErrorPayload → Text
extract_error_detail none = []
extract_error_detail (some p) =
    if is_empty (trimmed p.detail)
    then if is_empty (trimmed p.status_message)
      then if is_empty (trimmed p.error_message) then [] else trimmed p.error_message
      else trimmed p.status_message
    else trimmed p.detail

-- A blank detail is passed over.
blank_detail :
    extract_error_detail (
      some (record {
        detail = some (text "  ");
        status_message = some (text " quota ");
        error_message = none;
      }))
    ≡ text "quota"
unfolding extract_error_detail trim trim_end
blank_detail = refl
