-- ===== src/Mobile/Address.antt =====
-- mobile/src/config.js: the addresses of the server. A text is the list of its code units.
pub mod Schemes
mod Tests
use Prim.Native.Char.{code}
use Prim.Native.String
use web_dashboard.Prelude.{
  ℕ, ◌-◌, ◌≡◌, refl, Bool, true, false, not, Option, none, some, String, List, [], ◌∷◌, ◌++◌, ◌&&◌,
  ◌||◌, ◌==◌, leb, if◌then◌else◌, is_some, length, drop,
}

abbrev pub Text : Type 0
Text = List ℕ

-- The code units of a text below U+10000.
abbrev pub text : String → Text
text String.[] = []
text (String.◌∷◌ c s) = code c ∷ text s

abbrev pub is_empty : Text → Bool
is_empty [] = true
is_empty (c ∷ s) = false

abbrev pub between : ℕ → ℕ → ℕ → Bool
between low high c = leb low c && leb c high

-- What `trim` removes: the white space and the line ends of JavaScript.
abbrev pub is_space : ℕ → Bool
is_space c =
    between 9 13 c
    || c == 32
    || c == 160
    || c == 5760
    || between 8192 8202 c
    || c == 8232
    || c == 8233
    || c == 8239
    || c == 8287
    || c == 12288
    || c == 65279

abbrev pub is_slash : ℕ → Bool
is_slash c = c == 47

-- `[a-z]` with the flag `i`.
abbrev pub is_letter : ℕ → Bool
is_letter c = between 97 122 c || between 65 90 c

abbrev pub skip : (ℕ → Bool) → Text → Text
skip p [] = []
skip p (c ∷ s) = let rest = skip p s in if p c then rest else c ∷ s

-- Without the longest end that consists of `p`.
unfoldable pub trim_end : (ℕ → Bool) → Text → Text
trim_end p [] = []
trim_end p (c ∷ s) = let rest = trim_end p s in if p c && is_empty rest then [] else c ∷ rest

unfoldable pub trim : Text → Text
unfolding trim_end
trim s = trim_end is_space (skip is_space s)

-- What follows a prefix.
unfoldable pub after_prefix : Text → Text → Option Text
after_prefix [] s = some s
after_prefix (c ∷ p) [] = none
after_prefix (c ∷ p) (d ∷ s) = let rest = after_prefix p s in if c == d then rest else none

abbrev pub starts_with : Text → Text → Bool
starts_with p s = is_some (after_prefix p s)

abbrev pub text_eq : Text → Text → Bool
text_eq [] [] = true
text_eq [] (d ∷ t) = false
text_eq (c ∷ s) [] = false
text_eq (c ∷ s) (d ∷ t) = c == d && text_eq s t

abbrev pub ends_with : Text → Text → Bool
ends_with e s = text_eq (drop (length s - length e) s) e

abbrev pub starts_with_letter : Text → Bool
starts_with_letter [] = false
starts_with_letter (c ∷ s) = is_letter c

-- The expression `/^[a-z]+:\/\//i`.
unfoldable pub has_scheme : Text → Bool
unfolding after_prefix
has_scheme s = starts_with_letter s && starts_with (text "://") (skip is_letter s)

abbrev pub default_server_base_url : Text
default_server_base_url = text "http://127.0.0.1:8080"

abbrev pub with_scheme : Text → Text
with_scheme value = if has_scheme value then value else text "http://" ++ value

-- `normalizeBaseUrl`; the empty text stands for a missing one too.
unfoldable pub normalize_base_url : Text → Text
unfolding trim has_scheme trim_end
normalize_base_url raw =
    if is_empty raw || is_empty (trim raw)
    then default_server_base_url
    else trim_end is_slash (with_scheme (trim raw))

abbrev pub secure_or_plain : Option Text → Text → Text
secure_or_plain none normalized = text "ws://" ++ drop 7 normalized ++ text "/ws"
secure_or_plain (some rest) normalized = text "wss://" ++ rest ++ text "/ws"

-- The cases of `toWsUrl` on a normalized address; 7 is the length of `http://`.
unfoldable pub ws_url_of : Text → Text
unfolding after_prefix
ws_url_of normalized =
    if starts_with (text "ws://") normalized || starts_with (text "wss://") normalized
    then (if ends_with (text "/ws") normalized then normalized else normalized ++ text "/ws")
    else secure_or_plain (after_prefix (text "https://") normalized) normalized

unfoldable pub to_ws_url : Text → Text
to_ws_url base = ws_url_of (normalize_base_url base)
