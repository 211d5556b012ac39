-- ===== src/Wire.antt =====
-- The JSON messages that the server sends to its clients, as far as the clients look at them. A field
-- is `none` where the code finds it missing or of no use: an absent or falsy object, a number that
-- `Number.isFinite` rejects, a `type` that is no text. Counters are whole numbers; `t` is in
-- milliseconds; `N` is the type of the finite numbers that a signal carries.
use web_dashboard.Prelude.{ℕ, Bool, Option, String, is_some, ◌&&◌}

-- `frame.status`.
pub record Status : Type 0 where
  pub seq : Option ℕ
  pub drop : Option ℕ

-- A truthy payload.
pub record Message {ℓ} (N : Type ℓ) : Type ℓ where
  pub kind : Option String
  pub t_ms : Option ℕ
  pub sig : Option (String → Option N)
  pub status : Option Status

-- What a decoder made of the text: `none` where it threw, `some none` for a falsy value.
abbrev pub Decoded {ℓ} : Type ℓ → Type ℓ
Decoded N = Option (Option (Message N))

-- `payload.sig && payload.status`.
abbrev pub is_frame {ℓ} : {N : Type ℓ} → Message N → Bool
is_frame m = is_some m.sig && is_some m.status
