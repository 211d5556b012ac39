-- ===== src/Mobile/Protocol.antt =====
-- mobile/src/telemetry/protocol.js: the payloads that the phone sends. Times are whole milliseconds,
-- where the code divides `Date.now()` by 1000; `N` is the type of the numbers in a fix.
use text.Mathlib.Text.{◌==◌ as str_eq}
use web_dashboard.Prelude.{ℕ, Option, none, some, String, if◌then◌else◌}

pub record Fix {ℓ} (N : Type ℓ) : Type ℓ where
  pub lat : N
  pub lon : N
  pub spd : N
  pub hdg : Option N
  pub acc : Option N
  pub alt : Option N

-- The `meta` argument; a field that is missing is `none`.
pub record MetaInput : Type 0 where
  pub bg_state : Option String
  pub os : Option String
  pub app_version : Option String
  pub device : Option String

pub record Meta : Type 0 where
  pub source : String
  pub bg_state : String
  pub os : String
  pub app_ver : String
  pub device : String

pub data Body {ℓ} (N : Type ℓ) : Type ℓ where
  ping : Body N
  gps : Fix N → Meta → Body N
  mark : String → Body N

pub record Payload {ℓ} (N : Type ℓ) : Type ℓ where
  pub v : ℕ
  pub t_ms : ℕ
  pub body : Body N
  pub queued_at_ms : Option ℕ

abbrev pub app_version : String
app_version = "rn-bare-v0.1"

-- `value || fallback` on a text.
abbrev pub or_else : Option String → String → String
or_else none fallback = fallback
or_else (some value) fallback = if str_eq value "" then fallback else value

-- `meta?.field`.
abbrev pub meta_field : (MetaInput → Option String) → Option MetaInput → Option String
meta_field field none = none
meta_field field (some meta) = field meta

module _ {ℓ} {N : Type ℓ} where
  unfoldable pub create_ping_payload : ℕ → Payload N
  create_ping_payload now = record { v = 1; t_ms = now; body = ping; queued_at_ms = none }

  unfoldable pub create_gps_payload : Fix N → Option MetaInput → ℕ → Payload N
  create_gps_payload fix meta now =
      let field = λ (f : MetaInput → Option String) (fallback : String).
        or_else (meta_field f meta) fallback in
      record {
        v = 1;
        t_ms = now;
        body = gps fix (record {
          source = "mobile";
          bg_state = field (λ m. m.bg_state) "foreground";
          os = field (λ m. m.os) "Unknown";
          app_ver = field (λ m. m.app_version) app_version;
          device = field (λ m. m.device) "unknown";
        });
        queued_at_ms = none;
      }

  unfoldable pub create_mark_payload : String → ℕ → Payload N
  create_mark_payload note now = record { v = 1; t_ms = now; body = mark note; queued_at_ms = none }

  -- Only `queued_at` changes.
  unfoldable pub stamp_queued : Payload N → ℕ → Payload N
  stamp_queued payload now = record payload { queued_at_ms = some now }
