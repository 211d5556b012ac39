-- ===== src/Web/Panel.antt =====
-- client/ui.js: what updateConnection, updateGauges and updateGps write, before numbers are made texts
-- with a number of digits. The numbers of a signal are whole numbers of some unit.
use web_dashboard.Prelude.{ℕ, ◌-◌, Option, none, some, String, List, [], ◌∷◌, if◌then◌else◌, ℤ, pos}
use web_dashboard.Wire.{Message}
use web_dashboard.Web.Blend.{Fix}
use web_dashboard.Web.Charts.{in_series}
use web_dashboard.Web.Gps.{View}
use web_dashboard.Web.Page.{Page, Pill, pill, shown_drop}
use web_dashboard.Web.Page.Counting.{frame_seq}

-- What `updateGps` writes: the text and the class of the state, the fix and its age, and the angle of
-- the arrow.
pub record Panel : Type 0 where
  pub state : String × String
  pub shown : Option Fix
  pub age_ms : Option ℕ
  pub arrow : ℤ

-- What `updateConnection` writes; `none` is a dash.
pub record Connection : Type 0 where
  pub pill : Pill
  pub frame_age_ms : Option ℕ
  pub seq : Option ℕ
  pub drop : ℕ
  pub rtt_ms : Option ℕ

-- The lines of `updateGps`.
abbrev pub arrow_to : Option ℤ → ℤ → ℤ
arrow_to none before = before
arrow_to (some hdg) before = hdg

abbrev pub update_gps_with : Option Fix → View → Panel → Panel
update_gps_with none view p = record {
  state = ("idle", "neutral");
  shown = none;
  age_ms = none;
  arrow = pos 0;
}
update_gps_with (some fix) view p = record {
  state = if view.stale then ("stale", "stale") else ("tracking", "connected");
  shown = some fix;
  age_ms = view.age_ms;
  arrow = arrow_to fix.hdg p.arrow;
}

unfoldable pub update_gps : View → Panel → Panel
update_gps view p = update_gps_with view.fix view p

abbrev pub frame_age : ℕ → Option ℕ → Option ℕ
frame_age now none = none
frame_age now (some received) = some (now - received)

abbrev pub seq_of : Option (Message ℤ) → Option ℕ
seq_of none = none
seq_of (some m) = frame_seq m

unfoldable pub update_connection : ℕ → Page ℤ → Connection
update_connection now p = record {
  pill = pill now p;
  frame_age_ms = frame_age now p.counters.last_frame_recv_ms;
  seq = seq_of p.counters.last_can_frame;
  drop = shown_drop p;
  rtt_ms = p.rtt_ms;
}

abbrev pub gauge_keys : List String
gauge_keys = "ws_fl" ∷ "ws_fr" ∷ "ws_rl" ∷ "ws_rr" ∷ "yaw" ∷ "ay" ∷ []

-- A value that is not finite is shown as a dash.
abbrev pub update_gauges : (String → Option ℤ) → (String → Option ℤ) → String → Option ℤ
update_gauges sig before key = if in_series key gauge_keys then sig key else before key
