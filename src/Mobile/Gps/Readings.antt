-- ===== src/Mobile/Gps/Readings.antt =====
-- mobile/src/telemetry/gps-client.js: the fixes made of what the watch and the bridges deliver.
use web_dashboard.Prelude.{Bool, Option, none, some, if◌then◌else◌}
use web_dashboard.Mobile.Protocol.{Fix}
use web_dashboard.Mobile.Gps.{or_default}

-- A value of the bridge's event after `Number`, `none` where it is not finite, and the fix made of it.
pub record BridgeData {ℓ} (N : Type ℓ) : Type ℓ where
  pub latitude : Option N
  pub longitude : Option N
  pub speed : Option N
  pub heading : Option N
  pub accuracy : Option N
  pub altitude : Option N

-- `coords` of the geolocation package; `none` is a value that is not finite.
pub record Coords {ℓ} (N : Type ℓ) : Type ℓ where
  pub latitude : N
  pub longitude : N
  pub speed : Option N
  pub heading : Option N
  pub accuracy : Option N
  pub altitude : Option N

module _ {ℓ} {N : Type ℓ} (zero_N : N) (is_negative : N → Bool) where
  -- `Number.isFinite(x) && x >= 0 ? x : null`.
  abbrev pub natural : Option N → Option N
  natural none = none
  natural (some x) = if is_negative x then none else some x

  -- The fix that the watch hands on.
  unfoldable pub watch_fix : Coords N → Fix N
  watch_fix c = record {
    lat = c.latitude;
    lon = c.longitude;
    spd = or_default c.speed zero_N;
    hdg = c.heading;
    acc = c.accuracy;
    alt = c.altitude;
  }

  unfoldable pub normalize_bridge_fix : BridgeData N → Option (Fix N)
  normalize_bridge_fix b = elim b.latitude [
    | none ↦ none
    | some lat ↦ elim b.longitude [
      | none ↦ none
      | some lon ↦ some (record {
        lat = lat;
        lon = lon;
        spd = or_default (natural b.speed) zero_N;
        hdg = natural b.heading;
        acc = b.accuracy;
        alt = b.altitude;
      })
    ]
  ]
