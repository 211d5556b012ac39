-- ===== src/Mobile/Gps/Fixes.antt =====
-- mobile/src/telemetry/gps-client.js: the permissions it asks for, and the fixes it hands on.
use web_dashboard.Prelude.{
  ◌≡◌, refl, Bool, true, false, Option, none, some, List, [], ◌∷◌, ◌&&◌, arith,
}
use web_dashboard.Mobile.Protocol.{Fix}
use web_dashboard.Mobile.Gps.{Device, Permission, request_location_permission, or_default}
use web_dashboard.Mobile.Gps.Readings.{BridgeData, Coords, watch_fix, normalize_bridge_fix, natural}

pub all_granted : (Permission → Bool) → List Permission → Bool
all_granted answer [] = true
all_granted answer (p ∷ ps) = answer p && all_granted answer ps

-- `requestLocationPermission` returns true exactly when the user grants every permission that it asks
-- for.
pub permission_granted :
    (d : Device) (android_background : Bool) (answer : Permission → Bool)
    → let r = request_location_permission d android_background answer in
      r.1 ≡ all_granted answer r.0
unfolding request_location_permission all_granted
permission_granted d b answer = ground arith

module _ {ℓ} {N : Type ℓ} (zero_N : N) (is_negative : N → Bool) where
  unfoldable pub Unsigned : Option N → Type 0
  Unsigned none = Unit
  Unsigned (some x) = is_negative x ≡ false

  natural_lem : (x : Option N) → Unsigned (natural zero_N is_negative x)
  unfolding Unsigned
  natural_lem none = tt
  natural_lem (some x) = ground arith

  natural_same : (x : Option N) → Unsigned x → natural zero_N is_negative x ≡ x
  unfolding Unsigned
  natural_same none h = refl
  natural_same (some x) h = ground arith

  natural_default :
      (x : Option N)
      → is_negative zero_N ≡ false
      → is_negative (or_default (natural zero_N is_negative x) zero_N) ≡ false
  natural_default none h = h
  natural_default (some x) h = ground arith

  -- The readings of the watch as a bridge reports them.
  abbrev pub as_data : Coords N → BridgeData N
  as_data c = record {
    latitude = some c.latitude;
    longitude = some c.longitude;
    speed = c.speed;
    heading = c.heading;
    accuracy = c.accuracy;
    altitude = c.altitude;
  }

  -- From readings whose speed and heading are not negative, a bridge and the watch make the same fix.
  pub bridge_as_watch :
      (c : Coords N)
      → Unsigned c.speed
      → Unsigned c.heading
      → normalize_bridge_fix zero_N is_negative (as_data c) ≡ some (watch_fix zero_N is_negative c)
  unfolding normalize_bridge_fix watch_fix
  bridge_as_watch c speed heading =
      let s = natural_same c.speed speed in let h = natural_same c.heading heading in rw (s, h) refl

  -- No fix of a bridge has a negative speed or heading, zero not being negative.
  pub bridge_fix-Unsigned :
      (b : BridgeData N) (f : Fix N)
      → is_negative zero_N ≡ false
      → normalize_bridge_fix zero_N is_negative b ≡ some f
      → (is_negative f.spd ≡ false) × Unsigned f.hdg
  unfolding normalize_bridge_fix
  bridge_fix-Unsigned b f h made =
      let s = natural_default b.speed h in
      let d = natural_lem b.heading in (ground (arith, s), ground (arith, d))
