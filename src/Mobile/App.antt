-- ===== src/Mobile/App.antt =====
-- mobile/src/App.js: how a GPS fix reaches the server, at once or through the queue.
pub mod Uplink
pub mod Outage
pub mod Accounts
pub mod History
mod Tests
use text.Mathlib.Text.{◌==◌ as str_eq}
use web_dashboard.Prelude.{
  ℕ, Bool, true, false, Option, none, some, String, List, [], ◌∷◌, length, ◌||◌, not, if◌then◌else◌,
}
use web_dashboard.Mobile.Protocol.{
  Fix, MetaInput, Payload, app_version, create_gps_payload, create_mark_payload, stamp_queued,
}
use web_dashboard.Mobile.Queue.{
  Queue, Codec, Storage, Reply, accepted, declined, Report, init, enqueue, drain, settle, flush,
}
use web_dashboard.Mobile.WsClient
use web_dashboard.Mobile.WsClient.{State, is_open_now, send_json, handle}

-- `Platform` of react-native: its `OS`, and the two fields of `constants`.
pub record Platform : Type 0 where
  pub os : Option String
  pub model : Option String
  pub brand : Option String

-- The refs and the state variables of `App` that the uplink uses.
pub record App {ℓ ℓ'} (N : Type ℓ) (S : Type ℓ') : Type (ℓ ⊔ ℓ') where
  pub ws : State N
  pub queue : Queue (Payload N)
  pub store : S
  pub flushing : Bool
  pub queue_depth : ℕ
  pub app_state : String
  pub platform : Platform

-- `inferOsName`.
unfoldable pub infer_os_name : Option String → String
infer_os_name none = "Unknown"
infer_os_name (some os) =
    if str_eq os "ios" then "iOS" else if str_eq os "android" then "Android" else os

-- `a || b` on texts that may be missing.
abbrev pub first_of_two : Option String → Option String → Option String
first_of_two none b = b
first_of_two (some a) b = if str_eq a "" then b else some a

unfoldable pub build_meta : String → Platform → MetaInput
unfolding infer_os_name
build_meta app_state platform = record {
  bg_state = some (if str_eq app_state "active" then "foreground" else "background");
  os = some (infer_os_name platform.os);
  app_version = some app_version;
  device = some (elim (first_of_two platform.model (first_of_two platform.brand none)) [
    | none ↦ "unknown"
    | some name ↦ name
  ]);
}

module _ {ℓ} {N : Type ℓ} where
  -- The `sendFn` that the app gives to `flush`.
  unfoldable pub send_queued : State N → Payload N → State N × Reply
  send_queued ws payload =
      let (ws', sent) = send_json payload ws in (ws', if sent then accepted else declined)

module _ {ℓ ℓ'} {N : Type ℓ} {S : Type ℓ'} where
  unfoldable pub send_mark : String → ℕ → App N S → App N S
  send_mark note now a = record a { ws = (send_json (create_mark_payload note now) a.ws).0 }

module _ {ℓ ℓ'} {N : Type ℓ} {S : Type ℓ'} (codec : Codec (Payload N)) (storage : Storage S) where
  abbrev pub new_depth : Option Report → ℕ → ℕ
  new_depth none depth = depth
  new_depth (some r) depth = r.remaining

  -- `flushingRef` is set and cleared within the call.
  unfoldable pub flush_queued_gps : App N S → App N S
  flush_queued_gps a =
      let f = flush codec storage send_queued a.queue a.store a.ws 200 in
      if a.flushing || not (is_open_now a.ws) then a else record a {
        ws = f.world;
        queue = f.queue;
        store = f.store;
        flushing = false;
        queue_depth = new_depth f.result a.queue_depth;
      }

  -- `now` and `later` are the times at which the payload is made and stamped.
  unfoldable pub send_gps_uplink : Fix N → ℕ → ℕ → App N S → App N S
  send_gps_uplink fix now later a =
      let payload = create_gps_payload fix (some (build_meta a.app_state a.platform)) now in
      let (ws', sent) = send_json payload a.ws in
      let (queue', store') = enqueue codec storage a.queue a.store (stamp_queued payload later) in
      if sent
      then flush_queued_gps (record a { ws = ws' })
      else record a { ws = ws'; queue = queue'; store = store'; queue_depth = length queue'.items }

  -- The effect of the first render.
  unfoldable pub mount : App N S → App N S
  mount a =
      let queue' = init codec storage a.queue a.store in
      record a { queue = queue'; queue_depth = length queue'.items }

  -- The effect that runs when the connection state has become `connected`.
  unfoldable pub on_connected : App N S → App N S
  on_connected a = flush_queued_gps a

-- What happens to the app: a fix from the watch, the MARK button, the effect of a new connection
-- state, and a call or an event of its socket. The app sends by the first two alone.
pub data AppEvent {ℓ} (N : Type ℓ) : Type ℓ where
  fixes : Fix N → ℕ → ℕ → AppEvent N
  marks : String → ℕ → AppEvent N
  connected : AppEvent N
  net : WsClient.Event N → AppEvent N

module _ {ℓ ℓ'} {N : Type ℓ} {S : Type ℓ'} (codec : Codec (Payload N)) (storage : Storage S) where
  unfoldable pub app_step : AppEvent N → App N S → App N S
  app_step (fixes fix now later) a = send_gps_uplink codec storage fix now later a
  app_step (marks note now) a = send_mark note now a
  app_step connected a = on_connected codec storage a
  app_step (net e) a = record a { ws = handle e a.ws }

  unfoldable pub app_run : List (AppEvent N) → App N S → App N S
  app_run [] a = a
  app_run (e ∷ es) a = app_run es (app_step e a)
