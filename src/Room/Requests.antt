-- ===== src/Room/Requests.antt =====
-- src/relay/room.js: the room's credential, its push tokens and the upgrade of a socket, with
-- `coolingUpgradeResponse` of src/relay/roomSockets.js. The text of a bearer credential is an argument;
-- so are the digest, whether APNs is configured and what it answered for each token.
pub mod Credential
use granttap_relay.Prelude.{
  ℕ, ◌+◌, Bool, true, false, not, ◌&&◌, ◌||◌, List, [], ◌∷◌, ◌++◌, map, Option, none, some, ltb,
  leb, if◌then◌else◌, is_some, max, length, filter, any, all, take_last, Text, codes, text_eq,
  starts_with,
}
use granttap_relay.Relay.Json.{text_value, Json, array, string, nil, cons, get, is_text}
use granttap_relay.Relay.Support.{constant_time_equal}
use granttap_relay.Relay.CoolDown.{Registry, remaining, upgrade_identity}
use granttap_relay.Relay.Closing.{seconds}
use granttap_relay.Relay.Routing.{valid_recipient_key_id}
use granttap_relay.Relay.Validation.{valid_room, valid_room_credential, valid_device_token}
use granttap_relay.Sockets.Ingress.{ingress_capabilities}
use granttap_relay.Room.{Socket}

abbrev pub push_token_limit : ℕ
push_token_limit = 8

pub record Device : Type 0 where
  pub token : Text
  pub production : Bool
  pub updated_at : ℕ

-- `push:auth-sha256` and `push:tokens`
pub record Access : Type 0 where
  pub pinned : Option Text
  pub devices : List Device

abbrev to_lower : ℕ → ℕ
to_lower c = if leb b'A' c && leb c b'Z' then c + 32 else c

pub data Method : Type 0 where
  put_method post_method delete_method other_method : Method

pub data Reply : Type 0 where
  refused : ℕ → Reply
  -- Whether a device is registered, and how many there are.
  registered : Bool → ℕ → Reply
  counted : ℕ → Reply

abbrev has_token : Text → Device → Bool
has_token token device = text_eq device.token token

abbrev pub with_device : Device → List Device → List Device
with_device device devices =
    take_last push_token_limit (filter (λ d. not (has_token device.token d)) devices ++ device ∷ [])

module _ (sha256 : Text → Text) where
  -- The first credential is pinned; after that it is the only one. `true` is authorised.
  unfoldable pub require_room_auth : Text → Access → Access × Bool
  unfolding valid_room_credential constant_time_equal
  require_room_auth auth s =
      if not (valid_room_credential (string auth)) then (s, false) else elim s.pinned [
        | none ↦ (record s { pinned = some (sha256 auth) }, true)
        | some expected ↦ (s, constant_time_equal (sha256 auth) expected)
      ]

  unfoldable pub change_devices : Method → Device → Access → Access × Reply
  unfolding filter take_last
  change_devices other_method device s = (s, refused 405)
  change_devices delete_method device s =
      let devices = filter (λ d. not (has_token device.token d)) s.devices in
      (record s { devices = devices }, registered false (length devices))
  change_devices _ device s =
      let devices = with_device device s.devices in
      (record s { devices = devices }, registered true (length devices))

  abbrev device_of : Json → ℕ → Device
  device_of body now = record {
    token = map to_lower (text_value (get body (codes "token")));
    production = is_text (get body (codes "environment")) (codes "production");
    updated_at = now;
  }

  abbrev register_body : Method → Option Json → ℕ → Access → Access × Reply
  register_body method none now s = (s, refused 400)
  register_body method (some body) now s =
      if not (valid_device_token (device_of body now).token)
        || not (
            is_text (get body (codes "environment")) (codes "sandbox")
            || is_text (get body (codes "environment")) (codes "production"))
        || not (text_eq (text_value (get body (codes "bundleId"))) (codes "com.ziborov.granttap"))
      then (s, refused 400)
      else change_devices method (device_of body now) s

  -- `none` is a body that is not JSON or too long.
  unfoldable pub handle_push_registration :
      Text → Method → Option Json → ℕ → Access → Access × Reply
  unfolding require_room_auth change_devices valid_device_token text_value text_eq
  handle_push_registration auth method body now s =
      let (pinned, allowed) = require_room_auth auth s in
      if allowed then register_body method body now pinned else (pinned, refused 401)

  unfoldable pub handle_push_status : Text → Access → Reply
  unfolding valid_room_credential constant_time_equal
  handle_push_status auth s = elim s.pinned [
    | none ↦ refused 401
    | some expected ↦
        if valid_room_credential (string auth) && constant_time_equal (sha256 auth) expected
        then counted (length s.devices)
        else refused 401
  ]

pub data Push : Type 0 where
  accepted stale failed : Push

abbrev is_stale : Push → Bool
is_stale stale = true
is_stale _ = false

abbrev is_failed : Push → Bool
is_failed failed = true
is_failed _ = false

-- `sendWakePush`: whether all went well, and the devices that stay.
unfoldable pub send_wake_push : Bool → (Device → Push) → Access → Access × Bool
unfolding filter any
send_wake_push configured push s = if not configured then (s, true) else (
  record s {
    devices =
        filter
          (λ d.
            not (any (λ gone. has_token gone.token d) (filter (λ e. is_stale (push e)) s.devices)))
          s.devices;
  },
  not (any (λ d. is_failed (push d)) s.devices),
)

-- The headers of an upgrade.
pub record Upgrade : Type 0 where
  pub websocket : Bool
  pub room : Json
  pub recipient : Option Text
  pub routing : Bool
  pub ingress_flow : Bool
  pub presence : Bool
  pub task_dispatch : Bool

pub data Opened : Type 0 where
  rejected : ℕ → Opened
  cooling : ℕ → Opened
  -- The socket, and the frame window that its capabilities name, if it has any.
  opened : Socket → Option (Option ℕ) → Opened

abbrev text_of : Json → Text
text_of (string s) = s
text_of _ = []

abbrev valid_recipient : Option Text → Bool
valid_recipient none = true
valid_recipient (some key) = valid_recipient_key_id (string key)

abbrev new_socket : Upgrade → Socket
new_socket u = record {
  room = text_of u.room;
  recipient_key_id = u.recipient;
  role = none;
  relay_control = u.routing;
  presence_enabled = u.presence;
  task_dispatch = u.task_dispatch;
  ingress = record { ingress_flow = u.routing && u.ingress_flow; ingress_received = none };
  window = record { started_at = none; messages = 0 };
  identity = none;
}

abbrev open_after : Upgrade → Registry × ℕ → Registry × Opened
open_after u (registry, wait) = if ltb 0 wait then (registry, cooling (max 1 (seconds wait))) else (
  registry,
  opened (new_socket u)
      (if u.routing then some (ingress_capabilities (u.routing && u.ingress_flow)) else none),
)

module _ (sha256 : Text → Text) where
  unfoldable pub accept_web_socket :
      Text → Upgrade → ℕ → Access → Registry → Access × Registry × Opened
  unfolding require_room_auth valid_room valid_recipient_key_id remaining upgrade_identity
      ingress_capabilities
  accept_web_socket auth u now s r =
      if not u.websocket
      then (s, r, rejected 426)
      else if not (valid_room u.room)
      then (s, r, rejected 400)
      else (let (pinned, allowed) = require_room_auth sha256 auth s in
          if not allowed
          then (pinned, r, rejected 401)
          else if not (valid_recipient u.recipient)
          then (pinned, r, rejected 400)
          else (let after =
                open_after u
                  (remaining r (upgrade_identity (some (text_of u.room)) u.recipient) false now) in
              (pinned, after.0, after.1)))

-- `fetch`: which handler answers a path.
pub data Route : Type 0 where
  activities task_dispatch push_register push_status endpoint socket : Route

unfoldable pub route_of : Text → Route
unfolding starts_with text_eq any
route_of path =
    if starts_with (codes "/push/activity/") path
    then activities
    else if text_eq path (codes "/task-jobs")
        || any (λ prefix. starts_with prefix path)
            (codes "/task-jobs/"
              ∷ codes "/task-job-writers/"
              ∷ codes "/task-resources/"
              ∷ codes "/task-job-configurations/"
              ∷ [])
    then task_dispatch
    else if text_eq path (codes "/push/register")
    then push_register
    else if text_eq path (codes "/push/status")
    then push_status
    else if text_eq path (codes "/endpoint")
    then endpoint
    else socket
