-- ===== src/Relay/Routes.antt =====
-- src/relay/requestRouter.js and src/relay/legacyProxy.js: where a request to the Worker goes, and
-- which requests the old address passes on. The parts of a URL stand in the request; whether the
-- address of the relay is a URL, its protocol and its host are arguments.
pub mod Forwarding
use granttap_relay.Prelude.{
  Bool, true, false, not, ◌&&◌, ◌||◌, List, [], ◌∷◌, ℕ, Option, none, some, if◌then◌else◌, any,
  drop, Text, codes, text_eq, starts_with, is_hex_text,
}
use granttap_relay.Relay.Json.{Json, string}
use granttap_relay.Relay.Validation.{valid_room, accepts_web_socket_path}

pub record Request : Type 0 where
  pub method : Text
  -- Whether it goes over HTTPS.
  pub https : Bool
  pub host : Text
  pub path : Text
  pub room : Json
  -- Whether the `Upgrade` header names `websocket`.
  pub websocket : Bool

pub data Routed : Type 0 where
  health : Routed
  to_code : Text → Routed
  to_room : Text → Routed
  refused : ℕ → Routed

-- `/^\\/pair\\/[a-f0-9]{32}$/`
unfoldable pub is_pairing_path : Text → Bool
unfolding starts_with is_hex_text
is_pairing_path path = starts_with (codes "/pair/") path && is_hex_text 32 32 (drop 6 path)

abbrev pub is_push_path : Text → Bool
is_push_path path =
    any (text_eq path) (codes "/push/register" ∷ codes "/push/status" ∷ codes "/endpoint" ∷ [])
    || starts_with (codes "/push/activity/") path

abbrev pub is_task_path : Text → Bool
is_task_path path =
    text_eq path (codes "/task-jobs")
    || any (λ prefix. starts_with prefix path)
        (codes "/task-jobs/"
          ∷ codes "/task-job-writers/"
          ∷ codes "/task-resources/"
          ∷ codes "/task-job-configurations/"
          ∷ [])

abbrev text_of : Json → Text
text_of (string s) = s
text_of _ = []

-- The bindings of the Worker
module _ (has_codes has_rooms : Bool) where
  abbrev route_room : Json → Routed
  route_room room =
      if not (valid_room room)
      then refused 400
      else if has_rooms
      then to_room (text_of room)
      else refused 503

  unfoldable pub route_request : Request → Routed
  unfolding is_pairing_path text_eq any starts_with valid_room
  route_request r =
      if text_eq r.path (codes "/health")
      then health
      else if is_pairing_path r.path
      then (if has_codes then to_code (drop 6 r.path) else refused 503)
      else if is_push_path r.path || is_task_path r.path || r.websocket
      then route_room r.room
      else refused 404

unfoldable pub allowed_request : Request → Bool
unfolding is_pairing_path text_eq any starts_with valid_room accepts_web_socket_path
allowed_request r =
    if text_eq r.path (codes "/health")
    then text_eq r.method (codes "GET")
    else if is_pairing_path r.path
    then text_eq r.method (codes "GET")
      || text_eq r.method (codes "PUT")
      || text_eq r.method (codes "POST")
    else if is_push_path r.path
    then valid_room r.room
    else accepts_web_socket_path r.path && r.websocket && valid_room r.room

pub record Upstream : Type 0 where
  pub https : Bool
  pub host : Text

pub data Proxied : Type 0 where
  declined : ℕ → Proxied
  -- The request that is sent.
  fetched : Request → Proxied

-- `none` is an address that is no URL.
unfoldable pub proxy_legacy_request : Request → Option Upstream → Proxied
unfolding allowed_request text_eq
proxy_legacy_request r upstream = if not (allowed_request r) then declined 404 else elim upstream [
  | none ↦ declined 503
  | some u ↦
      if not u.https || text_eq u.host r.host
      then declined 503
      else fetched (record r { https = u.https; host = u.host })
]
