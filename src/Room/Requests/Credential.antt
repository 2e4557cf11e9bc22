-- ===== src/Room/Requests/Credential.antt =====
-- src/relay/room.js: what a request without the room's pinned credential can do.
use granttap_relay.Prelude.{ℕ, Bool, true, false, not, ◌||◌, List, [], ◌∷◌, Option, Text, text_eq}
use granttap_relay.Relay.Json.{Json}
use granttap_relay.Relay.CoolDown.{Registry}
use granttap_relay.Room.Requests.{
  Method, Access, Reply, refused, registered, counted, require_room_auth, handle_push_registration,
  handle_push_status, Upgrade, Opened, rejected, cooling, opened, accept_web_socket,
}

-- The requests of a room: the registration of a push token, its status, the upgrade of a socket, and
-- any request of a handler that asks for the credential and does nothing with it.
pub data Request : Type 0 where
  registering : Text → Method → Option Json → ℕ → Request
  asking : Text → Request
  upgrading : Text → Upgrade → ℕ → Request
  entering : Text → Request

abbrev pub auth_of : Request → Text
auth_of (registering auth method body at) = auth
auth_of (asking auth) = auth
auth_of (upgrading auth u at) = auth
auth_of (entering auth) = auth

abbrev is_served : Reply → Bool
is_served (refused status) = false
is_served (registered present count) = true
is_served (counted count) = true

abbrev is_opened : Opened → Bool
is_opened (opened socket window) = true
is_opened (rejected status) = false
is_opened (cooling wait) = false

-- The credential with the push tokens, and the cool-downs
abbrev pub Guarded : Type 0
Guarded = Access × Registry

module _ (sha256 : Text → Text) where
  -- Whether the request was let in.
  unfoldable pub answer : Request → Guarded → Guarded × Bool
  unfolding handle_push_registration handle_push_status accept_web_socket require_room_auth
  answer (registering auth method body at) (s, r) =
      let after = handle_push_registration sha256 auth method body at s in
      ((after.0, r), is_served after.1)
  answer (asking auth) (s, r) = ((s, r), is_served (handle_push_status sha256 auth s))
  answer (upgrading auth u at) (s, r) =
      let after = accept_web_socket sha256 auth u at s r in ((after.0, after.1), is_opened after.2)
  answer (entering auth) (s, r) =
      let after = require_room_auth sha256 auth s in ((after.0, r), after.1)

  -- Whether one of the requests was let in.
  unfoldable pub run : List Request → Guarded → Guarded × Bool
  unfolding answer
  run [] g = (g, false)
  run (r ∷ requests) g =
      let after = answer r g in let rest = run requests after.0 in (rest.0, after.1 || rest.1)

  -- The request does not show the credential with this digest.
  abbrev pub is_stranger : Text → Request → Bool
  is_stranger expected r = not (text_eq (sha256 (auth_of r)) expected)
