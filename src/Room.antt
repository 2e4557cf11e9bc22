-- ===== src/Room.antt =====
-- src/relay/room.js, `webSocketMessage` with `targetsFor`, and src/relay/roomSockets.js: what one
-- frame does to a Worker's room. The sender's socket and the other sockets stand in the world with
-- their attachments; what leaves the room is a list of effects. The times that one call reads, the
-- answers of storage and of the push service, `JSON.parse` and the digest of a wake are arguments.
pub mod Frames
pub mod Requests
pub mod Phases
pub mod Operations
pub mod Notices
pub mod Receipts
pub mod Stored
pub mod Sessions
use granttap_relay.Prelude.{
  ℕ, ◌+◌, ◌*◌, Bool, true, false, not, ◌&&◌, ◌||◌, List, [], ◌∷◌, ◌++◌, map, Option, none, some,
  ltb, if◌then◌else◌, get_or, filter, any, Text, codes, text_eq, byte_length, is_some,
}
use granttap_relay.Relay.Json.{Json, undefined, boolean, integer, get, truthy, is_text, to_text}
use granttap_relay.Relay.Submissions.{Role, machine, phone, is_durable_submission}
use granttap_relay.Relay.Policy.{
  CloseToken, DropReason, QueueOutcome, QueueResult, Window, queue_outcome, accept_socket_frame,
  max_socket_messages_per_second,
}
use granttap_relay.Relay.CoolDown.{Registry, socket_identity, remaining}
use granttap_relay.Relay.Closing.{Close, apply_policy_close, refuse_cooling_frame}
use granttap_relay.Relay.Mailbox.{Storage, queue, acknowledge, flush_to}
use granttap_relay.Relay.Routing.{matches_recipient, matches_queued_recipient}
use granttap_relay.Relay.Validation.{Problem, envelope_problem, valid_identifier}
use granttap_relay.Sockets.Ingress.{IngressState, note_ingress_frame}
use granttap_relay.Sockets.Presence.{Seen, update_presence}
use granttap_relay.Retained.{StateRow, retain_state, replay_state}
use granttap_relay.Wakes.{WakeState, SendResult, Sent, requesting, step, next_wake_at}

abbrev pub max_websocket_message_bytes : ℕ
max_websocket_message_bytes = 32 * 1_024 * 1_024

-- The attachment of a socket, and its entry of `socketPolicy`.
pub record Socket : Type 0 where
  pub room : Text
  pub recipient_key_id : Option Text
  pub role : Option Role
  pub relay_control : Bool
  pub presence_enabled : Bool
  pub task_dispatch : Bool
  pub ingress : IngressState
  pub window : Window
  pub identity : Option Text

pub record Device : Type 0 where
  pub id : Text
  pub role : Text
  pub last_seen_at : ℕ
  pub online : Bool

pub data Effect : Type 0 where
  -- `ws.send(raw)` on the sender's socket
  frame : Text → Effect
  ingress_receipt : ℕ → Effect
  stored_notice : Text → Effect
  dropped_notice : Text → DropReason → Effect
  closed : Close → Effect
  presence_to : Socket → List Device → Effect
  forward : Socket → Text → Effect
  offer_jobs schedule_alarm wake_push : Effect

pub record World : Type 0 where
  pub socket : Socket
  pub others : List Socket
  pub mailboxes : Storage
  pub retained : List StateRow
  pub presence : List Seen
  pub wakes : WakeState
  pub cool_downs : Registry
  pub effects : List Effect

-- What one call reads outside the room.
pub record Turn : Type 0 where
  pub accepted_at : ℕ
  pub checked_at : ℕ
  pub greeted_at : ℕ
  pub queued_at : ℕ
  pub woken_at : ℕ
  pub sent_at : ℕ
  pub push_result : SendResult
  -- The sends that the socket takes in `flushTo` before one throws.
  pub flush_capacity : ℕ
  -- Whether storage throws in `queue`.
  pub queue_throws : Bool

unfoldable pub emit : List Effect → World → World
emit effects w = record w { effects = w.effects ++ effects }

abbrev pub role_word : Role → Text
role_word machine = codes "machine"
role_word phone = codes "phone"

-- The role that a valid envelope names.
unfoldable pub role_of : Json → Role
role_of word = if is_text word (codes "phone") then phone else machine

-- `known.role ?? envelope?.from`
abbrev pub role_or_from : Socket → Json → Option Text
role_or_from s e = elim s.role [
  | none ↦ to_text (get e (codes "from"))
  | some role ↦ some (role_word role)
]

unfoldable pub frame_identity : Socket → Json → Option Text
unfolding socket_identity
frame_identity s e =
    socket_identity (some s.room) s.recipient_key_id (role_or_from s e)
      (to_text (get e (codes "senderId")))

abbrev either : Option Text → Option Text → Option Text
either none other = other
either (some text) other = some text

-- Without an envelope, `e` is `undefined`.
unfoldable pub close_room_socket : ℕ → CloseToken → Json → World → World
unfolding apply_policy_close frame_identity emit
close_room_socket now token e w =
    let identity = either w.socket.identity (frame_identity w.socket e) in
    let (registry, close) = apply_policy_close token identity now w.cool_downs in
    emit (closed close ∷ []) (record w { cool_downs = registry })

unfoldable pub drop_room_message : Json → DropReason → World → World
unfolding emit
drop_room_message e reason w =
    if w.socket.relay_control && truthy (get e (codes "deliveryId"))
    then emit (dropped_notice (get_or (to_text (get e (codes "deliveryId"))) []) reason ∷ []) w
    else w

abbrev plays : Text → Option Role → Bool
plays word none = false
plays word (some role) = text_eq (role_word role) word

abbrev has_key : Text → Option Text → Bool
has_key id none = false
has_key id (some key) = text_eq key id

-- `presenceMessage`: an entry is online if a socket of the room has its role and key.
unfoldable pub presence_message : Text → List Seen → List Socket → ℕ → List Device
unfolding any
presence_message room rows states now =
    map
      (λ row.
        let online =
          any
            (λ s. text_eq s.room room && plays row.role s.role && has_key row.id s.recipient_key_id)
            states in
        record {
          id = row.id;
          role = row.role;
          last_seen_at = if online then now else row.last_seen_at;
          online = online;
        })
      rows

abbrev pub reads_presence : Socket → Bool
reads_presence s = s.presence_enabled && plays (codes "phone") s.role

abbrev word_of : Option Role → Option Text
word_of none = none
word_of (some role) = some (role_word role)

unfoldable pub tell_presence : List Device → List Socket → List Effect
unfolding filter
tell_presence devices peers = map (λ peer. presence_to peer devices) (filter reads_presence peers)

-- `noteWorkerPresence`
unfoldable pub note_presence : ℕ → World → World
unfolding update_presence presence_message emit tell_presence
note_presence now w =
    let rows = update_presence w.presence (word_of w.socket.role) w.socket.recipient_key_id now in
    let peers = w.socket ∷ w.others in
    let devices = presence_message w.socket.room rows peers now in
    emit (tell_presence devices peers) (record w { presence = rows })
