-- ===== src/Tests/Rooms.antt =====
-- src/relay/room.js, `webSocketMessage`, at concrete inputs.
use granttap_relay.Prelude.{
  ◌≡◌, ◌↔◌, refl, true, false, List, [], ◌∷◌, Option, none, some, arith, any, all, filter, Text,
  codes, text_eq, byte_length, starts_with,
}
use granttap_relay.Relay.Json.{Json, integer, string, object, end, field, lookup, get, truthy}
use granttap_relay.Relay.Submissions.{machine, is_durable_submission, retain_submission, row_bytes}
use granttap_relay.Relay.CoolDown.{Registry, new_registry}
use granttap_relay.Relay.Mailbox.{Storage, read, write, rows_of, has_id, queue}
use granttap_relay.Relay.Mailbox.Durability.{Holds, is_row, run}
use granttap_relay.Relay.Mailbox.Invariant.{IsValid}
use granttap_relay.Relay.Validation.{
  has_envelope_shape, only_known_fields, is_base64_text, has_no_state,
}
use granttap_relay.Wakes.{initial, accepted}
use granttap_relay.Relay.Support.{constant_time_equal}
use granttap_relay.Relay.Support.Equality.{constant_time_equal_iff}
use granttap_relay.Room.Requests.{Access, Upgrade, put_method, delete_method}
use granttap_relay.Room.Requests.Credential.{Request, registering, asking, upgrading, entering}
use granttap_relay.Room.Requests.Credential as Requests
use granttap_relay.Room.{Socket, World, Turn, role_of}
use granttap_relay.Room.Frames.{web_socket_message}
use granttap_relay.Room.Phases.{matches}
use granttap_relay.Room.Operations.{operations, web_socket_message-run}
use granttap_relay.Room.Receipts.{notified, is_notice}
use granttap_relay.Room.Stored.{web_socket_message-stored}
use granttap_relay.Room.Sessions.{
  read_frames, read_frames-IsValid, read_frames-Holds, AllSpareFrames,
}

program : Unit {0}
unfolding web_socket_message lookup read text_eq any filter all starts_with write is_notice
    byte_length get queue is_row has_envelope_shape only_known_fields is_base64_text has_no_state
    truthy role_of retain_submission row_bytes
program = tt

-- 64 digits
abbrev room : Text
room = codes "aaaaaaaaaaaaaaaa"

abbrev message_id : Text
message_id = codes "user-message-1"

abbrev submission : Json
submission = object (
    field (codes "v") (integer 1) (
      field (codes "room") (string room) (
        field (codes "from") (string (codes "phone")) (
          field (codes "to") (string (codes "machine")) (
            field (codes "senderId") (string (codes "s")) (
              field (codes "deliveryId") (string message_id) (
                field (codes "nonce") (string (codes "aaaaaaaaaaaaaaaaaaaaaaaaaaaaaaaa"))
                  (field (codes "box") (string (codes "aaaaaaaaaaaaaaaaaaaaaaaa")) end))))))))

abbrev raw : Text
raw = codes "{}"

-- Every frame is this submission.
abbrev parse : Text → Option Json
parse text = some submission

abbrev no_key : Json → Text
no_key e = []

abbrev turn : Turn
turn = record {
  accepted_at = 5;
  checked_at = 5;
  greeted_at = 5;
  queued_at = 5;
  woken_at = 5;
  sent_at = 5;
  push_result = accepted;
  flush_capacity = 9;
  queue_throws = false;
}

abbrev sender : Socket
sender = record {
  room = room;
  recipient_key_id = none;
  role = none;
  relay_control = true;
  presence_enabled = false;
  task_dispatch = false;
  ingress = record { ingress_flow = false; ingress_received = none };
  window = record { started_at = none; messages = 0 };
  identity = none;
}

abbrev world : World
world = record {
  socket = sender;
  others = [];
  mailboxes = record { machine_queue = none; phone_queue = none };
  retained = [];
  presence = [];
  wakes = initial;
  cool_downs = new_registry 256;
  effects = [];
}

quiet : notified message_id world ≡ false
unfolding program
quiet = refl

answered : notified message_id (web_socket_message parse no_key turn raw world) ≡ true
unfolding program
answered = refl

web_socket_message-stored_example :
    any
      (has_id message_id)
      (rows_of machine (web_socket_message parse no_key turn raw world).mailboxes)
    ≡ true
web_socket_message-stored_example =
    web_socket_message-stored parse no_key message_id turn raw world quiet answered

-- Two frames of the socket.
abbrev frames : List (Turn × Text)
frames = (turn, raw) ∷ (turn, raw) ∷ []

abbrev no_rows : Storage
no_rows = record { machine_queue = none; phone_queue = none }

no_rows-IsValid : IsValid no_rows
unfolding program
no_rows-IsValid = record {
  machine_rows = record { count = omega arith; bytes = omega arith; distinct = tt };
  phone_rows = record { count = omega arith; bytes = omega arith; distinct = tt };
}

read_frames-IsValid_example : IsValid (read_frames parse no_key frames world).mailboxes
read_frames-IsValid_example = read_frames-IsValid parse no_key frames world no_rows-IsValid

web_socket_message-run_example :
    (web_socket_message parse no_key turn raw world).mailboxes
    ≡ run (matches parse) (operations parse no_key turn raw world) no_rows
web_socket_message-run_example = web_socket_message-run parse no_key turn raw world

-- A message that stands in the mailbox of the machine until time 100
abbrev stored_rows : Storage
stored_rows = (queue machine raw (codes "user-message-2") (some 100) 1 no_rows).0

stored_rows-Holds : Holds machine raw (codes "user-message-2") 100 stored_rows
unfolding program
stored_rows-Holds = refl

spared : AllSpareFrames parse no_key (codes "user-message-2") 100 frames
unfolding program
spared = (
  (omega arith, omega arith, omega arith, refl),
  ((omega arith, omega arith, omega arith, refl), tt),
)

durable : is_durable_submission (some (codes "user-message-2")) ≡ true
unfolding program
durable = refl

read_frames-Holds_example :
    Holds machine raw
      (codes "user-message-2")
      100
      (read_frames parse no_key frames (record world { mailboxes = stored_rows })).mailboxes
read_frames-Holds_example =
    read_frames-Holds parse no_key machine (codes "user-message-2") 100 raw durable (omega arith)
      (omega arith) frames (record world { mailboxes = stored_rows }) spared stored_rows-Holds

-- A digest for the tests: the text itself.
abbrev same_text : Text → Text
same_text text = text

abbrev access : Access
access = record { pinned = some (codes "a"); devices = [] }

abbrev upgrade : Upgrade
upgrade = record {
  websocket = true;
  room = string (codes "aaaaaaaaaaaaaaaa");
  recipient = none;
  routing = true;
  ingress_flow = true;
  presence = false;
  task_dispatch = false;
}

abbrev strangers : List Request
strangers =
    registering (codes "b") put_method none 1
    ∷ registering (codes "c") delete_method (some submission) 2
    ∷ upgrading (codes "b") upgrade 3
    ∷ asking (codes "b")
    ∷ entering []
    ∷ []

abbrev cool_downs : Registry
cool_downs = new_registry 10

constant_time_equal_iff_example :
    (constant_time_equal (codes "ab") (codes "ac") ≡ true)
    ↔ (◌≡◌ {A = Text} (codes "ab") (codes "ac"))
constant_time_equal_iff_example = constant_time_equal_iff (codes "ab") (codes "ac")
