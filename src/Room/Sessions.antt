-- ===== src/Room/Sessions.antt =====
-- src/relay/room.js: the mailboxes of a room, and the role of a socket, while it reads frames.
use granttap_relay.Prelude.{
  ℕ, ◌<◌, ◌≡◌, ◌≢◌, sym, subst, Bool, true, false, not, ◌&&◌, ◌||◌, List, [], ◌∷◌, Option, none,
  some, arith, ltb, length, Text, codes, text_eq, text_eq_iff, byte_length, Bool-cases, inl, inr,
}
use granttap_relay.Relay.Json.{Json, get, is_text}
use granttap_relay.Relay.Submissions.{Role, is_durable_submission}
use granttap_relay.Relay.CoolDown.{Registry, remaining}
use granttap_relay.Relay.Policy.{accept_socket_frame, max_socket_messages_per_second}
use granttap_relay.Relay.Mailbox.Durability.{Holds, AllSpare}
use granttap_relay.Relay.Mailbox.Runs.{run-Holds}
use granttap_relay.Relay.Mailbox.Invariant.{IsValid, run-IsValid}
use granttap_relay.Relay.Validation.{Problem}
use granttap_relay.Room.{World, Turn, role_word, frame_identity, max_websocket_message_bytes}
use granttap_relay.Room.Frames.{is_acknowledgement, is_reliable, web_socket_message}
use granttap_relay.Room.Phases.{id_of, matches, submissions}
use granttap_relay.Room.Operations.{
  entering, valid_operations, acknowledgements, checked_operations, parsed_operations, operations,
  web_socket_message-run,
}

module _ (parse : Text → Option Json) (wake_key : Json → Text) where
  -- The frames of one socket, each with what the call reads outside the room.
  unfoldable pub read_frames : List (Turn × Text) → World → World
  unfolding web_socket_message
  read_frames [] w = w
  read_frames ((turn, raw) ∷ frames) w =
      read_frames frames (web_socket_message parse wake_key turn raw w)

  -- Whatever frames a socket sends, both mailboxes of its room keep to 100 rows and 1,800,000 bytes,
  -- and no two rows of one have the same delivery id, if that held before.
  pub read_frames-IsValid :
      (frames : List (Turn × Text)) (w : World)
      → IsValid w.mailboxes
      → IsValid (read_frames frames w).mailboxes
  unfolding read_frames
  read_frames-IsValid [] w v = v
  read_frames-IsValid ((turn, raw) ∷ frames) w v =
      read_frames-IsValid frames (web_socket_message parse wake_key turn raw w) (
        subst IsValid (sym (web_socket_message-run parse wake_key turn raw w))
          (run-IsValid (matches parse) (operations parse wake_key turn raw w) w.mailboxes v))

  abbrev acknowledges : Text → Option Json → Bool
  acknowledges id none = false
  acknowledges id (some frame) = is_acknowledgement frame && text_eq (id_of frame) id

  -- The call reads times before `e`, and its frame acknowledges no delivery id `id`.
  abbrev pub SparesFrame : Text → ℕ → Turn → Text → Type 0
  SparesFrame id e turn raw =
      (turn.accepted_at < e)
      × (turn.greeted_at < e)
      × (turn.queued_at < e)
      × (acknowledges id (parse raw) ≡ false)

  abbrev pub AllSpareFrames : Text → ℕ → List (Turn × Text) → Type 0
  AllSpareFrames id e [] = Unit {0}
  AllSpareFrames id e ((turn, raw) ∷ frames) =
      SparesFrame id e turn raw × AllSpareFrames id e frames

  module _ (role : Role) (id : Text) (e : ℕ) where
    submissions-spare :
        (turn : Turn) (raw : Text) (frame : Json)
        → turn.queued_at < e
        → AllSpare role id e (submissions turn raw frame)
    submissions-spare turn raw frame low =
        elim (Bool-cases (is_reliable frame && not turn.queue_throws)) [
          | inl asks ↦ rw asks (low, tt)
          | inr idle ↦ rw idle tt
        ]

    entering-spare :
        (turn : Turn) (raw : Text) (frame : Json) (w : World) (looked : Registry × ℕ)
        → turn.greeted_at < e
        → turn.queued_at < e
        → AllSpare role id e (entering parse wake_key turn raw frame w looked)
    entering-spare turn raw frame w (registry, left) early low = elim (Bool-cases (ltb 0 left)) [
      | inl cooling ↦ rw cooling tt
      | inr warm ↦ rw warm (early, submissions-spare turn raw frame low)
    ]

    valid-spare :
        (turn : Turn) (raw : Text) (frame : Json) (w : World) (own : Option Role)
        → turn.greeted_at < e
        → turn.queued_at < e
        → AllSpare role id e (valid_operations parse wake_key turn raw frame w own)
    valid-spare turn raw frame w none early low =
        entering-spare turn raw frame w
          (remaining w.cool_downs (frame_identity w.socket frame) false turn.greeted_at) early low
    valid-spare turn raw frame w (some own) early low =
        elim (Bool-cases (is_text (get frame (codes "from")) (role_word own))) [
          | inl same ↦ rw same (submissions-spare turn raw frame low)
          | inr other ↦ rw other tt
        ]

    acknowledgements-spare :
        (now : ℕ) (frame : Json) (own : Option Role)
        → now < e
        → id_of frame ≢ id
        → AllSpare role id e (acknowledgements parse wake_key now frame own)
    acknowledgements-spare now frame none low ne = tt
    acknowledgements-spare now frame (some own) low ne = ((low, inr ne), tt)

    checked-spare :
        (turn : Turn) (raw : Text) (frame : Json) (w : World) (problem : Option Problem)
        → turn.greeted_at < e
        → turn.queued_at < e
        → AllSpare role id e (checked_operations parse wake_key turn raw frame w problem)
    checked-spare turn raw frame w none early low =
        valid-spare turn raw frame w w.socket.role early low
    checked-spare turn raw frame w (some _) early low = tt

    parsed-spare :
        (turn : Turn) (raw : Text) (w : World) (parsed : Option Json)
        → turn.accepted_at < e
        → turn.greeted_at < e
        → turn.queued_at < e
        → acknowledges id parsed ≡ false
        → AllSpare role id e (parsed_operations parse wake_key turn raw w parsed)
    parsed-spare turn raw w none first early low quiet = tt
    parsed-spare turn raw w (some frame) first early low quiet =
        elim (Bool-cases (is_acknowledgement frame)) [
          | inl is ↦ rw is (
              acknowledgements-spare turn.accepted_at frame w.socket.role first
                (λ same. absurd (ground (arith, (text_eq_iff (id_of frame) id).1 same))))
          | inr other ↦ rw other (checked-spare turn raw frame w _ early low)
        ]

    operations-spare :
        (turn : Turn) (raw : Text) (w : World)
        → SparesFrame id e turn raw
        → AllSpare role id e (operations parse wake_key turn raw w)
    operations-spare turn raw w spare =
        elim (Bool-cases (
          ltb max_websocket_message_bytes (byte_length raw)
          || not
              (accept_socket_frame w.socket.window turn.accepted_at
                max_socket_messages_per_second).1)) [
                  | inl refused ↦ rw refused tt
                  | inr accepted ↦
                      rw accepted
                        (parsed-spare turn raw w (parse raw) spare.0 spare.1 spare.2 spare.3)
                ]

    module _ (text : Text) where
      -- A durable submission that stands in a mailbox is there, as it was sent, after any frames that
      -- a socket of the room sends before its expiry and that do not acknowledge its id.
      pub read_frames-Holds :
          is_durable_submission (some id) ≡ true
          → 0 < length id
          → 0 < length text
          → (frames : List (Turn × Text)) (w : World) → AllSpareFrames id e frames
          → Holds role text id e w.mailboxes
          → Holds role text id e (read_frames frames w).mailboxes
      unfolding read_frames
      read_frames-Holds durable long full [] w spare h = h
      read_frames-Holds durable long full ((turn, raw) ∷ frames) w spare h =
          read_frames-Holds durable long full frames (web_socket_message parse wake_key turn raw w)
            spare.1
            (subst (Holds role text id e) (sym (web_socket_message-run parse wake_key turn raw w)) (
              run-Holds (matches parse) text id e role durable long full
                (operations parse wake_key turn raw w) w.mailboxes
                (operations-spare turn raw w spare.0) h))
