-- ===== src/Room/Phases.antt =====
-- src/relay/room.js: what a frame does to the mailboxes of its room, one phase of the handler after the other.
use granttap_relay.Prelude.{
  ℕ, ◌≡◌, refl, Bool, not, ◌&&◌, List, [], ◌∷◌, Option, arith, if◌then◌else◌, get_or, Text, codes,
  Bool-cases, inl, inr,
}
use granttap_relay.Relay.Json.{Json, get, to_text}
use granttap_relay.Relay.Submissions.{Role}
use granttap_relay.Relay.Policy.{CloseToken, DropReason, QueueOutcome}
use granttap_relay.Relay.Mailbox.{queue, flush_to}
use granttap_relay.Relay.Mailbox.Durability.{Operation, queueing, step, run}
use granttap_relay.Relay.Routing.{matches_queued_recipient}
use granttap_relay.Room.{
  World, Turn, emit, role_of, close_room_socket, drop_room_message, note_presence,
}
use granttap_relay.Room.Frames.{
  expiry, is_reliable, kept, flush, greet, deliver, after_queue, submit, route,
}

abbrev pub matches : (Text → Option Json) → Option Text → Text → Bool
matches parse recipient raw = matches_queued_recipient parse raw recipient

abbrev pub id_of : Json → Text
id_of e = get_or (to_text (get e (codes "deliveryId"))) []

-- The operations on the mailboxes that a valid frame asks for.
abbrev pub submissions : Turn → Text → Json → List (ℕ × Operation)
submissions turn raw e =
    if is_reliable e && not turn.queue_throws
    then (
      turn.queued_at,
      queueing (role_of (get e (codes "to"))) raw (id_of e) (expiry (get e (codes "expiresAt"))),
    )
      ∷ []
    else []

pub close_room_socket-mailboxes :
    (now : ℕ) (token : CloseToken) (e : Json) (w : World)
    → (close_room_socket now token e w).mailboxes ≡ w.mailboxes
unfolding close_room_socket emit
close_room_socket-mailboxes now token e w = refl

pub drop_room_message-mailboxes :
    (e : Json) (reason : DropReason) (w : World)
    → (drop_room_message e reason w).mailboxes ≡ w.mailboxes
unfolding drop_room_message emit
drop_room_message-mailboxes e reason w = ground arith

pub kept-mailboxes :
    (turn : Turn) (raw : Text) (e : Json) (w : World) → (kept turn raw e w).mailboxes ≡ w.mailboxes
kept-mailboxes turn raw e w = ground arith

module _ (parse : Text → Option Json) (wake_key : Json → Text) where
  pub deliver-mailboxes :
      (turn : Turn) (raw : Text) (e : Json) (w : World)
      → (deliver parse wake_key turn raw e w).mailboxes ≡ w.mailboxes
  unfolding deliver emit
  deliver-mailboxes turn raw e w = ground arith

  pub after_queue-mailboxes :
      (turn : Turn) (raw : Text) (e : Json) (id : Text) (outcome : QueueOutcome) (w : World)
      → (after_queue parse wake_key turn raw e id outcome w).mailboxes ≡ w.mailboxes
  unfolding after_queue emit
  after_queue-mailboxes turn raw e id (QueueOutcome.close token) w =
      close_room_socket-mailboxes turn.queued_at token e w
  after_queue-mailboxes turn raw e id (QueueOutcome.drop reason) w =
      drop_room_message-mailboxes e reason w
  after_queue-mailboxes turn raw e id QueueOutcome.forward w = deliver-mailboxes turn raw e _

  pub submit-mailboxes :
      (turn : Turn) (raw : Text) (e : Json) (w : World)
      → (submit parse wake_key turn raw e (id_of e) w).mailboxes ≡ (
          if turn.queue_throws
          then w.mailboxes
          else (queue
              (role_of (get e (codes "to")))
              raw
              (id_of e)
              (expiry (get e (codes "expiresAt")))
              turn.queued_at
              w.mailboxes).0)
  unfolding submit
  submit-mailboxes turn raw e w = elim (Bool-cases turn.queue_throws) [
    | inl thrown ↦ simp (thrown, drop_room_message-mailboxes e DropReason.storage_unavailable w)
    | inr fine ↦ simp (fine, after_queue-mailboxes turn raw e (id_of e) _ _)
  ]

  pub route-mailboxes :
      (turn : Turn) (raw : Text) (e : Json) (w : World)
      → (route parse wake_key turn raw e w).mailboxes
        ≡ run (matches parse) (submissions turn raw e) w.mailboxes
  unfolding route run step
  route-mailboxes turn raw e w = ground (
    arith,
    kept-mailboxes turn raw e w,
    submit-mailboxes turn raw e (kept turn raw e w),
    deliver-mailboxes turn raw e (kept turn raw e w),
  )

  pub greet-mailboxes :
      (turn : Turn) (e : Json) (role : Role) (w : World)
      → (greet parse wake_key turn e role w).mailboxes
        ≡ (flush_to
            (matches parse w.socket.recipient_key_id)
            role
            turn.flush_capacity
            turn.greeted_at
            w.mailboxes).0
  unfolding greet flush note_presence emit
  greet-mailboxes turn e role w = refl
