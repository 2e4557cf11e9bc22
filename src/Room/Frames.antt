-- ===== src/Room/Frames.antt =====
-- src/relay/room.js, `webSocketMessage` from the guards on: the first frame of a socket, the queueing
-- and the sends of a valid envelope, and the acknowledgement.
use granttap_relay.Prelude.{
  ℕ, Bool, false, not, ◌&&◌, ◌||◌, List, [], ◌∷◌, ◌++◌, map, Option, none, some, ltb, if◌then◌else◌,
  get_or, filter, Text, codes, byte_length, is_some,
}
use granttap_relay.Relay.Json.{Json, undefined, boolean, integer, get, truthy, is_text, to_text}
use granttap_relay.Relay.Submissions.{Role, machine, phone, is_durable_submission}
use granttap_relay.Relay.Policy.{
  CloseToken, DropReason, QueueOutcome, Window, queue_outcome, accept_socket_frame,
  max_socket_messages_per_second,
}
use granttap_relay.Relay.CoolDown.{Registry, remaining}
use granttap_relay.Relay.Closing.{refuse_cooling_frame}
use granttap_relay.Relay.Mailbox.{queue, acknowledge, flush_to}
use granttap_relay.Relay.Routing.{matches_recipient, matches_queued_recipient}
use granttap_relay.Relay.Validation.{Problem, envelope_problem, valid_identifier}
use granttap_relay.Sockets.Ingress.{note_ingress_frame}
use granttap_relay.Retained.{retain_state, replay_state}
use granttap_relay.Wakes.{WakeState, Sent, requesting, step, next_wake_at}
use granttap_relay.Room.{
  max_websocket_message_bytes, Socket, Effect, World, Turn, emit, role_word, role_of,
  frame_identity, close_room_socket, drop_room_message, note_presence, frame, ingress_receipt,
  stored_notice, closed, forward, offer_jobs, schedule_alarm, wake_push,
}

abbrev pub replayed : ℕ → Role → World → List Text
replayed now machine w = []
replayed now phone w =
    map (λ row. row.raw) (replay_state w.retained (get_or w.socket.recipient_key_id []) now)

abbrev pub offers : Role → World → List Effect
offers machine w = if w.socket.task_dispatch then offer_jobs ∷ schedule_alarm ∷ [] else []
offers phone w = []

abbrev pub joined : Json → Role → World → World
joined e role w = record w {
  socket = record w.socket { role = some role; identity = frame_identity w.socket e };
}

abbrev pub is_target : Json → Socket → Bool
is_target e s =
    (is_text (get e (codes "to")) (codes "all")
      || elim s.role [ none ↦ false | some role ↦ is_text (get e (codes "to")) (role_word role) ])
    && matches_recipient e s.recipient_key_id

unfoldable pub targets_for : Json → World → List Socket
unfolding filter matches_recipient
targets_for e w = filter (is_target e) w.others

abbrev pub expiry : Json → Option ℕ
expiry (integer n) = some n
expiry _ = none

abbrev pub is_true : Json → Bool
is_true (boolean b) = b
is_true _ = false

-- The sends to the targets of a frame
unfoldable pub forward_all : Text → List Socket → List Effect
forward_all raw targets = map (λ target. forward target raw) targets

unfoldable pub wake_effects : WakeState → Option ℕ → List Effect
unfolding next_wake_at
wake_effects s sent =
    (if is_some sent then wake_push ∷ [] else [])
    ++ (if is_some (next_wake_at s) then schedule_alarm ∷ [] else [])

abbrev after_wake : World → Sent → World
after_wake w (s, sent) = emit (wake_effects s sent) (record w { wakes = s })

abbrev pub is_submission : Json → Text → World → Bool
is_submission e id w =
    w.socket.relay_control
    && is_text (get e (codes "from")) (codes "phone")
    && is_text (get e (codes "to")) (codes "machine")
    && is_durable_submission (some id)

abbrev pub is_reliable : Json → Bool
is_reliable e =
    not (is_text (get e (codes "to")) (codes "all")) && truthy (get e (codes "deliveryId"))

abbrev pub kept : Turn → Text → Json → World → World
kept turn raw e w =
    if truthy (get e (codes "stateKey"))
    then record w { retained = retain_state w.retained e raw turn.queued_at w.presence }
    else w

abbrev pub is_acknowledgement : Json → Bool
is_acknowledgement e =
    is_text (get e (codes "type")) (codes "relay.ack")
    && valid_identifier (get e (codes "deliveryId")) 180

unfoldable pub acknowledge_as : Json → World → Option Role → World
unfolding acknowledge
acknowledge_as e w none = w
acknowledge_as e w (some role) = record w {
  mailboxes = acknowledge role (get_or (to_text (get e (codes "deliveryId"))) []) w.mailboxes;
}

unfoldable pub receive_acknowledgement : Json → World → World
unfolding acknowledge_as
receive_acknowledgement e w = acknowledge_as e w w.socket.role

abbrev pub receipt_of : Option ℕ → List Effect
receipt_of none = []
receipt_of (some count) = ingress_receipt count ∷ []

unfoldable pub note_ingress : Json → World → World
unfolding note_ingress_frame emit
note_ingress e w =
    if is_text (get e (codes "type")) (codes "relay.admission")
    then w
    else (let (ingress, receipt) = note_ingress_frame w.socket.ingress in
        emit (receipt_of receipt) (record w { socket = record w.socket { ingress = ingress } }))

module _ (parse : Text → Option Json) (wake_key : Json → Text) where
  unfoldable pub flush : Turn → Role → World → World
  unfolding flush_to matches_queued_recipient emit
  flush turn role w =
      let (mailboxes, sent) =
        flush_to (λ raw. matches_queued_recipient parse raw w.socket.recipient_key_id) role
          turn.flush_capacity turn.greeted_at w.mailboxes in
      emit (map frame sent) (record w { mailboxes = mailboxes })

  -- The first frame of a socket that is not cooling down.
  unfoldable pub greet : Turn → Json → Role → World → World
  unfolding note_presence flush emit replay_state
  greet turn e role w =
      let known = note_presence turn.greeted_at (joined e role w) in
      let told = emit (map frame (replayed turn.greeted_at role known)) known in
      let flushed = flush turn role told in emit (offers role flushed) flushed

  -- The sends to the targets, and the wake.
  unfoldable pub deliver : Turn → Text → Json → World → World
  unfolding emit targets_for forward_all step wake_effects
  deliver turn raw e w =
      let sent = emit (forward_all raw (targets_for e w)) w in
      if is_text (get e (codes "to")) (codes "phone") && is_true (get e (codes "wake"))
      then after_wake sent (
          step
            (
              turn.woken_at,
              requesting (wake_key e) (expiry (get e (codes "expiresAt"))) turn.sent_at
                  turn.push_result,
            )
            w.wakes)
      else sent

  unfoldable pub after_queue : Turn → Text → Json → Text → QueueOutcome → World → World
  unfolding deliver close_room_socket drop_room_message emit is_durable_submission
  after_queue turn raw e id (QueueOutcome.close token) w =
      close_room_socket turn.queued_at token e w
  after_queue turn raw e id (QueueOutcome.drop reason) w = drop_room_message e reason w
  after_queue turn raw e id QueueOutcome.forward w =
      deliver turn raw e (emit (if is_submission e id w then stored_notice id ∷ [] else []) w)

  -- A frame with a delivery id to one role.
  unfoldable pub submit : Turn → Text → Json → Text → World → World
  unfolding queue queue_outcome after_queue drop_room_message
  submit turn raw e id w =
      if turn.queue_throws
      then drop_room_message e DropReason.storage_unavailable w
      else (let (mailboxes, result) =
            queue (role_of (get e (codes "to"))) raw id (expiry (get e (codes "expiresAt")))
              turn.queued_at w.mailboxes in
          after_queue turn raw e id (queue_outcome result (some id))
            (record w { mailboxes = mailboxes }))

  -- A valid envelope of a socket whose role it names.
  unfoldable pub route : Turn → Text → Json → World → World
  unfolding submit deliver retain_state
  route turn raw e w =
      if is_reliable e
      then submit turn raw e (get_or (to_text (get e (codes "deliveryId"))) []) (kept turn raw e w)
      else deliver turn raw e (kept turn raw e w)

  -- The first frame, after the registry was asked for what is left of a cool-down.
  unfoldable pub enter_after : Turn → Text → Json → World → Registry × ℕ → World
  unfolding refuse_cooling_frame greet route emit
  enter_after turn raw e w (registry, left) =
      let looked = record w { cool_downs = registry } in
      if ltb 0 left
      then emit (closed (refuse_cooling_frame left) ∷ []) looked
      else route turn raw e (greet turn e (role_of (get e (codes "from"))) looked)

  unfoldable pub enter : Turn → Text → Json → World → World
  unfolding frame_identity remaining enter_after
  enter turn raw e w =
      enter_after turn raw e w
        (remaining w.cool_downs (frame_identity w.socket e) false turn.greeted_at)

  unfoldable pub receive_as : Turn → Text → Json → World → Option Role → World
  unfolding enter route
  receive_as turn raw e w none = enter turn raw e w
  receive_as turn raw e w (some role) =
      if is_text (get e (codes "from")) (role_word role) then route turn raw e w else w

  unfoldable pub receive_valid : Turn → Text → Json → World → World
  unfolding receive_as
  receive_valid turn raw e w = receive_as turn raw e w w.socket.role

  unfoldable pub receive_checked : Turn → Text → Json → World → Option Problem → World
  unfolding receive_valid drop_room_message
  receive_checked turn raw e w none = receive_valid turn raw e w
  receive_checked turn raw e w (some Problem.expired) = drop_room_message e DropReason.expired w
  receive_checked turn raw e w (some Problem.invalid) = w

  unfoldable pub receive_envelope : Turn → Text → Json → World → World
  unfolding receive_acknowledgement receive_checked envelope_problem valid_identifier
  receive_envelope turn raw e w =
      if is_acknowledgement e
      then receive_acknowledgement e w
      else receive_checked turn raw e w (envelope_problem e w.socket.room turn.checked_at none)

  unfoldable pub receive_parsed : Turn → Text → World → Option Json → World
  unfolding note_ingress receive_envelope
  receive_parsed turn raw w none = w
  receive_parsed turn raw w (some e) = receive_envelope turn raw e (note_ingress e w)

  unfoldable pub receive_accepted : Turn → Text → World → Window × Bool → World
  unfolding close_room_socket receive_parsed
  receive_accepted turn raw w (window, accepted) =
      let counted = record w { socket = record w.socket { window = window } } in
      if not accepted
      then close_room_socket turn.accepted_at CloseToken.rate_limit undefined counted
      else receive_parsed turn raw counted (parse raw)

  -- `webSocketMessage` on a text; a binary frame does nothing.
  unfoldable pub web_socket_message : Turn → Text → World → World
  unfolding close_room_socket accept_socket_frame receive_accepted
  web_socket_message turn raw w =
      if ltb max_websocket_message_bytes (byte_length raw)
      then close_room_socket turn.accepted_at CloseToken.oversize undefined w
      else receive_accepted turn raw w
          (accept_socket_frame w.socket.window turn.accepted_at max_socket_messages_per_second)
