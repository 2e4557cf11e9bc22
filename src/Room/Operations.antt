-- ===== src/Room/Operations.antt =====
-- src/relay/room.js: what a frame does to the mailboxes of its room, as a run of their operations.
use granttap_relay.Prelude.{
  ℕ, ◌≡◌, refl, ap, ◌∙◌, false, not, ◌||◌, List, [], ◌∷◌, Option, none, some, arith, ltb,
  if◌then◌else◌, Text, codes, byte_length, Bool-cases, inl, inr,
}
use granttap_relay.Relay.Json.{Json, get, is_text}
use granttap_relay.Relay.Submissions.{Role}
use granttap_relay.Relay.Policy.{DropReason, accept_socket_frame, max_socket_messages_per_second}
use granttap_relay.Relay.CoolDown.{Registry, remaining}
use granttap_relay.Relay.Mailbox.Durability.{Operation, acknowledging, flushing, step, run}
use granttap_relay.Relay.Validation.{Problem, envelope_problem}
use granttap_relay.Sockets.Ingress.{IngressState, note_ingress_frame}
use granttap_relay.Room.{
  World, Turn, Effect, emit, role_word, role_of, frame_identity, close_room_socket,
  max_websocket_message_bytes,
}
use granttap_relay.Room.Frames.{
  is_acknowledgement, acknowledge_as, receive_acknowledgement, receipt_of, note_ingress, greet,
  enter_after, enter, receive_as, receive_valid, receive_checked, receive_envelope, receive_parsed,
  receive_accepted, web_socket_message,
}
use granttap_relay.Room.Phases.{
  matches, id_of, submissions, drop_room_message-mailboxes, route-mailboxes, greet-mailboxes,
}

module _ (parse : Text → Option Json) (wake_key : Json → Text) where
  abbrev pub entering : Turn → Text → Json → World → Registry × ℕ → List (ℕ × Operation)
  entering turn raw e w (_, left) =
      if ltb 0 left
      then []
      else (
        turn.greeted_at,
        flushing (role_of (get e (codes "from"))) w.socket.recipient_key_id turn.flush_capacity,
      )
        ∷ submissions turn raw e

  enter_after-mailboxes :
      (turn : Turn) (raw : Text) (e : Json) (w : World) (looked : Registry × ℕ)
      → (enter_after parse wake_key turn raw e w looked).mailboxes
        ≡ run (matches parse) (entering turn raw e w looked) w.mailboxes
  unfolding enter_after run step
  enter_after-mailboxes turn raw e w (registry, left) = elim (Bool-cases (ltb 0 left)) [
    | inl cooling ↦ simp (cooling, emit)
    | inr warm ↦
        let greeted : World =
          greet parse wake_key turn e (role_of (get e (codes "from")))
            (record w { cool_downs = registry }) in
        simp warm (
          route-mailboxes parse wake_key turn raw e greeted
          ∙ ap (run (matches parse) (submissions turn raw e)) (
              greet-mailboxes parse wake_key turn e (role_of (get e (codes "from")))
                (record w { cool_downs = registry })))
  ]

  -- The operations of a valid frame, given the socket's role.
  abbrev pub valid_operations : Turn → Text → Json → World → Option Role → List (ℕ × Operation)
  valid_operations turn raw e w none =
      entering turn raw e w
        (remaining w.cool_downs (frame_identity w.socket e) false turn.greeted_at)
  valid_operations turn raw e w (some role) =
      if is_text (get e (codes "from")) (role_word role) then submissions turn raw e else []

  receive_as-mailboxes :
      (turn : Turn) (raw : Text) (e : Json) (w : World) (role : Option Role)
      → (receive_as parse wake_key turn raw e w role).mailboxes
        ≡ run (matches parse) (valid_operations turn raw e w role) w.mailboxes
  unfolding receive_as enter run
  receive_as-mailboxes turn raw e w none = enter_after-mailboxes turn raw e w _
  receive_as-mailboxes turn raw e w (some role) =
      elim (Bool-cases (is_text (get e (codes "from")) (role_word role))) [
        | inl own ↦ rw (own, receive_as) (route-mailboxes parse wake_key turn raw e w)
        | inr other ↦ rw (other, receive_as) refl
      ]

  abbrev pub acknowledgements : ℕ → Json → Option Role → List (ℕ × Operation)
  acknowledgements now e none = []
  acknowledgements now e (some role) = (now, acknowledging role (id_of e)) ∷ []

  acknowledge_as-mailboxes :
      (now : ℕ) (e : Json) (w : World) (role : Option Role)
      → (acknowledge_as e w role).mailboxes
        ≡ run (matches parse) (acknowledgements now e role) w.mailboxes
  unfolding acknowledge_as run step
  acknowledge_as-mailboxes now e w none = refl
  acknowledge_as-mailboxes now e w (some role) = refl

  abbrev pub checked_operations : Turn → Text → Json → World → Option Problem → List (ℕ × Operation)
  checked_operations turn raw e w none = valid_operations turn raw e w w.socket.role
  checked_operations turn raw e w (some _) = []

  receive_checked-mailboxes :
      (turn : Turn) (raw : Text) (e : Json) (w : World) (problem : Option Problem)
      → (receive_checked parse wake_key turn raw e w problem).mailboxes
        ≡ run (matches parse) (checked_operations turn raw e w problem) w.mailboxes
  unfolding receive_checked receive_valid run
  receive_checked-mailboxes turn raw e w none = receive_as-mailboxes turn raw e w w.socket.role
  receive_checked-mailboxes turn raw e w (some Problem.expired) =
      drop_room_message-mailboxes e DropReason.expired w
  receive_checked-mailboxes turn raw e w (some Problem.invalid) = refl

  -- The operations of a frame that was parsed.
  abbrev pub envelope_operations : Turn → Text → Json → World → List (ℕ × Operation)
  envelope_operations turn raw e w =
      if is_acknowledgement e
      then acknowledgements turn.accepted_at e w.socket.role
      else checked_operations turn raw e w (envelope_problem e w.socket.room turn.checked_at none)

  receive_envelope-mailboxes :
      (turn : Turn) (raw : Text) (e : Json) (w : World)
      → (receive_envelope parse wake_key turn raw e w).mailboxes
        ≡ run (matches parse) (envelope_operations turn raw e w) w.mailboxes
  unfolding receive_envelope receive_acknowledgement
  receive_envelope-mailboxes turn raw e w = elim (Bool-cases (is_acknowledgement e)) [
    | inl is ↦
        rw (is, receive_envelope) (acknowledge_as-mailboxes turn.accepted_at e w w.socket.role)
    | inr other ↦ rw (other, receive_envelope) (receive_checked-mailboxes turn raw e w _)
  ]

  abbrev with_ingress : IngressState → List Effect → World → World
  with_ingress ingress receipts w =
      emit receipts (record w { socket = record w.socket { ingress = ingress } })

  -- The operations do not depend on the receipts.
  valid-ingress :
      (turn : Turn) (raw : Text) (e : Json) (ingress : IngressState) (receipts : List Effect)
      (w : World) (role : Option Role)
      → valid_operations turn raw e (with_ingress ingress receipts w) role
        ≡ valid_operations turn raw e w role
  unfolding emit frame_identity
  valid-ingress turn raw e ingress receipts w none = refl
  valid-ingress turn raw e ingress receipts w (some role) = refl

  checked-ingress :
      (turn : Turn) (raw : Text) (e : Json) (ingress : IngressState) (receipts : List Effect)
      (w : World) (problem : Option Problem)
      → checked_operations turn raw e (with_ingress ingress receipts w) problem
        ≡ checked_operations turn raw e w problem
  unfolding emit
  checked-ingress turn raw e ingress receipts w none =
      valid-ingress turn raw e ingress receipts w w.socket.role
  checked-ingress turn raw e ingress receipts w (some _) = refl

  envelope-ingress :
      (turn : Turn) (raw : Text) (e : Json) (ingress : IngressState) (receipts : List Effect)
      (w : World)
      → envelope_operations turn raw e (with_ingress ingress receipts w)
        ≡ envelope_operations turn raw e w
  unfolding emit
  envelope-ingress turn raw e ingress receipts w =
      ap (if◌then◌else◌ (is_acknowledgement e) (acknowledgements turn.accepted_at e w.socket.role))
        (checked-ingress turn raw e ingress receipts w
          (envelope_problem e w.socket.room turn.checked_at none))

  note_ingress-operations :
      (turn : Turn) (raw : Text) (e : Json) (w : World)
      → envelope_operations turn raw e (note_ingress e w) ≡ envelope_operations turn raw e w
  unfolding note_ingress
  note_ingress-operations turn raw e w =
      elim (Bool-cases (is_text (get e (codes "type")) (codes "relay.admission"))) [
        | inl is ↦ rw (is, note_ingress) refl
        | inr other ↦
            rw (other, note_ingress)
              (envelope-ingress turn raw e (note_ingress_frame w.socket.ingress).0
                (receipt_of (note_ingress_frame w.socket.ingress).1) w)
      ]

  abbrev pub parsed_operations : Turn → Text → World → Option Json → List (ℕ × Operation)
  parsed_operations turn raw w none = []
  parsed_operations turn raw w (some e) = envelope_operations turn raw e w

  note_ingress-mailboxes : (e : Json) (w : World) → (note_ingress e w).mailboxes ≡ w.mailboxes
  unfolding note_ingress emit
  note_ingress-mailboxes e w = ground arith

  receive_parsed-mailboxes :
      (turn : Turn) (raw : Text) (w : World) (parsed : Option Json)
      → (receive_parsed parse wake_key turn raw w parsed).mailboxes
        ≡ run (matches parse) (parsed_operations turn raw w parsed) w.mailboxes
  unfolding receive_parsed run
  receive_parsed-mailboxes turn raw w none = refl
  receive_parsed-mailboxes turn raw w (some e) =
      receive_envelope-mailboxes turn raw e (note_ingress e w)
      ∙ (ap (λ ops. run (matches parse) ops (note_ingress e w).mailboxes)
            (note_ingress-operations turn raw e w)
          ∙ ap (run (matches parse) (envelope_operations turn raw e w))
              (note_ingress-mailboxes e w))

  -- The operations of a frame: none if it is over the size or the rate, or is no JSON.
  abbrev pub operations : Turn → Text → World → List (ℕ × Operation)
  operations turn raw w =
      if ltb max_websocket_message_bytes (byte_length raw)
        || not
            (accept_socket_frame w.socket.window turn.accepted_at max_socket_messages_per_second).1
      then []
      else parsed_operations turn raw w (parse raw)

  -- What a frame does to the mailboxes of its room is the run of its operations: the acknowledgement
  -- of its id in the mailbox of the socket's role, or, for a valid envelope, the flush of a socket
  -- that names its role for the first time, and then the queueing for the role that it names.
  pub web_socket_message-run :
      (turn : Turn) (raw : Text) (w : World)
      → (web_socket_message parse wake_key turn raw w).mailboxes
        ≡ run (matches parse) (operations turn raw w) w.mailboxes
  unfolding web_socket_message receive_accepted close_room_socket emit run
  web_socket_message-run turn raw w =
      elim (Bool-cases (ltb max_websocket_message_bytes (byte_length raw))) [
        | inl large ↦ simp large
        | inr small ↦
            elim (Bool-cases
              (accept_socket_frame w.socket.window turn.accepted_at
                max_socket_messages_per_second).1) [
                  | inl accepted ↦
                      simp (small, accepted, receive_parsed-mailboxes turn raw _ (parse raw))
                  | inr refused ↦ simp (small, refused)
                ]
      ]
