-- ===== src/Room/Stored.antt =====
-- src/relay/room.js: a submission that was answered `relay.stored` stands in the machine's mailbox.
use granttap_relay.Prelude.{
  ℕ, ◌≡◌, refl, sym, subst, ◌∙◌, Bool, true, false, [], ◌∷◌, Option, none, some, arith, ltb, any,
  Text, codes, text_eq→eq, byte_length, Bool-cases, inl, inr,
}
use granttap_relay.Relay.Json.{Json, undefined, get, is_text}
use granttap_relay.Relay.Submissions.{Role, machine}
use granttap_relay.Relay.CoolDown.{Registry}
use granttap_relay.Relay.Closing.{refuse_cooling_frame}
use granttap_relay.Relay.Policy.{CloseToken, DropReason, Window}
use granttap_relay.Relay.Mailbox.{rows_of, has_id}
use granttap_relay.Relay.Validation.{Problem}
use granttap_relay.Room.{
  World, Turn, closed, emit, role_word, role_of, close_room_socket, drop_room_message,
  max_websocket_message_bytes,
}
use granttap_relay.Room.Frames.{
  expiry, is_reliable, kept, is_acknowledgement, acknowledge_as, receive_acknowledgement,
  receipt_of, note_ingress, greet, deliver, submit, route, enter_after, enter, receive_as,
  receive_valid, receive_checked, receive_envelope, receive_parsed, receive_accepted,
  web_socket_message,
}
use granttap_relay.Room.Phases.{id_of, after_queue-mailboxes}
use granttap_relay.Room.Notices.{queue-forwarded}
use granttap_relay.Room.Receipts.{
  is_notice, ||-false, notified, emit-notified, drop-notified, close-notified, greet-notified,
  deliver-notified, after_queue-notice, submit-queued, submit_thrown, queued, role_of-machine,
}

abbrev Justified : Text → World → Type 0
Justified id w = notified id w ≡ true → any (has_id id) (rows_of machine w.mailboxes) ≡ true

module _ (parse : Text → Option Json) (wake_key : Json → Text) (id : Text) where
  submit-notice :
      (turn : Turn) (raw : Text) (e : Json) (w : World)
      → notified id w ≡ false
      → notified id (submit parse wake_key turn raw e (id_of e) w) ≡ true
      → any (has_id id) (rows_of machine (submit parse wake_key turn raw e (id_of e) w).mailboxes)
        ≡ true
  submit-notice turn raw e w quiet h = elim (Bool-cases turn.queue_throws) [
    | inl thrown ↦
        let loud : notified id (drop_room_message e DropReason.storage_unavailable w) ≡ true =
          subst (λ v. notified id v ≡ true) (submit_thrown id parse wake_key turn raw e w thrown)
            h in
        absurd (ground (arith, drop-notified id e DropReason.storage_unavailable w))
    | inr fine ↦
        let same = submit-queued id parse wake_key turn raw e w fine in
        let parts =
          after_queue-notice id parse wake_key turn raw e (id_of e) _ _ quiet
            (subst (λ v. notified id v ≡ true) same h) in
        subst (λ v. any (has_id id) (rows_of machine v.mailboxes) ≡ true) (sym same)
          (rw (after_queue-mailboxes parse wake_key turn raw e (id_of e) _ _) (
            subst (λ r. any (has_id id) (rows_of r (queued turn raw e w).0) ≡ true)
              (role_of-machine (get e (codes "to")) parts.1)
              (subst
                (λ t.
                  any (has_id t) (rows_of (role_of (get e (codes "to"))) (queued turn raw e w).0)
                  ≡ true)
                (text_eq→eq (id_of e) id parts.2)
                (queue-forwarded (role_of (get e (codes "to"))) raw (id_of e)
                  (expiry (get e (codes "expiresAt"))) turn.queued_at w.mailboxes parts.0))))
  ]

  kept-notified :
      (turn : Turn) (raw : Text) (e : Json) (w : World)
      → notified id (kept turn raw e w) ≡ notified id w
  kept-notified turn raw e w = ground arith

  quiet-Justified : (v : World) → notified id v ≡ false → Justified id v
  quiet-Justified v quiet h = absurd (ground arith)

  route-notice :
      (turn : Turn) (raw : Text) (e : Json) (w : World)
      → notified id w ≡ false
      → Justified id (route parse wake_key turn raw e w)
  unfolding route
  route-notice turn raw e w quiet = elim (Bool-cases (is_reliable e)) [
    | inl reliable ↦
        simp reliable
          (submit-notice turn raw e (kept turn raw e w) (kept-notified turn raw e w ∙ quiet))
    | inr loose ↦ simp loose (
        quiet-Justified (deliver parse wake_key turn raw e (kept turn raw e w)) (
          deliver-notified id parse wake_key turn raw e (kept turn raw e w)
          ∙ (kept-notified turn raw e w ∙ quiet)))
  ]

  enter_after-notice :
      (turn : Turn) (raw : Text) (e : Json) (w : World) (looked : Registry × ℕ)
      → notified id w ≡ false
      → Justified id (enter_after parse wake_key turn raw e w looked)
  unfolding enter_after any is_notice
  enter_after-notice turn raw e w (registry, left) quiet =
      let asked : World = record w { cool_downs = registry } in
      elim (Bool-cases (ltb 0 left)) [
        | inl cooling ↦ simp cooling (
            quiet-Justified (emit (closed (refuse_cooling_frame left) ∷ []) asked)
              (ground (arith, emit-notified id (closed (refuse_cooling_frame left) ∷ []) asked)))
        | inr warm ↦ simp warm (
            route-notice turn raw e
              (greet parse wake_key turn e (role_of (get e (codes "from"))) asked)
              (greet-notified id parse wake_key turn e (role_of (get e (codes "from"))) asked
                ∙ quiet))
      ]

  receive_as-notice :
      (turn : Turn) (raw : Text) (e : Json) (w : World) (role : Option Role)
      → notified id w ≡ false
      → Justified id (receive_as parse wake_key turn raw e w role)
  unfolding receive_as enter
  receive_as-notice turn raw e w none quiet = enter_after-notice turn raw e w _ quiet
  receive_as-notice turn raw e w (some role) quiet =
      elim (Bool-cases (is_text (get e (codes "from")) (role_word role))) [
        | inl own ↦ simp own (route-notice turn raw e w quiet)
        | inr other ↦ simp other (quiet-Justified w quiet)
      ]

  acknowledge_as-notified :
      (e : Json) (w : World) (role : Option Role)
      → notified id (acknowledge_as e w role) ≡ notified id w
  unfolding acknowledge_as
  acknowledge_as-notified e w none = refl
  acknowledge_as-notified e w (some role) = refl

  receive_checked-notice :
      (turn : Turn) (raw : Text) (e : Json) (w : World) (problem : Option Problem)
      → notified id w ≡ false
      → Justified id (receive_checked parse wake_key turn raw e w problem)
  unfolding receive_checked receive_valid
  receive_checked-notice turn raw e w none quiet =
      receive_as-notice turn raw e w w.socket.role quiet
  receive_checked-notice turn raw e w (some Problem.expired) quiet =
      quiet-Justified (drop_room_message e DropReason.expired w)
        (drop-notified id e DropReason.expired w ∙ quiet)
  receive_checked-notice turn raw e w (some Problem.invalid) quiet = quiet-Justified w quiet

  receive_envelope-notice :
      (turn : Turn) (raw : Text) (e : Json) (w : World)
      → notified id w ≡ false
      → Justified id (receive_envelope parse wake_key turn raw e w)
  unfolding receive_envelope receive_acknowledgement
  receive_envelope-notice turn raw e w quiet = elim (Bool-cases (is_acknowledgement e)) [
    | inl is ↦ simp is (
        quiet-Justified (acknowledge_as e w w.socket.role)
          (acknowledge_as-notified e w w.socket.role ∙ quiet))
    | inr other ↦ simp other (receive_checked-notice turn raw e w _ quiet)
  ]

  receipt_quiet : (receipt : Option ℕ) → any (is_notice id) (receipt_of receipt) ≡ false
  unfolding any is_notice
  receipt_quiet none = refl
  receipt_quiet (some count) = refl

  note_ingress-notified : (e : Json) (w : World) → notified id (note_ingress e w) ≡ notified id w
  unfolding note_ingress
  note_ingress-notified e w =
      elim (Bool-cases (is_text (get e (codes "type")) (codes "relay.admission"))) [
        | inl is ↦ simp is
        | inr other ↦ simp (other, emit-notified, receipt_quiet, ||-false)
      ]

  receive_parsed-notice :
      (turn : Turn) (raw : Text) (w : World) (parsed : Option Json)
      → notified id w ≡ false
      → Justified id (receive_parsed parse wake_key turn raw w parsed)
  unfolding receive_parsed
  receive_parsed-notice turn raw w none quiet = quiet-Justified w quiet
  receive_parsed-notice turn raw w (some e) quiet =
      receive_envelope-notice turn raw e (note_ingress e w) (note_ingress-notified e w ∙ quiet)

  receive_accepted-notice :
      (turn : Turn) (raw : Text) (w : World) (r : Window × Bool)
      → notified id w ≡ false
      → Justified id (receive_accepted parse wake_key turn raw w r)
  unfolding receive_accepted
  receive_accepted-notice turn raw w (window, true) quiet =
      receive_parsed-notice turn raw _ (parse raw) quiet
  receive_accepted-notice turn raw w (window, false) quiet =
      let counted : World = record w { socket = record w.socket { window = window } } in
      quiet-Justified (close_room_socket turn.accepted_at CloseToken.rate_limit undefined counted)
        (close-notified id turn.accepted_at CloseToken.rate_limit undefined counted ∙ quiet)

  -- A frame on which the room answers `relay.stored` for a delivery id, and had not done so before,
  -- leaves a row with that id in the mailbox of the machine, whatever else the frame made it do.
  pub web_socket_message-stored :
      (turn : Turn) (raw : Text) (w : World)
      → notified id w ≡ false
      → notified id (web_socket_message parse wake_key turn raw w) ≡ true
      → any (has_id id) (rows_of machine (web_socket_message parse wake_key turn raw w).mailboxes)
        ≡ true
  unfolding web_socket_message
  web_socket_message-stored turn raw w quiet =
      elim (Bool-cases (ltb max_websocket_message_bytes (byte_length raw))) [
        | inl large ↦ simp large (
            quiet-Justified (close_room_socket turn.accepted_at CloseToken.oversize undefined w)
              (close-notified id turn.accepted_at CloseToken.oversize undefined w ∙ quiet))
        | inr small ↦ simp small (receive_accepted-notice turn raw w _ quiet)
      ]
