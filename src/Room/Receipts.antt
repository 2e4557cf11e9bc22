-- ===== src/Room/Receipts.antt =====
-- src/relay/room.js: which frames make the room send `relay.stored`, and for what it does.
use granttap_relay.Prelude.{
  ℕ, ◌≡◌, refl, ap, sym, ◌∙◌, Bool, true, false, ◌&&◌, ◌||◌, List, [], ◌∷◌, map, Option, some,
  arith, if◌then◌else◌, get_or, any, any-append, filter, Text, codes, text_eq, text_eq→eq,
  Bool-cases, inl, inr,
}
use granttap_relay.Relay.Json.{Json, string, get, is_text, to_text}
use granttap_relay.Relay.Submissions.{Role, machine, phone, is_durable_submission}
use granttap_relay.Relay.Policy.{CloseToken, DropReason, QueueOutcome, QueueResult, queue_outcome}
use granttap_relay.Relay.Mailbox.{Storage, queue}
use granttap_relay.Wakes.{WakeState}
use granttap_relay.Room.{
  Socket, Device, World, Turn, Effect, frame, stored_notice, dropped_notice, presence_to, forward,
  emit, role_of, close_room_socket, drop_room_message, note_presence, tell_presence, reads_presence,
}
use granttap_relay.Room.Frames.{
  expiry, offers, is_submission, is_true, forward_all, wake_effects, flush, greet, deliver,
  after_queue, submit,
}
use granttap_relay.Room.Phases.{id_of}

-- `relay.stored` for this delivery id
unfoldable pub is_notice : Text → Effect → Bool
is_notice id (stored_notice own) = text_eq own id
is_notice id (frame _) = false
is_notice id _ = false

any-map {ℓ} :
    {A : Type ℓ} (p : Effect → Bool) (f : A → Effect) (xs : List A)
    → ((x : A) → p (f x) ≡ false)
    → any p (map f xs) ≡ false
unfolding any
any-map p f [] h = refl
any-map p f (x ∷ xs) h = ground (arith, h x, any-map p f xs h)

pub ||-false : (b : Bool) → (b || false) ≡ b
||-false b = ground arith

submission_parts :
    (quiet control from_phone to_machine durable same : Bool)
    → quiet ≡ false
    → (quiet || (control && from_phone && to_machine && durable) && same) ≡ true
    → (to_machine ≡ true) × (same ≡ true)
submission_parts quiet control from_phone to_machine durable same e h = ground arith

abbrev pub queued : Turn → Text → Json → World → Storage × QueueResult
queued turn raw e w =
    queue (role_of (get e (codes "to"))) raw (id_of e) (expiry (get e (codes "expiresAt")))
      turn.queued_at w.mailboxes

module _ (id : Text) where
  answer-notice :
      (own : Text) (told : Bool)
      → any (is_notice id) (if told then stored_notice own ∷ [] else []) ≡ (told && text_eq own id)
  unfolding any is_notice
  answer-notice own true = ||-false (text_eq own id)
  answer-notice own false = refl

  abbrev pub notified : World → Bool
  notified w = any (is_notice id) w.effects

  pub emit-notified :
      (effects : List Effect) (w : World)
      → notified (emit effects w) ≡ (notified w || any (is_notice id) effects)
  unfolding emit
  emit-notified effects w = any-append (is_notice id) w.effects effects

  presence_quiet :
      (devices : List Device) (peers : List Socket)
      → any (is_notice id) (tell_presence devices peers) ≡ false
  unfolding is_notice tell_presence
  presence_quiet devices peers =
      any-map (is_notice id) (λ peer. presence_to peer devices) (filter reads_presence peers)
        (λ x. refl)

  forward_quiet :
      (raw : Text) (targets : List Socket) → any (is_notice id) (forward_all raw targets) ≡ false
  unfolding is_notice forward_all
  forward_quiet raw targets =
      any-map (is_notice id) (λ target. forward target raw) targets (λ x. refl)

  wake_quiet : (s : WakeState) (sent : Option ℕ) → any (is_notice id) (wake_effects s sent) ≡ false
  unfolding is_notice wake_effects any
  wake_quiet s sent = ground arith

  frames_quiet : (texts : List Text) → any (is_notice id) (map frame texts) ≡ false
  unfolding is_notice
  frames_quiet texts = any-map (is_notice id) frame texts (λ x. refl)

  offers_quiet : (role : Role) (w : World) → any (is_notice id) (offers role w) ≡ false
  unfolding is_notice any
  offers_quiet machine w = ground arith
  offers_quiet phone w = refl

  pub close-notified :
      (now : ℕ) (token : CloseToken) (e : Json) (w : World)
      → notified (close_room_socket now token e w) ≡ notified w
  unfolding close_room_socket any is_notice
  close-notified now token e w = rw emit-notified (||-false _)

  pub drop-notified :
      (e : Json) (reason : DropReason) (w : World)
      → notified (drop_room_message e reason w) ≡ notified w
  unfolding drop_room_message any is_notice
  drop-notified e reason w = ground (
    arith,
    emit-notified (dropped_notice (get_or (to_text (get e (codes "deliveryId"))) []) reason ∷ []) w,
  )

  note_presence-notified : (now : ℕ) (w : World) → notified (note_presence now w) ≡ notified w
  unfolding note_presence
  note_presence-notified now w = rw (emit-notified, presence_quiet) (||-false _)

  module _ (parse : Text → Option Json) (wake_key : Json → Text) where
    pub greet-notified :
        (turn : Turn) (e : Json) (role : Role) (w : World)
        → notified (greet parse wake_key turn e role w) ≡ notified w
    unfolding greet flush
    greet-notified turn e role w =
        rw
          (
            emit-notified, emit-notified, emit-notified, offers_quiet, frames_quiet, frames_quiet,
            note_presence-notified,
          )
          (ground arith)

    pub deliver-notified :
        (turn : Turn) (raw : Text) (e : Json) (w : World)
        → notified (deliver parse wake_key turn raw e w) ≡ notified w
    unfolding deliver
    deliver-notified turn raw e w =
        elim (Bool-cases
          (is_text (get e (codes "to")) (codes "phone") && is_true (get e (codes "wake")))) [
            | inl wakes ↦ simp (wakes, emit-notified, forward_quiet, wake_quiet, ||-false)
            | inr still ↦ simp (still, emit-notified, forward_quiet, ||-false)
          ]

    forwarded-notified :
        (turn : Turn) (raw : Text) (e : Json) (own : Text) (w : World)
        → notified (after_queue parse wake_key turn raw e own QueueOutcome.forward w)
          ≡ (notified w || (is_submission e own w && text_eq own id))
    unfolding after_queue
    forwarded-notified turn raw e own w =
        let answer : List Effect = if is_submission e own w then stored_notice own ∷ [] else [] in
        deliver-notified turn raw e (emit answer w)
        ∙ (emit-notified answer w
            ∙ ap (λ b. notified w || b) (answer-notice own (is_submission e own w)))

    pub after_queue-notice :
        (turn : Turn) (raw : Text) (e : Json) (own : Text) (outcome : QueueOutcome) (w : World)
        → notified w ≡ false
        → notified (after_queue parse wake_key turn raw e own outcome w) ≡ true
        → (outcome ≡ QueueOutcome.forward)
          × (is_text (get e (codes "to")) (codes "machine") ≡ true)
          × (text_eq own id ≡ true)
    unfolding after_queue
    after_queue-notice turn raw e own (QueueOutcome.close token) w quiet h =
        absurd (ground (arith, close-notified turn.queued_at token e w))
    after_queue-notice turn raw e own (QueueOutcome.drop reason) w quiet h =
        absurd (ground (arith, drop-notified e reason w))
    after_queue-notice turn raw e own QueueOutcome.forward w quiet h =
        let both : (notified w || (is_submission e own w && text_eq own id)) ≡ true =
          sym (forwarded-notified turn raw e own w) ∙ h in
        let parts =
          submission_parts (notified w) w.socket.relay_control
            (is_text (get e (codes "from")) (codes "phone")) _ (is_durable_submission (some own)) _
            quiet both in
        (refl, parts.0, parts.1)

    pub submit-queued :
        (turn : Turn) (raw : Text) (e : Json) (w : World)
        → turn.queue_throws ≡ false
        → submit parse wake_key turn raw e (id_of e) w
          ≡ after_queue parse wake_key turn raw e
              (id_of e)
              (queue_outcome (queued turn raw e w).1 (some (id_of e)))
              (record w { mailboxes = (queued turn raw e w).0 })
    unfolding submit
    submit-queued turn raw e w fine = simp fine

    pub submit_thrown :
        (turn : Turn) (raw : Text) (e : Json) (w : World)
        → turn.queue_throws ≡ true
        → submit parse wake_key turn raw e (id_of e) w
          ≡ drop_room_message e DropReason.storage_unavailable w
    unfolding submit
    submit_thrown turn raw e w thrown = simp thrown

pub role_of-machine : (word : Json) → is_text word (codes "machine") ≡ true → role_of word ≡ machine
unfolding role_of text_eq
role_of-machine (string s) h = rw (text_eq→eq s (codes "machine") h, role_of) refl
role_of-machine _ h = absurd (ground arith)
