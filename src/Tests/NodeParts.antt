-- ===== src/Tests/NodeParts.antt =====
-- src/node/socketDelivery/index.js, src/node/heartbeat.js and the mailboxes of src/node/store.js at
-- concrete inputs.
use granttap_relay.Prelude.{
  ℕ, ◌≡◌, refl, Bool, true, false, List, [], ◌∷◌, Option, none, some, arith, Text, codes, all, any,
  filter, sum_by, text_eq, byte_length, starts_with,
}
use granttap_relay.Relay.Policy.{QueueResult}
use granttap_relay.Relay.Submissions.{
  machine, is_durable_submission, submission_retention_limits, retain_submission, evict,
  splice_removable, row_bytes,
}
use granttap_relay.Sockets.Delivery.{
  Event, sending, closing, takes, throws, new_delivery, send, release, launch, exceeds_budget, step,
  run,
}
use granttap_relay.Sockets.Delivery.Budget.{IsBalanced, run-IsBalanced}
use granttap_relay.Node.Heartbeat.{
  Peer, Beat, sweeping, alive, heartbeat_interval_from, heartbeat_interval_from-bounds,
  heartbeat_sweep, mark_alive, beat,
}
use granttap_relay.Node.Heartbeat.Liveness.{is_up, is_down, run-healthy, run-silent}
use granttap_relay.Node.Mailbox.{
  Column, enqueue, enqueue_live, write_retained, current, acknowledge, read_queue, Operation,
  enqueueing, acknowledging, reading,
}
use granttap_relay.Node.Mailbox.Survival.{Holds, enqueue_survives}

program : Unit {0}
unfolding send release launch exceeds_budget step run all any filter sum_by text_eq byte_length
    starts_with heartbeat_interval_from heartbeat_sweep mark_alive beat
    granttap_relay.Node.Heartbeat.run enqueue enqueue_live write_retained current acknowledge
    read_queue granttap_relay.Node.Mailbox.step granttap_relay.Node.Mailbox.run
    is_durable_submission submission_retention_limits retain_submission evict splice_removable
    row_bytes
program = tt

abbrev sends : List Event
sends =
    sending true 1 1_000 0 takes
    ∷ sending true 2 500 0 throws
    ∷ sending true 2 700 0 takes
    ∷ closing 1
    ∷ []

pending_left : (run sends new_delivery).pending_bytes ≡ 700
unfolding program
pending_left = refl

new-IsBalanced : IsBalanced new_delivery
unfolding program
new-IsBalanced = record { balance = refl; bound = omega arith }

run-IsBalanced_example : IsBalanced (run sends new_delivery)
run-IsBalanced_example = run-IsBalanced sends new_delivery new-IsBalanced

abbrev no_number : Text → Option ℕ
no_number _ = none

abbrev peers : List Peer
peers =
    record { id = 1; awaiting_pong = false; terminated = false }
    ∷ record { id = 2; awaiting_pong = false; terminated = false }
    ∷ []

abbrev beats : List Beat
beats = sweeping ∷ alive 1 ∷ sweeping ∷ []

abbrev ping_works : ℕ → Bool
ping_works _ = false

run-healthy_example :
    all (is_up 1) (granttap_relay.Node.Heartbeat.run ping_works beats peers) ≡ true
unfolding program
run-healthy_example = run-healthy ping_works 1 true beats peers refl (refl, (refl, tt)) refl

run-silent_example :
    all (is_down 2) (granttap_relay.Node.Heartbeat.run ping_works beats peers) ≡ true
run-silent_example = run-silent ping_works 2 beats peers refl (omega arith)

abbrev message : Text
message = codes "{}"

abbrev message_id : Text
message_id = codes "user-message-1"

abbrev later_traffic : List (ℕ × Operation)
later_traffic =
    (20, enqueueing message (codes "attachment-2") none)
    ∷ (30, acknowledging (codes "attachment-2"))
    ∷ (40, reading)
    ∷ []

message_stored : (enqueue machine message message_id (some 100) 10 (some [])).1 ≡ QueueResult.stored
unfolding program
message_stored = refl

message_durable : is_durable_submission (some message_id) ≡ true
unfolding program
message_durable = refl

other_id : codes "attachment-2" ≡ message_id → ⊥
unfolding program
other_id e = absurd (cc e)

enqueue_survives_example : Holds message message_id 100 (
    granttap_relay.Node.Mailbox.run machine later_traffic
      (enqueue machine message message_id (some 100) 10 (some [])).0)
enqueue_survives_example =
    enqueue_survives message message_id 100 message_durable machine 10 (some []) later_traffic
      message_stored (omega arith, (omega arith, other_id, (omega arith, tt)))
