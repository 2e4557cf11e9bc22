-- ===== src/Tests/Mailboxes.antt =====
-- src/relay/submissionReceipts.js and the mailboxes of src/relay/room.js at concrete inputs.
use granttap_relay.Prelude.{
  ℕ, ◌≡◌, refl, ◌≢◌, Bool, true, inr, List, [], ◌∷◌, Option, none, some, arith, any, filter, Text,
  codes, text_eq, all, sum_by, byte_length,
}
use granttap_relay.Relay.Policy.{QueueResult}
use granttap_relay.Relay.Submissions.{
  Item, machine, phone, kept, full, is_durable_submission, evict, retain_submission, row_bytes,
  splice_removable,
}
use granttap_relay.Relay.Submissions.Retention.{Outcome, retain_submission-Outcome}
use granttap_relay.Relay.Mailbox.{Storage, read, write, new_row, queue, acknowledge, flush_to}
use granttap_relay.Relay.Mailbox.Durability.{
  Operation, queueing, acknowledging, flushing, Holds, step, run, AllSpare,
}
use granttap_relay.Relay.Mailbox.Runs.{queue_survives}
use granttap_relay.Relay.Mailbox.Invariant.{IsValid, run-IsValid}
use granttap_relay.Relay.Mailbox.Delivery.{flush_delivers, queue_repeated}

program : Unit {0}
unfolding queue acknowledge flush_to run step read write row_bytes is_durable_submission
    retain_submission splice_removable any all filter sum_by text_eq byte_length
program = tt

abbrev empty : Storage
empty = record { machine_queue = none; phone_queue = none }

abbrev message : Text
message = codes "{}"

abbrev message_id : Text
message_id = codes "user-message-1"

abbrev all_match : Option Text → Text → Bool
all_match _ _ = true

-- Other traffic, before the message expires at time 100.
abbrev traffic : List (ℕ × Operation)
traffic =
    (2, queueing phone (codes "[]") (codes "delivery-1") none)
    ∷ (3, flushing machine none 5)
    ∷ (4, acknowledging machine (codes "delivery-1"))
    ∷ []

ids_differ : ◌≢◌ {A = Text} (codes "delivery-1") message_id
ids_differ e = ground arith

traffic_spares : AllSpare machine message_id 100 traffic
traffic_spares = (omega arith, (omega arith, ((omega arith, inr ids_differ), tt)))

abbrev one_stored : Storage
one_stored = (queue machine message message_id (some 100) 1 empty).0

was_stored : (queue machine message message_id (some 100) 1 empty).1 ≡ QueueResult.stored
unfolding program
was_stored = refl

is_durable_example : is_durable_submission (some message_id) ≡ true
unfolding is_durable_submission
is_durable_example = refl

queue_survives_example : Holds machine message message_id 100 (run all_match traffic one_stored)
queue_survives_example =
    queue_survives all_match message message_id 100 machine is_durable_example (omega arith)
      (omega arith) 1 empty traffic was_stored traffic_spares

flush_delivers_example :
    any
      (text_eq message)
      (flush_to (all_match none) machine 9 50 (run all_match traffic one_stored)).1
    ≡ true
unfolding program
flush_delivers_example =
    flush_delivers all_match message message_id 100 machine is_durable_example (omega arith)
      (omega arith) 1 empty traffic was_stored traffic_spares none 9 50 refl (omega arith)
      (omega arith)

queue_repeated_example :
    queue machine (codes "{ }") message_id none 60 (run all_match traffic one_stored)
    ≡ (run all_match traffic one_stored, QueueResult.duplicate)
unfolding program
queue_repeated_example =
    queue_repeated all_match message message_id 100 machine is_durable_example (omega arith)
      (omega arith) 1 empty traffic was_stored traffic_spares (codes "{ }") none 60 (omega arith)
      refl (omega arith)

empty-IsValid : IsValid empty
unfolding program
empty-IsValid = record {
  machine_rows = record { count = omega arith; bytes = omega arith; distinct = tt };
  phone_rows = record { count = omega arith; bytes = omega arith; distinct = tt };
}

run-IsValid_example : IsValid (run all_match traffic empty)
run-IsValid_example = run-IsValid all_match traffic empty empty-IsValid

abbrev transient_row : Item
transient_row = new_row (codes "[]") (codes "delivery-1") (some 100) 1

abbrev durable_row : Item
durable_row = new_row message message_id (some 100) 1

-- One place: the transient row gives way to the durable one, and not the other way round.
retain_durable : retain_submission (transient_row ∷ []) durable_row 1 100 ≡ kept (durable_row ∷ [])
unfolding program
retain_durable = refl

retain_refused : retain_submission (durable_row ∷ []) transient_row 1 100 ≡ full (durable_row ∷ [])
unfolding program
retain_refused = refl

retain_submission-Outcome_example :
    (evict 2 (transient_row ∷ []) durable_row 1 100 (transient_row ∷ []) 4
      ≡ some (retain_submission (transient_row ∷ []) durable_row 1 100))
    × Outcome
        (transient_row ∷ [])
        durable_row
        1
        100
        (transient_row ∷ [])
        (some (retain_submission (transient_row ∷ []) durable_row 1 100))
unfolding program
retain_submission-Outcome_example = retain_submission-Outcome (transient_row ∷ []) durable_row 1 100
