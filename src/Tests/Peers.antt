-- ===== src/Tests/Peers.antt =====
-- src/responseAcknowledgements/index.js, src/ingressFlow/index.js, src/roomPresence/index.js and
-- src/relay/wakeDelivery.js at concrete inputs.
use granttap_relay.Prelude.{
  ℕ, ◌+◌, ◌*◌, ◌≤◌, ◌≡◌, refl, true, List, [], ◌∷◌, Option, none, some, arith, length, Text, codes,
  text_eq, filter, all, any, take_last, is_hex_text, byte_length,
}
use granttap_relay.Relay.Json.{Json, string, object, end, field, get, lookup}
use granttap_relay.Sockets.Allowances.{
  issue, consume, consume_id, frame_id, acknowledged_id, count_keys, expiry_of, remove,
}
use granttap_relay.Sockets.Allowances.Counting.{Event, issuing, consuming, run, run-balance}
use granttap_relay.Sockets.Ingress.{note_ingress_frame, note_frames, multiples}
use granttap_relay.Sockets.Presence.{
  Seen, IsPresence, accepted_identity, update_presence, update_presence-IsPresence,
}
use granttap_relay.Wakes.{
  WakeState, initial, max_attempts, accepted, failed, stopped, requesting, draining, step, due,
  settle, send_due, request, noted,
}
use granttap_relay.Wakes.Spacing.{Spaced, run-Spaced}
use granttap_relay.Wakes.Attempts.{left, requests, run-requests}

program : Unit {0}
unfolding issue consume consume_id frame_id acknowledged_id count_keys expiry_of remove run get
    lookup text_eq filter all any note_ingress_frame note_frames multiples accepted_identity
    update_presence take_last is_hex_text byte_length step due settle send_due request noted
    granttap_relay.Wakes.run
program = tt

abbrev acknowledgement : Json
acknowledgement = object (
    field (codes "type") (string (codes "relay.ack"))
      (field (codes "deliveryId") (string (codes "d1")) end))

abbrev parse : Text → Option Json
parse _ = some acknowledgement

abbrev traffic : List (ℕ × Event)
traffic =
    (0, issuing (some (codes "d1")))
    ∷ (10, consuming (codes "{}"))
    ∷ (20, consuming (codes "{}"))
    ∷ []

-- The second acknowledgement of a delivery is refused.
traffic_end : run parse traffic [] ≡ ([], 1, 1)
unfolding program
traffic_end = refl

run-balance_example :
    (run parse traffic []).2 + length (run parse traffic []).0
    ≤ length {A = Text × ℕ} [] + (run parse traffic []).1
run-balance_example = run-balance parse traffic []

note_frames_forty :
    (note_frames 40 (record { ingress_flow = true; ingress_received = some 10 })).1
    ≡ 16 ∷ 32 ∷ 48 ∷ []
unfolding program
note_frames_forty = refl

abbrev phone_row : Seen
phone_row = record { id = codes "aa"; role = codes "phone"; last_seen_at = 500 }

update_presence-IsPresence_example :
    IsPresence 1_000
      (update_presence (phone_row ∷ []) (some (codes "machine")) (some (codes "aa")) 1_000)
unfolding program
update_presence-IsPresence_example =
    update_presence-IsPresence (phone_row ∷ []) (some (codes "machine")) (some (codes "aa")) 1_000
      (omega arith) (refl, tt)

abbrev wakes : List (ℕ × granttap_relay.Wakes.Event)
wakes =
    (0, requesting (codes "k1") none 0 failed)
    ∷ (10, requesting (codes "k2") none 10 failed)
    ∷ (60_000, draining failed)
    ∷ (120_000, draining stopped)
    ∷ (180_000, draining accepted)
    ∷ []

-- The second hint starts the attempts anew; the third of these is the last.
wakes_sent : (granttap_relay.Wakes.run wakes initial).1 ≡ 0 ∷ 60_000 ∷ 120_000 ∷ 180_000 ∷ []
unfolding program
wakes_sent = refl

run-Spaced_example : Spaced none (granttap_relay.Wakes.run wakes initial).1
run-Spaced_example = run-Spaced wakes initial tt

run-requests_example :
    length (granttap_relay.Wakes.run wakes initial).1 ≤ left initial + max_attempts * requests wakes
run-requests_example = run-requests wakes initial
