-- ===== src/Wakes/Attempts.antt =====
-- src/relay/wakeDelivery.js: a hint is pushed three times at most, and the history is bounded.
use granttap_relay.Prelude.{
  ℕ, ◌+◌, ◌-◌, ◌*◌, ◌≤◌, ◌≡◌, refl, Bool, true, false, List, [], ◌∷◌, Option, none, some, arith,
  if◌then◌else◌, length, Text,
}
use granttap_relay.Wakes.{
  WakeState, PendingWake, max_attempts, due, settle, SendResult, accepted, failed, stopped,
  send_due, request, noted, Event, requesting, draining, step, run, add_time, Notice, sent_at,
  after_request,
}

-- The pushes that the pending hint may still cause.
abbrev attempts_left : Option PendingWake → ℕ
attempts_left none = 0
attempts_left (some p) = max_attempts - p.attempts

abbrev pub left : WakeState → ℕ
left s = attempts_left s.pending

abbrev state : List (Text × ℕ) → Option PendingWake → Option ℕ → Option ℕ → WakeState
state recent pending next last = record {
  recent = recent;
  pending = pending;
  next_at = next;
  last_sent_at = last;
}

send_due-left-cases :
    (now : ℕ) (result : SendResult) (recent : List (Text × ℕ)) (pending : Option PendingWake)
    (next last : Option ℕ)
    → (if (send_due now result (state recent pending next last)).1 then 1 else 0)
        + left (send_due now result (state recent pending next last)).0
      ≤ attempts_left pending
unfolding send_due due settle
send_due-left-cases now result recent none next last = omega arith
send_due-left-cases now accepted recent (some p) next last = ground arith
send_due-left-cases now failed recent (some p) next last = ground arith
send_due-left-cases now stopped recent (some p) next last = ground arith

send_due-left :
    (now : ℕ) (result : SendResult) (s : WakeState)
    → (if (send_due now result s).1 then 1 else 0) + left (send_due now result s).0 ≤ left s
send_due-left now result s =
    send_due-left-cases now result s.recent s.pending s.next_at s.last_sent_at

-- How many of the events are requests.
abbrev pub requests : List (ℕ × Event) → ℕ
requests [] = 0
requests ((_, requesting _ _ _ _) ∷ events) = 1 + requests events
requests ((_, draining _) ∷ events) = requests events

request-left :
    (key : Text) (expires_at : Option ℕ) (now : ℕ) (s : WakeState)
    → left (request key expires_at now s).0 ≤ left s + max_attempts
unfolding request noted
request-left key expires_at now s = ground arith

-- What a step that sent or did not send adds to the times of the pushes.
abbrev pushes : Option ℕ → ℕ
pushes none = 0
pushes (some at) = 1

length-add_time :
    (sent : Option ℕ) (times : List ℕ) → length (add_time sent times) ≡ pushes sent + length times
length-add_time none times = omega arith
length-add_time (some at) times = omega arith

sent_at-left :
    (now : ℕ) (r : WakeState × Bool)
    → pushes (sent_at now r).1 + left (sent_at now r).0 ≡ (if r.1 then 1 else 0) + left r.0
sent_at-left now (s, true) = refl
sent_at-left now (s, false) = refl

after_request-left :
    (now : ℕ) (result : SendResult) (r : WakeState × Notice × Bool)
    → pushes (after_request now result r).1 + left (after_request now result r).0 ≤ left r.0
after_request-left now result (s, notice, true) =
    omega (arith, sent_at-left now (send_due now result s), send_due-left now result s)
after_request-left now result (s, notice, false) = omega arith

step-draining :
    (now : ℕ) (result : SendResult) (s : WakeState)
    → pushes (step (now, draining result) s).1 + left (step (now, draining result) s).0 ≤ left s
unfolding step
step-draining now result s =
    omega (arith, sent_at-left now (send_due now result s), send_due-left now result s)

step-requesting :
    (key : Text) (expires_at : Option ℕ) (now later : ℕ) (result : SendResult) (s : WakeState)
    → pushes (step (now, requesting key expires_at later result) s).1
        + left (step (now, requesting key expires_at later result) s).0
      ≤ left s + max_attempts
unfolding step
step-requesting key expires_at now later result s = omega (
  arith,
  after_request-left later result (request key expires_at now s),
  request-left key expires_at now s,
)

-- However often the room is drained, and whatever the push service answers, there are at most three
-- pushes for each request, besides those that were still due for the hint that was pending.
pub run-requests :
    (events : List (ℕ × Event)) (s : WakeState)
    → length (run events s).1 ≤ left s + max_attempts * requests events
unfolding run
run-requests [] s = omega arith
run-requests ((now, draining result) ∷ events) s = omega (
  arith,
  length-add_time (step (now, draining result) s).1
      (run events (step (now, draining result) s).0).1,
  step-draining now result s,
  run-requests events (step (now, draining result) s).0,
)
run-requests ((now, requesting key expires_at later result) ∷ events) s = omega (
  arith,
  length-add_time (step (now, requesting key expires_at later result) s).1
      (run events (step (now, requesting key expires_at later result) s).0).1,
  step-requesting key expires_at now later result s,
  run-requests events (step (now, requesting key expires_at later result) s).0,
)
