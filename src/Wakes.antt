-- ===== src/Wakes.antt =====
-- src/relay/wakeDelivery.js: the push hints of one room. `serial` runs one action at a time, so an
-- action is a function of the stored state; the digest of an envelope's identity is an argument, and
-- so is what the push service answered. A process that stops during the send leaves the claimed state.
pub mod Spacing
pub mod Attempts
use granttap_relay.Prelude.{
  ℕ, zero, suc, ◌+◌, ◌*◌, ◌≤◌, ◌≡◌, Bool, true, false, not, ◌&&◌, ◌||◌, List, [], ◌∷◌, ◌++◌, Option,
  none, some, max, min, ltb, leb, if◌then◌else◌, get_or, filter, any, take_last, Text, text_eq,
  length,
}

abbrev pub wake_interval_ms : ℕ
wake_interval_ms = 60_000

abbrev pub wake_history_limit : ℕ
wake_history_limit = 256

abbrev pub default_ttl_ms : ℕ
default_ttl_ms = 15 * 60_000

abbrev pub max_attempts : ℕ
max_attempts = 3

pub record PendingWake : Type 0 where
  pub expires_at : ℕ
  pub attempts : ℕ

pub record WakeState : Type 0 where
  pub recent : List (Text × ℕ)
  pub pending : Option PendingWake
  pub next_at : Option ℕ
  pub last_sent_at : Option ℕ

-- `(await read(room)) ?? {}`
abbrev pub initial : WakeState
initial = record { recent = []; pending = none; next_at = none; last_sent_at = none }

pub data Notice : Type 0 where
  expired duplicate coalesced requested background_complete background_failed : Notice

abbrev expiry_of : Option PendingWake → ℕ
expiry_of none = 0
expiry_of (some p) = p.expires_at

abbrev earliest : ℕ → Option ℕ → ℕ
earliest now none = now
earliest now (some sent) = max now (sent + wake_interval_ms)

abbrev pub live_keys : ℕ → List (Text × ℕ) → List (Text × ℕ)
live_keys now recent = filter (λ item. ltb now item.1) recent

-- The state that a new hint writes.
unfoldable pub noted : Text → ℕ → ℕ → WakeState → WakeState
unfolding filter take_last
noted key expires_at now s = record s {
  recent = take_last wake_history_limit (live_keys now s.recent ++ (key, expires_at) ∷ []);
  pending = some (record { expires_at = max expires_at (expiry_of s.pending); attempts = 0 });
  next_at = some (earliest now s.last_sent_at);
}

-- `request` up to its call of `sendDue`, and whether that call is made.
unfoldable pub request : Text → Option ℕ → ℕ → WakeState → WakeState × Notice × Bool
unfolding noted any
request key envelope_expires_at now s =
    let expires_at = get_or envelope_expires_at (now + default_ttl_ms) in
    if leb expires_at now
    then (s, expired, false)
    else if any (λ item. text_eq item.0 key) (live_keys now s.recent)
    then (s, duplicate, true)
    else (
      noted key expires_at now s,
      if ltb now (earliest now s.last_sent_at) then coalesced else requested,
      true,
    )

-- What `sendDue` does before the send.
pub data Due : Type 0 where
  idle : Due
  lapsed : WakeState → Due
  waiting : Due
  claimed : WakeState → PendingWake → Due

abbrev pub is_later : Option ℕ → ℕ → Bool
is_later none now = false
is_later (some at) now = ltb now at

abbrev pub cleared : WakeState → WakeState
cleared s = record s { pending = none; next_at = none }

abbrev pub claim_of : ℕ → WakeState → PendingWake → WakeState
claim_of now s p = record s {
  last_sent_at = some now;
  next_at = some (now + wake_interval_ms);
  pending = some (record { expires_at = p.expires_at; attempts = p.attempts + 1 });
}

unfoldable pub due : ℕ → WakeState → Due
due now s = elim s.pending [
  | none ↦ idle
  | some p ↦
      if leb p.expires_at now || leb max_attempts p.attempts
      then lapsed (cleared s)
      else if is_later s.next_at now
      then waiting
      else claimed (claim_of now s p)
          (record { expires_at = p.expires_at; attempts = p.attempts + 1 })
]

pub data SendResult : Type 0 where
  accepted failed stopped : SendResult

-- After the send; `stopped` is a process that did not come back from it.
unfoldable pub settle : SendResult → WakeState → PendingWake → WakeState × Option Notice
settle accepted s p = (cleared s, some background_complete)
settle failed s p = (if leb max_attempts p.attempts then cleared s else s, some background_failed)
settle stopped s p = (s, none)

abbrev pub finish_due : SendResult → WakeState → Due → WakeState × Bool
finish_due result s idle = (s, false)
finish_due result s (lapsed s') = (s', false)
finish_due result s waiting = (s, false)
finish_due result s (claimed s' p) = ((settle result s' p).0, true)

-- The new state, and whether a push was sent.
unfoldable pub send_due : ℕ → SendResult → WakeState → WakeState × Bool
unfolding due settle
send_due now result s = finish_due result s (due now s)

-- `nextAt`
unfoldable pub next_wake_at : WakeState → Option ℕ
next_wake_at s = elim s.pending [
  | none ↦ none
  | some p ↦ some (min (get_or s.next_at 0) p.expires_at)
]

pub data Event : Type 0 where
  -- A request, with the time of its `sendDue`.
  requesting : Text → Option ℕ → ℕ → SendResult → Event
  draining : SendResult → Event

abbrev pub Sent : Type 0
Sent = WakeState × Option ℕ

abbrev pub sent_at : ℕ → WakeState × Bool → Sent
sent_at now (s, sent) = (s, if sent then some now else none)

abbrev pub after_request : ℕ → SendResult → WakeState × Notice × Bool → Sent
after_request now result (s, _, true) = sent_at now (send_due now result s)
after_request now result (s, _, false) = (s, none)

unfoldable pub step : ℕ × Event → WakeState → Sent
unfolding send_due request
step (now, requesting key expires_at later result) s =
    after_request later result (request key expires_at now s)
step (now, draining result) s = sent_at now (send_due now result s)

abbrev pub add_time : Option ℕ → List ℕ → List ℕ
add_time none times = times
add_time (some at) times = at ∷ times

-- The times at which pushes were sent.
unfoldable pub run : List (ℕ × Event) → WakeState → WakeState × List ℕ
run [] s = (s, [])
run (e ∷ events) s =
    let (s', sent) = step e s in let rest = run events s' in (rest.0, add_time sent rest.1)
