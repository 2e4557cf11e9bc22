-- ===== src/Relay/Closing.antt =====
-- src/relay/connectionPolicy.js, `applyPolicyClose` and `refuseCoolingFrame`, and the decision on an
-- upgrade of src/node/upgrade-gate.js. The identity of an admission ticket, a digest of its fields, is
-- an argument; a ticket whose signature does not verify is none. The registry is taken to be given; log lines are left out.
pub mod Waiting
use granttap_relay.Prelude.{
  ℕ, ◌+◌, ◌/◌, Bool, true, false, not, ◌&&◌, Option, none, some, ltb, leb, if◌then◌else◌, is_some,
  max, Text,
}
use granttap_relay.Relay.Json.{string}
use granttap_relay.Relay.Policy.{CloseToken, ClosePolicy, close_policies}
use granttap_relay.Relay.CoolDown.{Registry, strike, remaining, upgrade_identity}
use granttap_relay.Relay.Routing.{valid_recipient_key_id}

-- `Math.ceil(ms / 1000)`
abbrev pub seconds : ℕ → ℕ
seconds ms = (ms + 999) / 1_000

-- The code and the reason of a close; `retry_after` stands in the reason if it is positive.
pub record Close : Type 0 where
  pub code : ℕ
  pub token : CloseToken
  pub retry_after : Option ℕ

unfoldable pub close_with : CloseToken → ℕ → Close
close_with token backoff_ms = record {
  code = (close_policies token).code;
  token = token;
  retry_after = if ltb 0 backoff_ms then some (seconds backoff_ms) else none;
}

unfoldable pub apply_policy_close : CloseToken → Option Text → ℕ → Registry → Registry × Close
unfolding close_with
apply_policy_close token none now r = (r, close_with token 0)
apply_policy_close token (some identity) now r =
    if (close_policies token).cool_down
    then (let struck = strike r identity (close_policies token).admission now in
        (struck.0, close_with token struck.1))
    else (r, close_with token 0)

unfoldable pub refuse_cooling_frame : ℕ → Close
refuse_cooling_frame remaining_ms = record {
  code = (close_policies CloseToken.cool_down).code;
  token = CloseToken.cool_down;
  retry_after = some (max 1 (seconds remaining_ms));
}

pub data Refusal : Type 0 where
  unauthorized admission_invalid recipient_invalid room_full : Refusal
  cooling : ℕ → Refusal

pub record Upgrade : Type 0 where
  pub authorized : Bool
  pub admission_required : Bool
  pub has_ticket_header : Bool
  -- The identity of the ticket that was verified.
  pub ticket : Option Text
  pub room : Option Text
  pub recipient_key_id : Option Text
  pub room_size : ℕ
  pub max_room_sockets : ℕ

abbrev pub accepts_recipient : Option Text → Bool
accepts_recipient none = true
accepts_recipient (some id) = valid_recipient_key_id (string id)

-- A verified ticket clears the cool-down of admission closes.
abbrev pub clear_legacy : Upgrade → ℕ → Registry → Registry
clear_legacy u now r = elim u.ticket [
  | none ↦ r
  | some _ ↦ (remaining r (upgrade_identity u.room u.recipient_key_id) true now).0
]

abbrev pub waiting_identity : Upgrade → Option Text
waiting_identity u = elim u.ticket [
  | none ↦ upgrade_identity u.room u.recipient_key_id
  | some identity ↦ some identity
]

abbrev pub admit : Upgrade → Registry × ℕ → Registry × Option Refusal
admit u (r, wait_ms) =
    if ltb 0 wait_ms
    then (r, some (cooling (max 1 (seconds wait_ms))))
    else if leb u.max_room_sockets u.room_size
    then (r, some room_full)
    else (r, none)

unfoldable pub upgrade_refusal : Upgrade → ℕ → Registry → Registry × Option Refusal
upgrade_refusal u now r =
    if not u.authorized
    then (r, some unauthorized)
    else if u.admission_required && u.has_ticket_header && not (is_some u.ticket)
    then (r, some admission_invalid)
    else if not (accepts_recipient u.recipient_key_id)
    then (r, some recipient_invalid)
    else admit u (remaining (clear_legacy u now r) (waiting_identity u) (is_some u.ticket) now)
