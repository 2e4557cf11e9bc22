-- ===== src/Relay/Policy.antt =====
-- src/relay/connectionPolicy.js: close policies, what a queue's answer means for the sender's socket
-- and the frame rate window.
pub mod Rate
use granttap_relay.Prelude.{
  ℕ, ◌+◌, ◌-◌, Bool, true, false, Option, none, some, ltb, leb, if◌then◌else◌, Text, codes,
  starts_with,
}
use granttap_relay.Relay.Json.{Json, get, string_and}
use granttap_relay.Relay.Submissions.{is_durable_submission}

pub data CloseToken : Type 0 where
  admission_expired admission_required hub_admission_required admission_renewal_rejected :
      CloseToken
  cool_down rate_limit oversize : CloseToken

pub record ClosePolicy : Type 0 where
  pub code : ℕ
  pub cool_down : Bool
  pub admission : Bool

unfoldable pub close_policies : CloseToken → ClosePolicy
close_policies CloseToken.admission_expired = record {
  code = 4401;
  cool_down = true;
  admission = true;
}
close_policies CloseToken.admission_required = record {
  code = 4403;
  cool_down = true;
  admission = true;
}
close_policies CloseToken.hub_admission_required = record {
  code = 4406;
  cool_down = true;
  admission = true;
}
close_policies CloseToken.admission_renewal_rejected = record {
  code = 4409;
  cool_down = true;
  admission = true;
}
close_policies CloseToken.cool_down = record { code = 4425; cool_down = false; admission = false }
close_policies CloseToken.rate_limit = record { code = 4429; cool_down = true; admission = false }
close_policies CloseToken.oversize = record { code = 1009; cool_down = true; admission = false }

pub data QueueResult : Type 0 where
  stored duplicate oversize expired no_room full : QueueResult

unfoldable pub admission_close_token : Json → CloseToken
admission_close_token envelope =
    if string_and (get envelope (codes "senderId")) (starts_with (codes "hub-"))
    then CloseToken.hub_admission_required
    else CloseToken.admission_required

pub data DropReason : Type 0 where
  oversize full no_room expired storage_unavailable : DropReason

pub data QueueOutcome : Type 0 where
  forward : QueueOutcome
  drop : DropReason → QueueOutcome
  close : CloseToken → QueueOutcome

-- A submission that storage refuses keeps its control socket.
unfoldable pub queue_outcome : QueueResult → Option Text → QueueOutcome
queue_outcome QueueResult.stored id = forward
queue_outcome QueueResult.duplicate id = forward
queue_outcome QueueResult.oversize id =
    if is_durable_submission id then drop DropReason.oversize else close CloseToken.oversize
queue_outcome QueueResult.full id = drop DropReason.full
queue_outcome QueueResult.no_room id = drop DropReason.no_room
queue_outcome QueueResult.expired id = drop DropReason.expired

abbrev pub max_socket_messages_per_second : ℕ
max_socket_messages_per_second = 300

-- `windowStartedAt` is -Infinity, here `none`, before the first frame.
pub record Window : Type 0 where
  pub started_at : Option ℕ
  pub messages : ℕ

-- `now - windowStartedAt < 1000`; a clock that runs backwards stays in the window.
abbrev pub in_window : Option ℕ → ℕ → Bool
in_window none now = false
in_window (some start) now = ltb (now - start) 1_000

unfoldable pub accept_socket_frame : Window → ℕ → ℕ → Window × Bool
accept_socket_frame window now limit =
    let messages = if in_window window.started_at now then window.messages + 1 else 1 in
    let started = if in_window window.started_at now then window.started_at else some now in
    (record { started_at = started; messages = messages }, leb messages limit)
