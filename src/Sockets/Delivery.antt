-- ===== src/Sockets/Delivery.antt =====
-- src/node/socketDelivery/index.js: the bytes that wait for slow receivers. A flight is a frame that
-- was handed to a socket and is not released; the completion of a send and the close of a socket
-- release it once. Frames get their number in the order of the sends.
pub mod Budget
use granttap_relay.Prelude.{
  ℕ, ◌+◌, ◌-◌, ◌*◌, ◌^◌, Bool, true, false, not, ◌&&◌, ◌||◌, List, [], ◌∷◌, ◌++◌, ltb, ◌==◌,
  if◌then◌else◌, filter, sum_by, max,
}

abbrev pub max_buffered_bytes : ℕ
max_buffered_bytes = 4 * 1_024 ^ 2

abbrev pub max_pending_bytes : ℕ
max_pending_bytes = 64 * 1_024 ^ 2

pub record Flight : Type 0 where
  pub socket : ℕ
  pub number : ℕ
  pub bytes : ℕ

pub record Delivery : Type 0 where
  pub pending_bytes : ℕ
  pub flights : List Flight
  pub sends : ℕ

abbrev pub new_delivery : Delivery
new_delivery = record { pending_bytes = 0; flights = []; sends = 0 }

-- What `socket.send` does with a frame: it takes it, or throws.
pub data Transport : Type 0 where
  takes throws : Transport

pub data SendAnswer : Type 0 where
  closed backpressure failed sent : SendAnswer

-- One large frame may pass an empty socket, but none behind another.
unfoldable pub exceeds_budget : ℕ → ℕ → ℕ → Bool
exceeds_budget buffered bytes pending =
    ltb 0 buffered && ltb (max max_buffered_bytes bytes) (buffered + bytes)
    || ltb max_pending_bytes (pending + bytes)

unfoldable pub launch : ℕ → ℕ → Delivery → Delivery
launch socket bytes s = record {
  pending_bytes = s.pending_bytes + bytes;
  flights = record { socket = socket; number = s.sends; bytes = bytes } ∷ s.flights;
  sends = s.sends + 1;
}

abbrev pub is_number : ℕ → Flight → Bool
is_number number f = f.number == number

abbrev pub is_socket : ℕ → Flight → Bool
is_socket socket f = f.socket == socket

-- The releases of the flights that the test tells; each takes its bytes from the sum once.
unfoldable pub release : (Flight → Bool) → Delivery → Delivery
unfolding filter sum_by
release test s = record s {
  pending_bytes = s.pending_bytes - sum_by (λ f. f.bytes) (filter test s.flights);
  flights = filter (λ f. not (test f)) s.flights;
}

unfoldable pub send : Bool → ℕ → ℕ → ℕ → Transport → Delivery → Delivery × SendAnswer
unfolding exceeds_budget launch release
send is_open socket bytes buffered transport s =
    if not is_open
    then (s, closed)
    else if exceeds_budget buffered bytes s.pending_bytes
    then (s, backpressure)
    else elim transport [
      | takes ↦ (launch socket bytes s, sent)
      | throws ↦ (release (is_number s.sends) (launch socket bytes s), failed)
    ]

pub data Event : Type 0 where
  sending : Bool → ℕ → ℕ → ℕ → Transport → Event
  completing : ℕ → Event
  closing : ℕ → Event

unfoldable pub step : Event → Delivery → Delivery
unfolding send release
step (sending is_open socket bytes buffered transport) s =
    (send is_open socket bytes buffered transport s).0
step (completing number) s = release (is_number number) s
step (closing socket) s = release (is_socket socket) s

unfoldable pub run : List Event → Delivery → Delivery
unfolding step
run [] s = s
run (e ∷ events) s = run events (step e s)
