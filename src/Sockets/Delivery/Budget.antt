-- ===== src/Sockets/Delivery/Budget.antt =====
-- src/node/socketDelivery/index.js: the counter is the sum of the frames in flight, within its bound.
use granttap_relay.Prelude.{
  ℕ, ◌+◌, ◌≤◌, ◌≡◌, refl, Bool, true, false, not, List, [], ◌∷◌, arith, filter, sum_by, Bool-cases,
  inl, inr,
}
use granttap_relay.Sockets.Delivery.{
  max_pending_bytes, Flight, Delivery, Transport, takes, throws, exceeds_budget, launch, is_number,
  is_socket, release, send, Event, sending, completing, closing, step, run,
}

abbrev pub bytes_of : List Flight → ℕ
bytes_of flights = sum_by (λ f. f.bytes) flights

-- The counter of pending bytes is right, and within its bound.
pub record IsBalanced (s : Delivery) : Type 0 where
  pub balance : s.pending_bytes ≡ bytes_of s.flights
  pub bound : s.pending_bytes ≤ max_pending_bytes

bytes-filter :
    (test : Flight → Bool) (flights : List Flight)
    → bytes_of (filter test flights) + bytes_of (filter (λ f. not (test f)) flights)
      ≡ bytes_of flights
unfolding filter sum_by
bytes-filter test [] = refl
bytes-filter test (f ∷ flights) = ground (arith, bytes-filter test flights)

release-IsBalanced :
    (test : Flight → Bool) (s : Delivery) → IsBalanced s → IsBalanced (release test s)
unfolding release
release-IsBalanced test s b = record {
  balance = omega (arith, bytes-filter test s.flights, b.balance);
  bound = omega (arith, b.bound);
}

launch-IsBalanced :
    (socket bytes : ℕ) (s : Delivery)
    → s.pending_bytes + bytes ≤ max_pending_bytes
    → IsBalanced s
    → IsBalanced (launch socket bytes s)
unfolding launch sum_by
launch-IsBalanced socket bytes s room b = record {
  balance = omega (arith, b.balance);
  bound = room;
}

send-IsBalanced :
    (is_open : Bool) (socket bytes buffered : ℕ) (transport : Transport) (s : Delivery)
    → IsBalanced s
    → IsBalanced (send is_open socket bytes buffered transport s).0
unfolding send exceeds_budget
send-IsBalanced false socket bytes buffered transport s b = b
send-IsBalanced true socket bytes buffered takes s b =
    elim (Bool-cases (exceeds_budget buffered bytes s.pending_bytes)) [
      | inl e ↦ rw (e, send) b
      | inr e ↦ rw (e, send) (launch-IsBalanced socket bytes s (ground arith) b)
    ]
send-IsBalanced true socket bytes buffered throws s b =
    elim (Bool-cases (exceeds_budget buffered bytes s.pending_bytes)) [
      | inl e ↦ rw (e, send) b
      | inr e ↦
          rw (e, send)
            (release-IsBalanced (is_number s.sends) (launch socket bytes s)
              (launch-IsBalanced socket bytes s (ground arith) b))
    ]

step-IsBalanced : (e : Event) (s : Delivery) → IsBalanced s → IsBalanced (step e s)
unfolding step
step-IsBalanced (sending is_open socket bytes buffered transport) s b =
    send-IsBalanced is_open socket bytes buffered transport s b
step-IsBalanced (completing number) s b = release-IsBalanced (is_number number) s b
step-IsBalanced (closing socket) s b = release-IsBalanced (is_socket socket) s b

-- Whatever is sent, completed, failed or closed, and in whatever order, the counter of pending bytes
-- stays the sum of the frames in flight and never exceeds 64 MiB, if it was so at the start.
pub run-IsBalanced : (events : List Event) (s : Delivery) → IsBalanced s → IsBalanced (run events s)
unfolding run
run-IsBalanced [] s b = b
run-IsBalanced (e ∷ events) s b = run-IsBalanced events (step e s) (step-IsBalanced e s b)
