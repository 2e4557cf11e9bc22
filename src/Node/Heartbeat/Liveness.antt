-- ===== src/Node/Heartbeat/Liveness.antt =====
-- src/node/heartbeat.js: which peers the sweeps terminate.
use granttap_relay.Prelude.{
  ℕ, ◌+◌, ◌≤◌, ◌≡◌, refl, Bool, true, false, not, ◌&&◌, ◌||◌, List, [], ◌∷◌, arith, leb, ◌==◌, all,
  map,
}
use granttap_relay.Node.Heartbeat.{
  Peer, mark, mark_alive, sweep_peer, heartbeat_sweep, Beat, sweeping, alive, beat, run,
}

all-map :
    (p q : Peer → Bool) (f : Peer → Peer) (peers : List Peer)
    → ((x : Peer) → p x ≡ true → q (f x) ≡ true)
    → all p peers ≡ true
    → all q (map f peers) ≡ true
unfolding all
all-map p q f [] keeps h = refl
all-map p q f (x ∷ peers) keeps h = ground (arith, keeps x, all-map p q f peers keeps)

-- The peer shows a sign of life before each sweep; `heard` tells whether it has since the last.
abbrev pub AllHeard : ℕ → Bool → List Beat → Type 0
AllHeard id heard [] = Unit {0}
AllHeard id heard (sweeping ∷ beats) = (heard ≡ true) × AllHeard id false beats
AllHeard id heard (alive other ∷ beats) = AllHeard id (heard || other == id) beats

-- The peer is not terminated and, if it was heard, not waited for.
abbrev pub is_healthy : ℕ → Bool → Peer → Bool
is_healthy id heard p = not (p.id == id) || not p.terminated && (not heard || not p.awaiting_pong)

abbrev pub is_up : ℕ → Peer → Bool
is_up id p = not (p.id == id) || not p.terminated

abbrev pub is_down : ℕ → Peer → Bool
is_down id p = not (p.id == id) || p.terminated

sweep_peer-healthy :
    (ping_throws : ℕ → Bool) (id : ℕ) (p : Peer)
    → ping_throws id ≡ false
    → is_healthy id true p ≡ true
    → is_healthy id false (sweep_peer ping_throws p) ≡ true
sweep_peer-healthy ping_throws id p quiet h = grind arith

mark-healthy :
    (id other : ℕ) (heard : Bool) (p : Peer)
    → is_healthy id heard p ≡ true
    → is_healthy id (heard || other == id) (mark other p) ≡ true
mark-healthy id other heard p h = grind arith

is_healthy-up :
    (id : ℕ) (heard : Bool) (p : Peer) → is_healthy id heard p ≡ true → is_up id p ≡ true
is_healthy-up id heard p h = ground arith

all-healthy-up :
    (id : ℕ) (heard : Bool) (peers : List Peer)
    → all (is_healthy id heard) peers ≡ true
    → all (is_up id) peers ≡ true
unfolding all
all-healthy-up id heard [] h = refl
all-healthy-up id heard (p ∷ peers) h =
    ground (arith, is_healthy-up id heard p, all-healthy-up id heard peers)

-- A peer that is not terminated, whose ping does not throw and that shows a sign of life before each
-- sweep is not terminated by any run of sweeps and signs of life of any peers.
pub run-healthy :
    (ping_throws : ℕ → Bool) (id : ℕ) (heard : Bool) (beats : List Beat) (peers : List Peer)
    → ping_throws id ≡ false
    → AllHeard id heard beats
    → all (is_healthy id heard) peers ≡ true
    → all (is_up id) (run ping_throws beats peers) ≡ true
unfolding run beat heartbeat_sweep mark_alive
run-healthy ping_throws id heard [] peers quiet a h = all-healthy-up id heard peers h
run-healthy ping_throws id false (sweeping ∷ beats) peers quiet a h = absurd (ground arith)
run-healthy ping_throws id true (sweeping ∷ beats) peers quiet a h =
    run-healthy ping_throws id false beats (heartbeat_sweep ping_throws peers) quiet a.1 (
      all-map (is_healthy id true) (is_healthy id false) (sweep_peer ping_throws) peers
        (λ p. sweep_peer-healthy ping_throws id p quiet) h)
run-healthy ping_throws id heard (alive other ∷ beats) peers quiet a h =
    run-healthy ping_throws id (heard || other == id) beats (mark_alive other peers) quiet a (
      all-map (is_healthy id heard) (is_healthy id (heard || other == id)) (mark other) peers
        (mark-healthy id other heard) h)

abbrev pub sweeps : List Beat → ℕ
sweeps [] = 0
sweeps (sweeping ∷ beats) = 1 + sweeps beats
sweeps (alive _ ∷ beats) = sweeps beats

abbrev pub is_silent : ℕ → List Beat → Bool
is_silent id [] = true
is_silent id (sweeping ∷ beats) = is_silent id beats
is_silent id (alive other ∷ beats) = not (other == id) && is_silent id beats

-- What `n` sweeps without a sign of life leave of the peer.
abbrev is_fading : ℕ → ℕ → Peer → Bool
is_fading id n p =
    not (p.id == id) || (not (leb 1 n) || p.awaiting_pong) && (not (leb 2 n) || p.terminated)

sweep_peer-fading :
    (ping_throws : ℕ → Bool) (id n : ℕ) (p : Peer)
    → is_fading id n p ≡ true
    → is_fading id (n + 1) (sweep_peer ping_throws p) ≡ true
sweep_peer-fading ping_throws id n p h = ground arith

mark-fading :
    (id other n : ℕ) (p : Peer)
    → (other == id) ≡ false
    → is_fading id n p ≡ true
    → is_fading id n (mark other p) ≡ true
mark-fading id other n p ne h = grind arith

all-fading-down :
    (id n : ℕ) (peers : List Peer)
    → 2 ≤ n
    → all (is_fading id n) peers ≡ true
    → all (is_down id) peers ≡ true
unfolding all
all-fading-down id n [] two h = refl
all-fading-down id n (p ∷ peers) two h = ground (arith, all-fading-down id n peers)

run-fading :
    (ping_throws : ℕ → Bool) (id n : ℕ) (beats : List Beat) (peers : List Peer)
    → is_silent id beats ≡ true
    → 2 ≤ n + sweeps beats
    → all (is_fading id n) peers ≡ true
    → all (is_down id) (run ping_throws beats peers) ≡ true
unfolding run beat heartbeat_sweep mark_alive
run-fading ping_throws id n [] peers silent two h = all-fading-down id n peers (omega arith) h
run-fading ping_throws id n (sweeping ∷ beats) peers silent two h =
    run-fading ping_throws id (n + 1) beats (heartbeat_sweep ping_throws peers) silent (omega arith)
      (all-map (is_fading id n) (is_fading id (n + 1)) (sweep_peer ping_throws) peers
        (sweep_peer-fading ping_throws id n) h)
run-fading ping_throws id n (alive other ∷ beats) peers silent two h =
    run-fading ping_throws id n beats (mark_alive other peers) (ground arith) two (
      all-map (is_fading id n) (is_fading id n) (mark other) peers
        (λ p. mark-fading id other n p (ground arith)) h)

all-start : (id : ℕ) (peers : List Peer) → all (is_fading id 0) peers ≡ true
unfolding all
all-start id [] = refl
all-start id (p ∷ peers) = ground (arith, all-start id peers)

-- A peer that shows no sign of life over two sweeps is terminated, whatever the other peers do.
pub run-silent :
    (ping_throws : ℕ → Bool) (id : ℕ) (beats : List Beat) (peers : List Peer)
    → is_silent id beats ≡ true
    → 2 ≤ sweeps beats
    → all (is_down id) (run ping_throws beats peers) ≡ true
run-silent ping_throws id beats peers silent two =
    run-fading ping_throws id 0 beats peers silent (omega arith) (all-start id peers)
