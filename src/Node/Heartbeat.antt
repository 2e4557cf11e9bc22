-- ===== src/Node/Heartbeat.antt =====
-- src/node/heartbeat.js: the interval's setting, and the sweep over the sockets of all rooms. Whether
-- the ping of a socket throws is a parameter, and so is `Number` on a setting (`none`: no safe integer).
pub mod Liveness
use granttap_relay.Prelude.{
  ℕ, ◌≤◌, ◌≡◌, refl, Bool, true, false, ◌&&◌, ◌||◌, List, [], ◌∷◌, Option, none, some, arith, ltb,
  leb, ◌==◌, if◌then◌else◌, length, filter, any, map, Text, Bool-cases, Option-cases, inl, inr, ◌⊎◌,
}

abbrev pub heartbeat_interval_ms : ℕ
heartbeat_interval_ms = 30_000

abbrev pub min_interval_ms : ℕ
min_interval_ms = 1_000

abbrev pub max_interval_ms : ℕ
max_interval_ms = 120_000

abbrev bounded_interval : Option ℕ → ℕ
bounded_interval none = heartbeat_interval_ms
bounded_interval (some parsed) =
    if parsed == 0
    then 0
    else if leb min_interval_ms parsed && leb parsed max_interval_ms
    then parsed
    else heartbeat_interval_ms

abbrev is_empty : Text → Bool
is_empty [] = true
is_empty (c ∷ text) = false

-- An unset setting is `none`.
unfoldable pub heartbeat_interval_from : (Text → Option ℕ) → Option Text → ℕ
heartbeat_interval_from number none = heartbeat_interval_ms
heartbeat_interval_from number (some value) =
    if is_empty value then heartbeat_interval_ms else bounded_interval (number value)

-- A socket that the sweep visits; a terminated socket stays in the list until its close event.
pub record Peer : Type 0 where
  pub id : ℕ
  pub awaiting_pong : Bool
  pub terminated : Bool

abbrev pub mark : ℕ → Peer → Peer
mark id p = if p.id == id then record p { awaiting_pong = false } else p

unfoldable pub mark_alive : ℕ → List Peer → List Peer
mark_alive id peers = map (mark id) peers

abbrev pub sweep_peer : (ℕ → Bool) → Peer → Peer
sweep_peer ping_throws p =
    if p.awaiting_pong
    then record p { terminated = true }
    else record p { awaiting_pong = true; terminated = p.terminated || ping_throws p.id }

unfoldable pub heartbeat_sweep : (ℕ → Bool) → List Peer → List Peer
heartbeat_sweep ping_throws peers = map (sweep_peer ping_throws) peers

-- A sweep, or a frame or pong of the peer with an id.
pub data Beat : Type 0 where
  sweeping : Beat
  alive : ℕ → Beat

unfoldable pub beat : (ℕ → Bool) → Beat → List Peer → List Peer
unfolding heartbeat_sweep mark_alive
beat ping_throws sweeping peers = heartbeat_sweep ping_throws peers
beat ping_throws (alive id) peers = mark_alive id peers

unfoldable pub run : (ℕ → Bool) → List Beat → List Peer → List Peer
unfolding beat
run ping_throws [] peers = peers
run ping_throws (b ∷ beats) peers = run ping_throws beats (beat ping_throws b peers)

-- The interval is off or between a second and two minutes, whatever the setting is.
pub heartbeat_interval_from-bounds :
    (number : Text → Option ℕ) (value : Option Text)
    → (heartbeat_interval_from number value ≡ 0)
      ⊎ ((1_000 ≤ heartbeat_interval_from number value)
          × (heartbeat_interval_from number value ≤ 120_000))
unfolding heartbeat_interval_from
heartbeat_interval_from-bounds number none = inr (omega arith, omega arith)
heartbeat_interval_from-bounds number (some value) = ground arith
