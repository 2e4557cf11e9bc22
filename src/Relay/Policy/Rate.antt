-- ===== src/Relay/Policy/Rate.antt =====
-- src/relay/connectionPolicy.js, `acceptSocketFrame`: how many frames of a socket are accepted.
use granttap_relay.Prelude.{
  ℕ, ◌+◌, ◌-◌, ◌*◌, ◌/◌, ◌≤◌, ◌<◌, List, [], ◌∷◌, none, some, arith, if◌then◌else◌, Bool-cases, inl,
  inr,
}
use granttap_relay.Relay.Policy.{Window, in_window, accept_socket_frame}

-- The number of frames accepted of those that arrive at the given times.
unfoldable pub accepted : ℕ → Window → List ℕ → ℕ
accepted limit w [] = 0
accepted limit w (now ∷ times) =
    let (w', taken) = accept_socket_frame w now limit in
    (if taken then 1 else 0) + accepted limit w' times

abbrev pub AllBetween : ℕ → ℕ → List ℕ → Type 0
AllBetween low high [] = Unit {0}
AllBetween low high (t ∷ ts) = (low ≤ t) × (t < high) × AllBetween low high ts

mul-le : (l a b : ℕ) → a ≤ b → l * a ≤ l * b
mul-le l a b h = grind arith

-- A window that is open at `start` takes what is left of its limit, and each later one its limit.
accepted-open :
    (limit low high start messages : ℕ) (times : List ℕ)
    → AllBetween low high times
    → accepted limit (record { started_at = some start; messages = messages }) times
      ≤ (limit - messages) + limit * ((high - 1 - start) / 1_000)
unfolding accepted accept_socket_frame
accepted-open limit low high start messages [] h = omega arith
accepted-open limit low high start messages (t ∷ ts) h =
    elim (Bool-cases (in_window (some start) t)) [
      | inl e ↦
          rw (e, accepted, accept_socket_frame)
            (ground (arith, accepted-open limit low high start (messages + 1) ts h.2))
      | inr e ↦
          rw (e, accepted, accept_socket_frame)
            (ground (arith, accepted-open limit low high t 1 ts h.2, next (ground arith)))
    ]
  where
    next :
        start + 1_000 ≤ t
        → limit * ((high - 1 - t) / 1_000 + 1) ≤ limit * ((high - 1 - start) / 1_000)
    next later = mul-le limit _ _ (omega (arith, h.1))

-- If the frames of a socket without an open window all arrive within a span of `k` seconds, at most `k`
-- times the limit of them are accepted.
pub accepted-le :
    (limit low k messages : ℕ) (times : List ℕ)
    → AllBetween low (low + 1_000 * k) times
    → accepted limit (record { started_at = none; messages = messages }) times ≤ limit * k
unfolding accepted accept_socket_frame
accepted-le limit low k messages [] h = omega arith
accepted-le limit low k messages (t ∷ ts) h =
    ground (arith, accepted-open limit low (low + 1_000 * k) t 1 ts h.2, within)
  where
    within : limit * ((low + 1_000 * k - 1 - t) / 1_000 + 1) ≤ limit * k
    within = mul-le limit _ _ (omega (arith, h.0, h.1))
