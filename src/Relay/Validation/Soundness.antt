-- ===== src/Relay/Validation/Soundness.antt =====
-- src/relay/relayValidation.js: what a deliverable envelope is known to be.
use granttap_relay.Prelude.{
  ℕ, ◌+◌, ◌*◌, ◌≤◌, ◌<◌, ◌≡◌, refl, true, false, not, ◌&&◌, ◌||◌, ◌⊎◌, inl, inr, Option, none, some,
  arith, Text, codes, if◌then◌else◌,
}
use granttap_relay.Relay.Json.{
  Json, undefined, null, boolean, integer, negative, fraction, string, array, object, get,
  is_nullish, is_text, at_most,
}
use granttap_relay.Relay.Validation.{
  has_envelope_shape, valid_retained_state, ttl_limit, envelope_problem, expired, is_role,
  expiry_in_bounds, state_ttl_ms, valid_identifier,
}

abbrev pub IsExpiry : Json → ℕ → ℕ → Type 0
IsExpiry value now limit =
    (is_nullish value ≡ true) ⊎ ((n : ℕ) × (value ≡ integer n) × (now < n) × (n ≤ limit))

IsExpiry-fits :
    (value : Json) (now limit : ℕ)
    → expiry_in_bounds value limit ≡ true
    → (not (is_nullish value) && at_most value now) ≡ false
    → IsExpiry value now limit
IsExpiry-fits undefined now limit h q = inl refl
IsExpiry-fits null now limit h q = inl refl
IsExpiry-fits (boolean b) now limit h q = absurd (ground arith)
IsExpiry-fits (integer n) now limit h q = inr (n, refl, ground arith, ground arith)
IsExpiry-fits (negative n) now limit h q = absurd (ground arith)
IsExpiry-fits fraction now limit h q = absurd (ground arith)
IsExpiry-fits (string s) now limit h q = absurd (ground arith)
IsExpiry-fits (array xs) now limit h q = absurd (ground arith)
IsExpiry-fits (object fs) now limit h q = absurd (ground arith)

passes :
    (e : Json) (room : Text) (now : ℕ) (maximum : Option ℕ)
    → envelope_problem e room now maximum ≡ none
    → (has_envelope_shape e room ≡ true)
      × (valid_retained_state e now ≡ true)
      × (expiry_in_bounds (get e (codes "expiresAt")) (now + ttl_limit e maximum) ≡ true)
      × ((not (is_nullish (get e (codes "expiresAt"))) && at_most (get e (codes "expiresAt")) now)
          ≡ false)
unfolding envelope_problem
passes e room now maximum h = (ground arith, ground arith, ground arith, ground arith)

ttl_limit-le : (e : Json) → ttl_limit e none ≤ 31 * 86_400_000
unfolding ttl_limit
ttl_limit-le e = ground arith

shape-roles :
    (e : Json) (room : Text)
    → has_envelope_shape e room ≡ true
    → (is_text (get e (codes "room")) room ≡ true)
      × (is_role (get e (codes "from")) ≡ true)
      × ((is_role (get e (codes "to")) || is_text (get e (codes "to")) (codes "all")) ≡ true)
      × ((is_nullish (get e (codes "deliveryId"))
            || valid_identifier (get e (codes "deliveryId")) 180)
          ≡ true)
unfolding has_envelope_shape
shape-roles e room h = (ground arith, ground arith, ground arith, ground arith)

IsExpiry-mono :
    (value : Json) (now low high : ℕ)
    → low ≤ high
    → IsExpiry value now low
    → IsExpiry value now high
IsExpiry-mono value now low high le (inl h) = inl h
IsExpiry-mono value now low high le (inr (n, is, after, before)) = inr (n, is, after, omega arith)

-- By the default lifetimes, a deliverable envelope names this room, comes from the machine or the phone and goes to one of
-- them or to all, has no delivery id or one of 1 to 180 characters, and either has no expiry or an
-- expiry that lies ahead by 31 days at most.
pub envelope_problem-none :
    (e : Json) (room : Text) (now : ℕ)
    → envelope_problem e room now none ≡ none
    → (is_text (get e (codes "room")) room ≡ true)
      × (is_role (get e (codes "from")) ≡ true)
      × ((is_role (get e (codes "to")) || is_text (get e (codes "to")) (codes "all")) ≡ true)
      × ((is_nullish (get e (codes "deliveryId"))
            || valid_identifier (get e (codes "deliveryId")) 180)
          ≡ true)
      × IsExpiry (get e (codes "expiresAt")) now (now + 31 * 86_400_000)
envelope_problem-none e room now h =
    let (shape, _, bounds, ahead) = passes e room now none h in
    let (own, from, to, id) = shape-roles e room shape in
    (
      own,
      from,
      to,
      id,
      IsExpiry-mono (get e (codes "expiresAt")) now (now + ttl_limit e none) _
          (omega (arith, ttl_limit-le e))
          (IsExpiry-fits (get e (codes "expiresAt")) now (now + ttl_limit e none) bounds ahead),
    )

at_most_mono :
    (value : Json) (low high : ℕ)
    → low ≤ high
    → at_most value low ≡ true
    → at_most value high ≡ true
at_most_mono (integer n) low high le h = ground arith
at_most_mono (negative n) low high le h = refl
at_most_mono _ low high le h = ground arith

bounds_mono :
    (value : Json) (low high : ℕ)
    → low ≤ high
    → expiry_in_bounds value low ≡ true
    → expiry_in_bounds value high ≡ true
bounds_mono (integer n) low high le h = ground arith
bounds_mono undefined low high le h = refl
bounds_mono _ low high le h = ground arith

retained_mono :
    (e : Json) (now later : ℕ)
    → now ≤ later
    → valid_retained_state e now ≡ true
    → valid_retained_state e later ≡ true
unfolding valid_retained_state
retained_mono e now later le h = ground (
  arith,
  at_most_mono (get e (codes "stateRevision")) (now + 300_000) (later + 300_000),
  at_most_mono (get e (codes "expiresAt")) (now + state_ttl_ms) (later + state_ttl_ms),
)

-- An envelope that was deliverable stays so until its expiry: at a later time the answer changes to
-- "expired" alone, and does so exactly when the expiry has passed.
pub envelope_problem-later :
    (e : Json) (room : Text) (now later : ℕ) (maximum : Option ℕ)
    → now ≤ later
    → envelope_problem e room now maximum ≡ none
    → envelope_problem e room later maximum ≡ (
        if not (is_nullish (get e (codes "expiresAt"))) && at_most (get e (codes "expiresAt")) later
        then some expired
        else none)
unfolding envelope_problem
envelope_problem-later e room now later maximum le h =
    let (shape, state, bounds, ahead) = passes e room now maximum h in
    rw
      (
        shape,
        retained_mono e now later le state,
        bounds_mono (get e (codes "expiresAt")) (now + ttl_limit e maximum)
            (later + ttl_limit e maximum) (omega arith) bounds,
      )
      refl
