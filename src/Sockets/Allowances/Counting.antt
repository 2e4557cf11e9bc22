-- ===== src/Sockets/Allowances/Counting.antt =====
-- src/responseAcknowledgements/index.js: each allowance is used at most once, and their number is
-- bounded.
use granttap_relay.Prelude.{
  ℕ, ◌+◌, ◌≤◌, ◌≡◌, refl, not, List, [], ◌∷◌, ◌++◌, Option, none, some, arith, if◌then◌else◌,
  length, length-append, length-filter-le, Text, text_eq, Option-cases, inl, inr,
}
use granttap_relay.Relay.Json.{Json}
use granttap_relay.Sockets.Allowances.{
  Pending, max_outstanding, lifetime_ms, remove, expiry_of, trim, issue, frame_id, consume_id,
  consume,
}

pub data Event : Type 0 where
  issuing : Option Text → Event
  consuming : Text → Event

module _ (parse : Text → Option Json) where
  -- What is pending after the events, how many deliveries were issued, and how many frames accepted.
  unfoldable pub run : List (ℕ × Event) → Pending → Pending × ℕ × ℕ
  run [] pending = (pending, 0, 0)
  run ((now, issuing id) ∷ events) pending =
      let (rest, issued, accepted) = run events (issue id now pending) in
      (rest, issued + 1, accepted)
  run ((now, consuming raw) ∷ events) pending =
      let (left, taken) = consume parse raw now pending in
      let (rest, issued, accepted) = run events left in
      (rest, issued, (if taken then 1 else 0) + accepted)

length-trim : (pending : Pending) → length (trim pending) ≤ length pending
length-trim [] = omega arith
length-trim (e ∷ pending) = ground arith

length-trim-bound :
    (pending : Pending)
    → length pending ≤ max_outstanding + 1
    → length (trim pending) ≤ max_outstanding
length-trim-bound [] h = omega arith
length-trim-bound (e ∷ pending) h = ground arith

length-issue :
    (id : Option Text) (now : ℕ) (pending : Pending)
    → length (issue id now pending) ≤ length pending + 1
unfolding issue remove
length-issue none now pending = omega arith
length-issue (some id) now pending = ground (
  arith,
  length-trim (remove id pending ++ (id, now + lifetime_ms) ∷ []),
  length-append (remove id pending) ((id, now + lifetime_ms) ∷ []),
  length-filter-le (λ (e : Text × ℕ). not (text_eq e.0 id)) pending,
)

length-issue-bound :
    (id : Option Text) (now : ℕ) (pending : Pending)
    → length pending ≤ max_outstanding
    → length (issue id now pending) ≤ max_outstanding
unfolding issue remove
length-issue-bound none now pending h = h
length-issue-bound (some id) now pending h = ground (
  arith,
  length-trim-bound (remove id pending ++ (id, now + lifetime_ms) ∷ []),
  length-append (remove id pending) ((id, now + lifetime_ms) ∷ []),
  length-filter-le (λ (e : Text × ℕ). not (text_eq e.0 id)) pending,
)

-- After an identifier was consumed, and until it is issued again, it is not accepted.
expiry_of-remove : (id : Text) (pending : Pending) → expiry_of id (remove id pending) ≡ none
unfolding expiry_of remove
expiry_of-remove id [] = refl
expiry_of-remove id ((other, e) ∷ rest) = ground (arith, expiry_of-remove id rest)

length-expiry_of :
    (id : Text) (expires_at : ℕ) (pending : Pending)
    → expiry_of id pending ≡ some expires_at
    → length (remove id pending) + 1 ≤ length pending
unfolding expiry_of remove
length-expiry_of id expires_at [] h = ground arith
length-expiry_of id expires_at ((other, e) ∷ rest) h = ground (
  arith,
  length-expiry_of id expires_at rest,
  length-filter-le (λ (x : Text × ℕ). not (text_eq x.0 id)) rest,
)

length-consume_id :
    (id : Text) (now : ℕ) (pending : Pending)
    → (if (consume_id id now pending).1 then 1 else 0) + length (consume_id id now pending).0
      ≤ length pending
unfolding consume_id
length-consume_id id now pending = elim (Option-cases (expiry_of id pending)) [
  | inl e ↦ rw (e, consume_id) (omega arith)
  | inr (expires_at, e) ↦
      rw (e, consume_id) (ground (arith, length-expiry_of id expires_at pending e))
]

length-consume :
    (parse : Text → Option Json) (raw : Text) (now : ℕ) (pending : Pending)
    → (if (consume parse raw now pending).1 then 1 else 0)
        + length (consume parse raw now pending).0
      ≤ length pending
unfolding consume
length-consume parse raw now pending = elim (Option-cases (frame_id parse raw)) [
  | inl e ↦ rw (e, consume) (omega arith)
  | inr (id, e) ↦ rw (e, consume) (length-consume_id id now pending)
]

module _ (parse : Text → Option Json) where
  -- No more frames are accepted as acknowledgements than there were allowances at the start and
  -- deliveries issued since, and what is pending counts against the same number.
  pub run-balance :
      (events : List (ℕ × Event)) (pending : Pending)
      → (run parse events pending).2 + length (run parse events pending).0
        ≤ length pending + (run parse events pending).1
  unfolding run
  run-balance [] pending = omega arith
  run-balance ((now, issuing id) ∷ events) pending =
      omega (arith, run-balance events (issue id now pending), length-issue id now pending)
  run-balance ((now, consuming raw) ∷ events) pending = omega (
    arith,
    run-balance events (consume parse raw now pending).0,
    length-consume parse raw now pending,
  )

  -- A socket with at most 512 pending allowances never has more.
  pub length-run :
      (events : List (ℕ × Event)) (pending : Pending)
      → length pending ≤ max_outstanding
      → length (run parse events pending).0 ≤ max_outstanding
  unfolding run
  length-run [] pending h = h
  length-run ((now, issuing id) ∷ events) pending h =
      length-run events (issue id now pending) (length-issue-bound id now pending h)
  length-run ((now, consuming raw) ∷ events) pending h =
      length-run events (consume parse raw now pending).0
        (omega (arith, length-consume parse raw now pending))
