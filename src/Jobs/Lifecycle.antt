-- ===== src/Jobs/Lifecycle.antt =====
-- src/taskDispatch/policy.js: what the transitions of one job keep.
use granttap_relay.Prelude.{
  ℕ, ◌≤◌, ◌≡◌, refl, Bool, true, false, ◌&&◌, ◌⊎◌, inl, inr, List, [], ◌∷◌, Option, none, some,
  arith, length, ◌==◌, Text, Bool-cases, Option-cases,
}
use granttap_relay.Relay.Json.{Json}
use granttap_relay.Jobs.Policy.{
  JobState, queued, accepted, completed, failed, cancelled, expired, Job, Proof,
  retains_task_payload, retire_job, expire_job, valid_proof, Transition, moved, refused,
  final_state, claim_current, claim_job, cancel_current, cancel_job, finish_job, finish_held,
  option_eq, finish_as, finished, valid_claim_id, is_queued,
}

pub data Call : Type 0 where
  claiming : Proof → Text → Call
  finishing : Proof → Text → Call
  cancelling : Call
  expiring : Call

abbrev pub outcome : Job → Transition → Job
outcome row (moved next) = next
outcome row (refused status) = row

module _ (json_bytes : Json → ℕ) where
  -- The row after a call; a refusal leaves it as it was.
  unfoldable pub step : ℕ × Call → Job → Job
  step (now, claiming proof hash) row = outcome row (claim_job row proof now hash)
  step (now, finishing proof hash) row = outcome row (finish_job json_bytes row proof now hash)
  step (now, cancelling) row = outcome row (cancel_job row now)
  step (now, expiring) row = expire_job row now

  unfoldable pub run : List (ℕ × Call) → Job → Job
  run [] row = row
  run (call ∷ calls) row = run calls (step call row)

-- Where one call may take a job.
abbrev pub follows : JobState → JobState → Bool
follows queued queued = true
follows queued accepted = true
follows queued cancelled = true
follows queued expired = true
follows accepted accepted = true
follows accepted completed = true
follows accepted failed = true
follows failed failed = true
follows failed cancelled = true
follows completed completed = true
follows cancelled cancelled = true
follows expired expired = true
follows _ _ = false

-- A job has its ciphertext while it counts against the room's capacity, and no longer; and nobody
-- holds it before it is accepted.
pub record IsJob (row : Job) : Type 0 where
  pub retired :
      (retains_task_payload row.state ≡ true) ⊎ ((row.envelope.seal ≡ none) × (row.bytes ≡ 0))
  pub unclaimed : (is_queued row.state ≡ false) ⊎ (row.claim_id ≡ none)

-- A job that was accepted keeps the claim, and one that still counts keeps its ciphertext.
abbrev pub Keeps : Job → Job → Type 0
Keeps row next =
    ((is_queued row.state ≡ true) ⊎ (next.claim_id ≡ row.claim_id))
    × (next.id ≡ row.id)
    × (next.bytes ≤ row.bytes)
    × ((retains_task_payload next.state ≡ false)
        ⊎ ((next.envelope.seal ≡ row.envelope.seal) × (next.bytes ≡ row.bytes)))

abbrev pub Good : Job → Job → Type 0
Good row next = (follows row.state next.state ≡ true) × IsJob next × Keeps row next

follows_refl : (s : JobState) → follows s s ≡ true
follows_refl queued = refl
follows_refl accepted = refl
follows_refl completed = refl
follows_refl failed = refl
follows_refl cancelled = refl
follows_refl expired = refl

Good-refl : (row : Job) → IsJob row → Good row row
Good-refl row v = (follows_refl row.state, v, (inr refl, refl, omega arith, inr (refl, refl)))

pub expire_job-Good : (row : Job) (now : ℕ) → IsJob row → Good row (expire_job row now)
unfolding expire_job retire_job retains_task_payload
expire_job-Good row now v = ground arith

claim_current-Good :
    (row : Job) (proof : Proof) (now : ℕ)
    → IsJob row
    → Good row (outcome row (claim_current row proof now))
unfolding claim_current retains_task_payload
claim_current-Good row proof now v = ground arith

cancel_current-Good :
    (row : Job) (now : ℕ) → IsJob row → Good row (outcome row (cancel_current row now))
unfolding cancel_current retire_job retains_task_payload
cancel_current-Good row now v = ground arith

-- A job whose time has come is refused; any other is taken as it is.
pub claim_job-Good :
    (row : Job) (proof : Proof) (now : ℕ) (hash : Text)
    → IsJob row
    → Good row (outcome row (claim_job row proof now hash))
unfolding claim_job claim_current expire_job retire_job retains_task_payload
claim_job-Good row proof now hash v = ground arith

pub cancel_job-Good :
    (row : Job) (now : ℕ) → IsJob row → Good row (outcome row (cancel_job row now))
unfolding cancel_job cancel_current expire_job retire_job retains_task_payload
cancel_job-Good row now v = ground arith

module _ (json_bytes : Json → ℕ) where
  finish_as-Good :
      (row : Job) (proof : Proof) (state : JobState) (now : ℕ)
      → ((state ≡ completed) ⊎ (state ≡ failed))
      → IsJob row
      → Good row (outcome row (finish_as json_bytes row proof state now))
  unfolding finish_as finished retire_job retains_task_payload
  finish_as-Good row proof state now end v = ground arith

  final_state-ends :
      (word : Option Text) (state : JobState)
      → final_state word ≡ some state
      → (state ≡ completed) ⊎ (state ≡ failed)
  unfolding final_state
  final_state-ends none state h = ground arith
  final_state-ends (some word) state h = ground arith

  finish_held-Good :
      (row : Job) (proof : Proof) (now : ℕ) (claimed : Text)
      → IsJob row
      → Good row (outcome row (finish_held json_bytes row proof now claimed))
  unfolding finish_held
  finish_held-Good row proof now claimed v = elim (Bool-cases (length claimed == 0)) [
    | inl empty ↦ rw (empty, finish_held) (Good-refl row v)
    | inr named ↦
        elim (Bool-cases (valid_claim_id proof.claim_id && option_eq proof.claim_id claimed)) [
          | inr e ↦ rw (named, e, finish_held) (Good-refl row v)
          | inl e ↦ elim (Option-cases (final_state proof.state)) [
            | inl unknown ↦ rw (named, e, unknown, finish_held) (Good-refl row v)
            | inr (state, known) ↦
                rw (named, e, known, finish_held)
                  (finish_as-Good row proof state now (final_state-ends proof.state state known) v)
          ]
        ]
  ]

  finish_claimed-Good :
      (row : Job) (proof : Proof) (now : ℕ) (claim : Option Text)
      → IsJob row
      → Good row (
          outcome row (elim claim [
            | none ↦ refused 409
            | some claimed ↦ finish_held json_bytes row proof now claimed
          ]))
  finish_claimed-Good row proof now none v = Good-refl row v
  finish_claimed-Good row proof now (some claimed) v = finish_held-Good row proof now claimed v

  pub finish_job-Good :
      (row : Job) (proof : Proof) (now : ℕ) (hash : Text)
      → IsJob row
      → Good row (outcome row (finish_job json_bytes row proof now hash))
  unfolding finish_job
  finish_job-Good row proof now hash v = elim (Bool-cases (valid_proof row proof hash)) [
    | inr e ↦ rw (e, finish_job) (Good-refl row v)
    | inl e ↦ rw (e, finish_job) (finish_claimed-Good row proof now row.claim_id v)
  ]

  -- Each call takes a job along the edges of its life: queued to accepted, cancelled or expired,
  -- accepted to completed or failed, failed to cancelled. While the job counts against the room's
  -- capacity its ciphertext and its size stay exactly what they were; when it no longer does, there is
  -- no ciphertext and the size is 0; and the receiver that holds a job never changes. The job is taken
  -- to be in a proper state before.
  pub step-Good : (call : ℕ × Call) (row : Job) → IsJob row → Good row (step json_bytes call row)
  unfolding step
  step-Good (now, claiming proof hash) row v = claim_job-Good row proof now hash v
  step-Good (now, finishing proof hash) row v = finish_job-Good row proof now hash v
  step-Good (now, cancelling) row v = cancel_job-Good row now v
  step-Good (now, expiring) row v = expire_job-Good row now v
