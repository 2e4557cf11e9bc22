-- ===== src/Jobs/Claims.antt =====
-- src/taskDispatch/policy.js: one receiver for each job.
use granttap_relay.Prelude.{
  ℕ, ◌≡◌, refl, Bool, true, false, inl, inr, List, [], ◌∷◌, ◌≢◌, some, arith, Text, text_eq→eq,
  Bool-cases, ap,
}
use granttap_relay.Relay.Json.{Json}
use granttap_relay.Jobs.Policy.{
  JobState, accepted, Job, Proof, expire_job, valid_proof, Transition, moved, refused,
  claim_current, claim_job, is_queued, finish_job, finish_held,
}
use granttap_relay.Jobs.Lifecycle.{Call, step, run, IsJob, follows, step-Good}

abbrev pub is_refused : Transition → Bool
is_refused (moved next) = false
is_refused (refused status) = true

module _ (json_bytes : Json → ℕ) where
  follows-held : (s t : JobState) → follows s t ≡ true → is_queued s ≡ false → is_queued t ≡ false
  follows-held s t h q = ground arith

  -- Whatever calls follow, the job is held by whom it was accepted for.
  pub run-claim :
      (calls : List (ℕ × Call)) (row : Job) (holder : Text)
      → IsJob row
      → is_queued row.state ≡ false
      → row.claim_id ≡ some holder
      → ((run json_bytes calls row).claim_id ≡ some holder)
        × (is_queued (run json_bytes calls row).state ≡ false)
  unfolding run
  run-claim [] row holder v held by = (by, held)
  run-claim (call ∷ calls) row holder v held by =
      let (edge, v', keeps) = step-Good json_bytes call row v in
      run-claim calls (step json_bytes call row) holder v'
        (follows-held row.state (step json_bytes call row).state edge held) (ground arith)

  expire_job-held : (row : Job) (now : ℕ) → is_queued row.state ≡ false → expire_job row now ≡ row
  unfolding expire_job
  expire_job-held row now h = rw h refl

  claim_current-other :
      (row : Job) (proof : Proof) (now : ℕ) (holder other : Text)
      → is_queued row.state ≡ false
      → row.claim_id ≡ some holder
      → proof.claim_id ≡ some other
      → other ≢ holder
      → is_refused (claim_current row proof now) ≡ true
  unfolding claim_current
  claim_current-other row proof now holder other held by tries ne =
      ground (arith, text_eq→eq holder other)

  claim_job-other :
      (row : Job) (proof : Proof) (now : ℕ) (hash holder other : Text)
      → is_queued row.state ≡ false
      → row.claim_id ≡ some holder
      → proof.claim_id ≡ some other
      → other ≢ holder
      → is_refused (claim_job row proof now hash) ≡ true
  unfolding claim_job
  claim_job-other row proof now hash holder other held by tries ne = ground (
    arith,
    ap (λ r. is_refused (claim_current r proof now)) (expire_job-held row now held),
    claim_current-other row proof now holder other held by tries ne,
  )

  finish_job-other :
      (row : Job) (proof : Proof) (now : ℕ) (hash holder other : Text)
      → row.claim_id ≡ some holder
      → proof.claim_id ≡ some other
      → other ≢ holder
      → is_refused (finish_job json_bytes row proof now hash) ≡ true
  unfolding finish_job finish_held
  finish_job-other row proof now hash holder other by tries ne =
      elim (Bool-cases (valid_proof row proof hash)) [
        | inr e ↦ rw (e, finish_job) refl
        | inl e ↦ rw (e, by, finish_job, finish_held) (ground (arith, text_eq→eq other holder))
      ]

  -- Once a job was accepted for one receiver attempt, no later claim or finish in the name of another
  -- attempt succeeds, whatever calls come between and whatever proof it shows, if the job was in a
  -- proper state when it was accepted.
  pub claim-exclusive :
      (calls : List (ℕ × Call)) (row : Job) (holder other : Text) (proof : Proof) (now : ℕ)
      (hash : Text)
      → IsJob row
      → row.state ≡ accepted
      → row.claim_id ≡ some holder
      → proof.claim_id ≡ some other
      → other ≢ holder
      → (is_refused (claim_job (run json_bytes calls row) proof now hash) ≡ true)
        × (is_refused (finish_job json_bytes (run json_bytes calls row) proof now hash) ≡ true)
  claim-exclusive calls row holder other proof now hash v taken by tries ne =
      let (still, held) = run-claim calls row holder v (ground arith) by in
      (
        claim_job-other (run json_bytes calls row) proof now hash holder other held still tries ne,
        finish_job-other (run json_bytes calls row) proof now hash holder other still tries ne,
      )
