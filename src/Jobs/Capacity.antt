-- ===== src/Jobs/Capacity.antt =====
-- src/taskDispatch/node.js: the capacity of a room and the identity of its jobs.
use granttap_relay.Prelude.{
  ℕ, ◌+◌, ◌≤◌, ◌≡◌, refl, true, false, inl, inr, List, [], ◌∷◌, Option, none, some, arith,
  if◌then◌else◌, length, filter, find, sum_by, Text, text_eq, text_eq→eq, byte_length, Bool-cases,
  Option-cases, ap, subst, sym, ◌∙◌,
}
use granttap_relay.Relay.Json.{Json, text_value}
use granttap_relay.Jobs.Policy.{
  Job, Proof, retains_task_payload, expire_job, Transition, moved, refused, room_job_bytes,
  room_job_limit, room_receipt_limit,
}
use granttap_relay.Jobs.Lifecycle.{
  IsJob, Good, outcome, expire_job-Good, claim_job-Good, cancel_job-Good, finish_job-Good,
}
use granttap_relay.Jobs.Store.{
  Normalized, get_job, save, expire_queued, is_active, active_bytes, exceeds_capacity,
  created_at_or, queued_row, insert_job, put_normalized, put, normalize_job, Action, claim, finish,
  cancel, act, save_moved, transition,
}

-- What one job weighs in the room.
abbrev weight : Job → ℕ
weight job = if is_active job then 1 else 0

abbrev load : Job → ℕ
load job = if is_active job then job.bytes else 0

abbrev pub weights : List Job → ℕ
weights [] = 0
weights (job ∷ jobs) = weight job + weights jobs

abbrev pub loads : List Job → ℕ
loads [] = 0
loads (job ∷ jobs) = load job + loads jobs

weights-length : (jobs : List Job) → length (filter is_active jobs) ≡ weights jobs
unfolding filter
weights-length [] = refl
weights-length (job ∷ jobs) = ground (arith, weights-length jobs)

loads-sum : (jobs : List Job) → active_bytes jobs ≡ loads jobs
unfolding filter sum_by
loads-sum [] = refl
loads-sum (job ∷ jobs) = ground (arith, loads-sum jobs)

abbrev pub AllJobs : List Job → Type 0
AllJobs [] = Unit {0}
AllJobs (job ∷ jobs) = IsJob job × AllJobs jobs

pub record IsQueue (jobs : List Job) : Type 0 where
  pub valid : AllJobs jobs
  pub receipts : length jobs ≤ room_receipt_limit
  pub active : weights jobs ≤ room_job_limit
  pub payload : loads jobs ≤ room_job_bytes

-- A call never makes a job count that did not, nor count for more.
lighter : (row next : Job) → Good row next → (weight next ≤ weight row) × (load next ≤ load row)
unfolding retains_task_payload
lighter row next g = ground arith

expire_queued-lighter :
    (now : ℕ) (jobs : List Job)
    → AllJobs jobs
    → (weights (expire_queued now jobs) ≤ weights jobs)
      × (loads (expire_queued now jobs) ≤ loads jobs)
      × (length (expire_queued now jobs) ≡ length jobs)
      × AllJobs (expire_queued now jobs)
unfolding expire_queued
expire_queued-lighter now [] v = (omega arith, omega arith, refl, tt)
expire_queued-lighter now (job ∷ jobs) v =
    let good : Good job (expire_job job now) = expire_job-Good job now v.0 in
    let (w, l, n, vs) = expire_queued-lighter now jobs v.1 in
    let (w', l') = lighter job (expire_job job now) good in
    (omega arith, omega arith, omega arith, (good.1, vs))

abbrev AtMost : List Job → ℕ → ℕ → ℕ → Type 0
AtMost jobs count active bytes =
    (length jobs ≤ count) × (weights jobs ≤ active) × (loads jobs ≤ bytes) × AllJobs jobs

save-AtMost :
    (row : Job) (jobs : List Job)
    → IsJob row
    → AllJobs jobs
    → AtMost (save row jobs) (length jobs + 1) (weights jobs + weight row) (loads jobs + load row)
unfolding save
save-AtMost row [] v vs = (omega arith, omega arith, omega arith, (v, tt))
save-AtMost row (job ∷ jobs) v vs = elim (Bool-cases (text_eq job.id row.id)) [
  | inl e ↦ rw (e, save) (omega arith, omega arith, omega arith, (v, vs.1))
  | inr e ↦
      let (n, w, l, all) = save-AtMost row jobs v vs.1 in
      rw (e, save) (omega arith, omega arith, omega arith, (vs.0, all))
]

-- Saving the next row of a job in its place.
save-lighter :
    (id : Text) (row next : Job) (jobs : List Job)
    → get_job jobs id ≡ some row
    → next.id ≡ id
    → (weight next ≤ weight row) × (load next ≤ load row)
    → IsJob next
    → AllJobs jobs
    → AtMost (save next jobs) (length jobs) (weights jobs) (loads jobs)
unfolding save find
save-lighter id row next [] found same light v vs = absurd (ground arith)
save-lighter id row next (job ∷ jobs) found same light v vs =
    elim (Bool-cases (text_eq job.id id)) [
      | inl e ↦
          let this : job ≡ row = ground arith in
          rw (subst (λ i. text_eq job.id i ≡ true) (sym same) e, save)
            (
              omega (arith, ap weight this, light.0),
              omega (arith, ap weight this, light.0),
              omega (arith, ap load this, light.1),
              (v, vs.1),
            )
      | inr e ↦
          let (n, w, l, all) = save-lighter id row next jobs (ground arith) same light v vs.1 in
          rw (subst (λ i. text_eq job.id i ≡ false) (sym same) e, save)
            (omega arith, omega arith, omega arith, (vs.0, all))
    ]

get_job-valid :
    (id : Text) (row : Job) (jobs : List Job)
    → get_job jobs id ≡ some row
    → AllJobs jobs
    → IsJob row × (row.id ≡ id)
unfolding find
get_job-valid id row [] found vs = absurd (ground arith)
get_job-valid id row (job ∷ jobs) found vs = elim (Bool-cases (text_eq job.id id)) [
  | inl e ↦
      let this : job ≡ row = ground arith in
      (subst IsJob this vs.0, rw (← this) (text_eq→eq job.id id e))
  | inr e ↦ get_job-valid id row jobs (ground arith) vs.1
]

-- What is written is no heavier than what it replaces.
save_moved-IsQueue :
    (id : Text) (row : Job) (jobs : List Job) (r : Transition)
    → get_job jobs id ≡ some row
    → Good row (outcome row r)
    → IsQueue jobs
    → IsQueue (save_moved jobs r).0
save_moved-IsQueue id row jobs (refused status) found good q = q
save_moved-IsQueue id row jobs (moved next) found good q =
    let (n, w, l, all) =
      save-lighter id row next jobs found (good.2.1 ∙ (get_job-valid id row jobs found q.valid).1)
        (lighter row next good) good.1 q.valid in
    record {
      valid = all;
      receipts = omega (arith, q.receipts);
      active = omega (arith, q.active);
      payload = omega (arith, q.payload);
    }

module _ (sha256 : Text → Text) (json_bytes : Json → ℕ) where
  act-Good :
      (action : Action) (row : Job) (proof : Proof) (now : ℕ) (hash : Text)
      → IsJob row
      → Good row (outcome row (act json_bytes action row proof now hash))
  unfolding act
  act-Good claim row proof now hash v = claim_job-Good row proof now hash v
  act-Good finish row proof now hash v = finish_job-Good json_bytes row proof now hash v
  act-Good cancel row proof now hash v = cancel_job-Good row now v

  -- A claim, a finish or a cancellation in a room within its limits leaves it within them, with every
  -- job in a proper state.
  pub transition-IsQueue :
      (id : Text) (action : Action) (proof : Proof) (now : ℕ) (jobs : List Job)
      → IsQueue jobs
      → IsQueue (transition sha256 json_bytes id action proof now jobs).0
  unfolding transition
  transition-IsQueue id action proof now jobs q = elim (Option-cases (get_job jobs id)) [
    | inl e ↦ rw (e, transition) q
    | inr (row, e) ↦
        rw (e, transition)
          (save_moved-IsQueue id row jobs
            (act json_bytes action row proof now (sha256 (text_value proof.token))) e
            (act-Good action row proof now (sha256 (text_value proof.token))
              (get_job-valid id row jobs e q.valid).0)
            q)
  ]

expire_queued-IsQueue :
    (now : ℕ) (jobs : List Job) → IsQueue jobs → IsQueue (expire_queued now jobs)
expire_queued-IsQueue now jobs q =
    let (w, l, n, vs) = expire_queued-lighter now jobs q.valid in
    record {
      valid = vs;
      receipts = omega (arith, q.receipts);
      active = omega (arith, q.active);
      payload = omega (arith, q.payload);
    }

module _ (sha256 : Text → Text) where
  queued_row-IsJob : (id : Text) (n : Normalized) (now : ℕ) → IsJob (queued_row sha256 id n now)
  unfolding retains_task_payload
  queued_row-IsJob id n now = record { retired = inl refl; unclaimed = inr refl }

  queued_row-weight :
      (id : Text) (n : Normalized) (now : ℕ)
      → (weight (queued_row sha256 id n now) ≡ 1)
        × (load (queued_row sha256 id n now) ≡ byte_length n.canonical)
  unfolding retains_task_payload
  queued_row-weight id n now = (refl, refl)

  insert_job-IsQueue :
      (id : Text) (n : Normalized) (now : ℕ) (jobs : List Job)
      → IsQueue jobs
      → IsQueue (insert_job sha256 id n now jobs).0
  unfolding insert_job
  insert_job-IsQueue id n now jobs q =
      elim (Bool-cases (exceeds_capacity jobs (byte_length n.canonical))) [
        | inl e ↦ rw (e, insert_job) q
        | inr e ↦
            let (c, w, l, all) =
              save-AtMost (queued_row sha256 id n now) jobs (queued_row-IsJob id n now) q.valid in
            let (one, bytes) = queued_row-weight id n now in
            rw (e, insert_job)
              (record {
                valid = all;
                receipts = ground (arith, c);
                active = ground (arith, w, one, weights-length jobs);
                payload = ground (arith, l, bytes, loads-sum jobs);
              })
      ]

  put_normalized-IsQueue :
      (id : Text) (existing : Option Job) (n : Normalized) (now : ℕ) (jobs : List Job)
      → IsQueue jobs
      → IsQueue (put_normalized sha256 id existing n now jobs).0
  unfolding put_normalized
  put_normalized-IsQueue id (some job) n now jobs q = ground arith
  put_normalized-IsQueue id none n now jobs q =
      insert_job-IsQueue id n now (expire_queued now jobs) (expire_queued-IsQueue now jobs q)

  -- A put into a room within its limits leaves it within 10,000 receipts, 100 active jobs and
  -- 48,000,000 bytes of ciphertext, with every job in a proper state.
  pub put-IsQueue :
      (canonical_text : Json → Text) (room id : Text) (body : Json) (now : ℕ) (jobs : List Job)
      → IsQueue jobs
      → IsQueue (put canonical_text sha256 room id body now jobs).0
  unfolding put
  put-IsQueue canonical_text room id body now jobs q =
      elim (Option-cases
        (normalize_job canonical_text room id body (created_at_or (get_job jobs id) now))) [
          | inl e ↦ rw (e, put) q
          | inr (n, e) ↦ rw (e, put) (put_normalized-IsQueue id (get_job jobs id) n now jobs q)
        ]
