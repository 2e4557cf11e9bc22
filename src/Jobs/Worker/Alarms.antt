-- ===== src/Jobs/Worker/Alarms.antt =====
-- src/taskDispatch/worker.js: the alarm that `maintain` asks for.
use granttap_relay.Prelude.{
  ℕ, ◌+◌, ◌≡◌, not, ◌||◌, any, max, min, ltb, text_eq, refl, ap, ◌∙◌, Bool, true, false, ◌&&◌, List,
  [], ◌∷◌, Option, none, some, arith, leb, if◌then◌else◌, all, Text, Bool-cases, inl, inr,
}
use granttap_relay.Jobs.Policy.{JobState, queued, accepted, Job, expire_job}
use granttap_relay.Jobs.Store.{is_past_retention}
use granttap_relay.Jobs.Ciphertext.{StoredRow, Boxes, write_task_job, delete_ciphertext}
use granttap_relay.Jobs.Worker.{
  Room, with_job, is_expiring, expire_row, deadline, earliest, maintain_rows, maintain,
}

-- The alarm `next` comes no later than `at`.
abbrev pub covers : Option ℕ → Option ℕ → Bool
covers next none = true
covers none (some at) = false
covers (some next) (some at) = leb next at

covers_trans : (a b c : Option ℕ) → covers a b ≡ true → covers b c ≡ true → covers a c ≡ true
covers_trans a b c h k = ground arith

covers_refl : (a : Option ℕ) → covers a a ≡ true
covers_refl a = ground arith

earliest-first : (next at : Option ℕ) → covers (earliest next at) next ≡ true
earliest-first next at = ground arith

earliest-second : (next at : Option ℕ) → covers (earliest next at) at ≡ true
earliest-second next at = ground arith

expire_job_fresh : (now : ℕ) (job : Job) → is_expiring now job ≡ false → expire_job job now ≡ job
unfolding expire_job
expire_job_fresh now job h = simp h

both : (a b : Bool) → a ≡ true → b ≡ true → (a && b) ≡ true
both a b h k = ground arith

-- The alarm comes in time for the deadline that the code computes for the row.
abbrev is_met : ℕ → Option (List Text) → Option ℕ → StoredRow → Bool
is_met now connected next row = covers next (deadline now connected row.job)

-- Whether the recipient of a queued job may be connected.
abbrev pub may_be_connected : Option (List Text) → Text → Bool
may_be_connected none recipient = true
may_be_connected (some connected) recipient = any (text_eq recipient) connected

-- What the alarm promises a row: a queued job is looked at when it expires, and if its recipient may be
-- connected once it is ready and 15 seconds are over; a finished one when its seven days are over. An
-- accepted one waits for its finish.
abbrev pub is_covered : ℕ → Option (List Text) → Option ℕ → StoredRow → Bool
is_covered now connected next row = elim row.job.state [
  | queued ↦
      covers next (some row.job.expires_at)
      && (not (may_be_connected connected row.job.envelope.recipient_key_id)
          || covers next (some (max row.job.not_before (now + 15_000))))
  | accepted ↦ true
  | _ ↦ covers next (some (max row.job.expires_at row.job.updated_at + 604_800_000))
]

queued-covered :
    (next : Option ℕ) (present : Bool) (now not_before expires_at : ℕ)
    → covers next (
        if not present
        then some expires_at
        else some (min expires_at (if ltb now not_before then not_before else now + 15_000)))
      ≡ true
    → (covers next (some expires_at)
        && (not present || covers next (some (max not_before (now + 15_000)))))
      ≡ true
queued-covered none true now not_before expires_at h = absurd (ground arith)
queued-covered none false now not_before expires_at h = absurd (ground arith)
queued-covered (some next) true now not_before expires_at h = ground arith
queued-covered (some next) false now not_before expires_at h = ground arith

job-covered :
    (now : ℕ) (connected : Option (List Text)) (next : Option ℕ) (state : JobState)
    (row : StoredRow)
    → is_met now connected next (record row { job = record row.job { state = state } }) ≡ true
    → is_covered now connected next (record row { job = record row.job { state = state } }) ≡ true
unfolding deadline
job-covered now none next queued row h =
    queued-covered next true now row.job.not_before row.job.expires_at h
job-covered now (some connected) next queued row h =
    queued-covered next (any (text_eq row.job.envelope.recipient_key_id) connected) now
      row.job.not_before row.job.expires_at h
job-covered now connected next accepted row h = refl
job-covered now connected next _ row h = h

module _ (sha256 : Text → Text) where
  pub write_task_job-job :
      (row : StoredRow) (boxes : Boxes) → (write_task_job sha256 row boxes).0.job ≡ row.job
  unfolding write_task_job
  write_task_job-job row boxes = ground arith

  expire_row-job :
      (now : ℕ) (row : StoredRow) (boxes : Boxes)
      → (expire_row sha256 now row boxes).0.job ≡ expire_job row.job now
  unfolding expire_row
  expire_row-job now row boxes = elim (Bool-cases (is_expiring now row.job)) [
    | inl due ↦
        let retired : StoredRow = with_job row (expire_job row.job now) in
        ap (λ b. (if b then write_task_job sha256 retired boxes else (row, boxes)).0.job) due
        ∙ write_task_job-job retired boxes
    | inr not_due ↦ simp (not_due, expire_job_fresh now row.job not_due)
  ]

  module _ (now : ℕ) (connected : Option (List Text)) where
    is_met_mono :
        (a b : Option ℕ) (rows : List StoredRow)
        → covers a b ≡ true
        → all (is_met now connected b) rows ≡ true
        → all (is_met now connected a) rows ≡ true
    unfolding all
    is_met_mono a b [] h k = k
    is_met_mono a b (row ∷ rows) h k =
        ground (arith, covers_trans a b (deadline now connected row.job), is_met_mono a b rows)

    abbrev loop : List StoredRow → Boxes → Option ℕ → List StoredRow × Boxes × Option ℕ
    loop rows boxes next = maintain_rows sha256 now connected rows boxes next

    maintain_rows-covers :
        (rows : List StoredRow) (boxes : Boxes) (next : Option ℕ)
        → (covers (loop rows boxes next).2 next ≡ true)
          × (all (is_met now connected (loop rows boxes next).2) (loop rows boxes next).0 ≡ true)
    unfolding maintain_rows all
    maintain_rows-covers [] boxes next = (covers_refl next, refl)
    maintain_rows-covers (saved ∷ rows) boxes next =
        elim (Bool-cases (is_past_retention now (expire_job saved.job now))) [
          | inl gone ↦ simp gone (
              maintain_rows-covers rows
                (delete_ciphertext (with_job saved (expire_job saved.job now)) boxes) next)
          | inr stays ↦
              let at : Option ℕ = deadline now connected (expire_job saved.job now) in
              let rest =
                maintain_rows-covers rows (expire_row sha256 now saved boxes).1
                  (earliest next at) in
              let alarm : Option ℕ =
                (loop rows (expire_row sha256 now saved boxes).1 (earliest next at)).2 in
              let head : is_met now connected alarm (expire_row sha256 now saved boxes).0 ≡ true =
                rw (expire_row-job now saved boxes)
                  (covers_trans alarm (earliest next at) at rest.0 (earliest-second next at)) in
              simp stays (
                covers_trans alarm (earliest next at) next rest.0 (earliest-first next at),
                both _ _ head rest.1,
              )
        ]

  met-covered :
      (now : ℕ) (connected : Option (List Text)) (next : Option ℕ) (row : StoredRow)
      → is_met now connected next row ≡ true
      → is_covered now connected next row ≡ true
  unfolding deadline
  met-covered now connected next row h = job-covered now connected next row.job.state row h

  mets-covered :
      (now : ℕ) (connected : Option (List Text)) (next : Option ℕ) (rows : List StoredRow)
      → all (is_met now connected next) rows ≡ true
      → all (is_covered now connected next) rows ≡ true
  unfolding all
  mets-covered now connected next [] h = refl
  mets-covered now connected next (row ∷ rows) h =
      ground (arith, met-covered now connected next row, mets-covered now connected next rows)

  -- After a maintenance, every row that is left is looked at in time: the alarm comes no later than a
  -- queued job expires, and if its recipient may be connected no later than it is ready and 15 seconds
  -- are over; and no later than seven days after a finished job expired or was last changed. With a row
  -- to look at there is an alarm.
  pub maintain-covers :
      (now : ℕ) (connected : Option (List Text)) (configurations : Option ℕ) (room : Room)
      → all
          (is_covered now connected (maintain sha256 now connected configurations room).1)
          (maintain sha256 now connected configurations room).0.rows
        ≡ true
  unfolding maintain
  maintain-covers now connected configurations room =
      mets-covered now connected (maintain sha256 now connected configurations room).1
        (maintain sha256 now connected configurations room).0.rows
        (maintain_rows-covers now connected room.rows room.boxes configurations).1
