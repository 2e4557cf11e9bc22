-- ===== src/Jobs/Worker.antt =====
-- src/taskDispatch/worker.js: the task queue of a Worker's room. Rows stand in the order of their
-- keys, as `storage.list` returns them; a transaction is one step. The digest, the JSON text of a body
-- in its normal form and the bytes of a result are parameters, and so is the wake-up that the
-- configurations ask for.
pub mod Agreement
pub mod Alarms
use granttap_relay.Prelude.{
  ℕ, ◌+◌, ◌*◌, ◌/◌, Bool, true, false, not, ◌&&◌, ◌||◌, List, [], ◌∷◌, ◌++◌, map, Option, none,
  some, ltb, leb, ◌==◌, if◌then◌else◌, get_or, max, min, length, filter, any, find, sum_by, Text,
  text_eq,
}
use granttap_relay.Relay.Json.{Json, string}
use granttap_relay.Jobs.Policy.{
  JobState, queued, accepted, Job, Proof, Sealed, retains_task_payload, expire_job, is_queued,
  Transition, moved, refused, room_receipt_limit, room_job_limit, room_job_bytes,
}
use granttap_relay.Jobs.Store.{
  Normalized, Answer, Action, act, exceeds_capacity, created_at_or, normalize_job, queued_row,
  is_active, is_accepted, is_past_retention,
}
use granttap_relay.Jobs.Ciphertext.{
  StoredRow, Boxes, write_task_job, hydrate_task_job, delete_ciphertext,
}

pub record Room : Type 0 where
  pub rows : List StoredRow
  pub boxes : Boxes

abbrev pub jobs_of : List StoredRow → List Job
jobs_of rows = map (λ row. row.job) rows

-- `storage.get(key(room, id))`
abbrev pub get_row : List StoredRow → Text → Option StoredRow
get_row rows id = find (λ row. text_eq row.job.id id) rows

-- The order of keys: ids are ASCII, so their bytes compare like their code units.
unfoldable pub text_lt : Text → Text → Bool
text_lt [] [] = false
text_lt [] (b ∷ t) = true
text_lt (a ∷ s) [] = false
text_lt (a ∷ s) (b ∷ t) = if a == b then text_lt s t else ltb a b

-- `storage.put(key, row)`
unfoldable pub put_row : StoredRow → List StoredRow → List StoredRow
unfolding text_eq text_lt
put_row row [] = row ∷ []
put_row row (other ∷ rows) =
    if text_eq other.job.id row.job.id
    then row ∷ rows
    else if text_lt row.job.id other.job.id
    then row ∷ other ∷ rows
    else other ∷ put_row row rows

-- The row with the metadata of its next job.
abbrev pub with_job : StoredRow → Job → StoredRow
with_job row job = record row { job = job }

-- The box of a job that comes in stands beside its metadata.
abbrev box_of : Option Sealed → Option Text
box_of none = none
box_of (some s) = some s.box

abbrev unboxed : Option Sealed → Option Sealed
unboxed none = none
unboxed (some s) = some (record { nonce = s.nonce; box = [] })

abbrev pub stored_row : Job → StoredRow
stored_row job = record {
  job = record job { envelope = record job.envelope { seal = unboxed job.envelope.seal } };
  box = box_of job.envelope.seal;
  cipher = none;
}

-- One row of the loop of `rows`: it is written again when it was expired.
abbrev pub is_expiring : ℕ → Job → Bool
is_expiring now job = is_queued job.state && leb job.expires_at now

-- The sort of `due`, which is stable: the first row that none precedes strictly.
abbrev pub strictly_before : Job → Job → Bool
strictly_before a b =
    if a.not_before == b.not_before
    then ltb a.created_at b.created_at
    else ltb a.not_before b.not_before

unfoldable pub first_row : List StoredRow → Option StoredRow
first_row [] = none
first_row (row ∷ rows) = elim (first_row rows) [
  | none ↦ some row
  | some other ↦ if strictly_before other.job row.job then some other else some row
]

abbrev pub is_due : Text → ℕ → List Text → StoredRow → Bool
is_due recipient now excluded row =
    is_queued row.job.state
    && leb row.job.not_before now
    && text_eq row.job.envelope.recipient_key_id recipient
    && not (any (text_eq row.job.id) excluded)

abbrev job_of : Option StoredRow → Option Job
job_of none = none
job_of (some row) = some row.job

-- The recipients that are connected, if the caller knows them.
abbrev is_absent : Option (List Text) → Text → Bool
is_absent none recipient = false
is_absent (some connected) recipient = not (any (text_eq recipient) connected)

abbrev retry_ms : ℕ
retry_ms = 15_000

abbrev retention_ms : ℕ
retention_ms = 7 * 86_400_000

-- When a row is to be looked at again; an accepted job waits for its finish.
unfoldable pub deadline : ℕ → Option (List Text) → Job → Option ℕ
unfolding any text_eq
deadline now connected job =
    if is_queued job.state
    then (if is_absent connected job.envelope.recipient_key_id
        then some job.expires_at
        else some (
            min job.expires_at (if ltb now job.not_before then job.not_before else now + retry_ms)))
    else if is_accepted job.state
    then none
    else some (max job.expires_at job.updated_at + retention_ms)

abbrev pub earliest : Option ℕ → Option ℕ → Option ℕ
earliest next none = next
earliest none (some at) = some at
earliest (some next) (some at) = some (min next at)

-- `typeof token === 'string' ? token : ''`
abbrev pub plain_text : Json → Text
plain_text (string s) = s
plain_text _ = []

module _ (sha256 : Text → Text) where
  abbrev pub save_row : StoredRow → Room → Room
  save_row row room =
      let written = write_task_job sha256 row room.boxes in
      record { rows = put_row written.0 room.rows; boxes = written.1 }

  unfoldable pub expire_row : ℕ → StoredRow → Boxes → StoredRow × Boxes
  unfolding write_task_job expire_job
  expire_row now row boxes =
      if is_expiring now row.job
      then write_task_job sha256 (with_job row (expire_job row.job now)) boxes
      else (row, boxes)

  unfoldable pub expire_rows : ℕ → List StoredRow → Boxes → List StoredRow × Boxes
  unfolding expire_row
  expire_rows now [] boxes = ([], boxes)
  expire_rows now (row ∷ rows) boxes =
      let first = expire_row now row boxes in
      let rest = expire_rows now rows first.1 in (first.0 ∷ rest.0, rest.1)

  -- `rows`
  unfoldable pub expired_room : ℕ → Room → Room
  unfolding expire_rows
  expired_room now room =
      let after = expire_rows now room.rows room.boxes in record { rows = after.0; boxes = after.1 }

  abbrev pub list_active : ℕ → Room → Room × List Job
  list_active now room =
      (expired_room now room, filter is_active (jobs_of (expired_room now room).rows))

  abbrev show : Bool → StoredRow → Boxes → Option StoredRow
  show true row boxes = some row
  show false row boxes = hydrate_task_job sha256 row boxes

  abbrev read_row : ℕ → Bool → Room → StoredRow → Room × Option StoredRow
  read_row now metadata_only room row =
      let saved =
        if is_expiring now row.job
        then save_row (with_job row (expire_job row.job now)) room
        else room in
      (saved, show metadata_only (with_job row (expire_job row.job now)) saved.boxes)

  -- `getPublic`: no answer is a job that is not there, and no row in it an error of its ciphertext. What
  -- is shown is the row as it was read, with the state it expired to, and not the one that was written.
  unfoldable pub get_public : Text → ℕ → Bool → Room → Room × Option (Option StoredRow)
  unfolding find hydrate_task_job write_task_job put_row expire_job
  get_public id now metadata_only room = elim (get_row room.rows id) [
    | none ↦ (room, none)
    | some row ↦ let read = read_row now metadata_only room row in (read.0, some read.1)
  ]

  -- The offer is none, or a row with its ciphertext; no row is an error of the ciphertext.
  unfoldable pub due : Text → ℕ → List Text → Room → Room × Option (Option StoredRow)
  unfolding expired_room first_row filter any hydrate_task_job
  due recipient now excluded room =
      let after = expired_room now room in
      (
        after,
        elim (first_row (filter (is_due recipient now excluded) after.rows)) [
          | none ↦ none
          | some row ↦ some (hydrate_task_job sha256 row after.boxes)
        ],
      )

  unfoldable pub insert : Text → Normalized → ℕ → Room → Room × Answer
  unfolding write_task_job put_row
  insert id n now room =
      if exceeds_capacity (jobs_of room.rows) (queued_row sha256 id n now).bytes
      then (room, record { status = 429; job = none })
      else (
        save_row (stored_row (queued_row sha256 id n now)) room,
        record { status = 201; job = some (queued_row sha256 id n now) },
      )

  unfoldable pub put_normalized : Text → Option StoredRow → Normalized → ℕ → Room → Room × Answer
  unfolding insert expired_room expire_job
  put_normalized id (some existing) n now room =
      if text_eq existing.job.fingerprint (sha256 n.canonical)
      then (room, record { status = 200; job = some (expire_job existing.job now) })
      else (room, record { status = 409; job = none })
  put_normalized id none n now room = insert id n now (expired_room now room)

  unfoldable pub put : (Json → Text) → Text → Text → Json → ℕ → Room → Room × Answer
  unfolding put_normalized normalize_job find
  put canonical_text name id body now room =
      elim (normalize_job canonical_text name id body
        (created_at_or (job_of (get_row room.rows id)) now)) [
          | none ↦ (room, record { status = 400; job = none })
          | some n ↦ put_normalized id (get_row room.rows id) n now room
        ]

  abbrev pub save_moved : Room → StoredRow → Transition → Room × Answer
  save_moved room row (moved job) =
      (save_row (with_job row job) room, record { status = 200; job = some job })
  save_moved room row (refused status) = (room, record { status = status; job = none })

  unfoldable pub transition : (Json → ℕ) → Text → Action → Proof → ℕ → Room → Room × Answer
  unfolding act write_task_job put_row find
  transition json_bytes id action proof now room = elim (get_row room.rows id) [
    | none ↦ (room, record { status = 404; job = none })
    | some row ↦
        save_moved room row
          (act json_bytes action row.job proof now (sha256 (plain_text proof.token)))
  ]

  -- The loop of `maintain`: the rows and chunks that stay, and the next alarm.
  unfoldable pub maintain_rows :
      ℕ → Option (List Text) → List StoredRow → Boxes → Option ℕ → List StoredRow × Boxes × Option ℕ
  unfolding expire_row delete_ciphertext deadline
  maintain_rows now connected [] boxes next = ([], boxes, next)
  maintain_rows now connected (saved ∷ rows) boxes next =
      let job = expire_job saved.job now in
      let gone = is_past_retention now job in
      let written =
        if gone
        then (saved, delete_ciphertext (with_job saved job) boxes)
        else expire_row now saved boxes in
      let later = if gone then next else earliest next (deadline now connected job) in
      let rest = maintain_rows now connected rows written.1 later in
      (if gone then rest.0 else written.0 ∷ rest.0, rest.1, rest.2)

  unfoldable pub maintain : ℕ → Option (List Text) → Option ℕ → Room → Room × Option ℕ
  unfolding maintain_rows
  maintain now connected configurations room =
      let after = maintain_rows now connected room.rows room.boxes configurations in
      (record { rows = after.0; boxes = after.1 }, after.2)
