-- ===== src/Jobs/Store.antt =====
-- src/taskDispatch/node.js: the jobs of one room in the table `task_jobs`. A transaction is one
-- function; `JSON.stringify` and the SHA-256 digest are parameters.
use granttap_relay.Prelude.{
  ℕ, ◌+◌, ◌*◌, ◌-◌, Bool, true, false, not, ◌&&◌, ◌||◌, List, [], ◌∷◌, map, Option, none, some, ltb,
  leb, ◌==◌, if◌then◌else◌, get_or, is_some, length, filter, find, any, sum_by, max, Text, codes,
  text_eq, byte_length, is_hex_text,
}
use granttap_relay.Relay.Json.{
  text_value, Json, undefined, integer, string, object, get, every_key, truthy, is_text, to_text,
  is_safe_integer, string_and,
}
use granttap_relay.Relay.Validation.{tests_hex, valid_envelope}
use granttap_relay.Jobs.Policy.{
  JobState, queued, accepted, Job, JobEnvelope, Proof, retains_task_payload, expire_job, Transition,
  moved, refused, claim_job, cancel_job, finish_job, valid_job_id, job_ttl_ms, job_bytes,
  room_job_bytes, room_job_limit, room_receipt_limit,
}

pub record Normalized : Type 0 where
  pub not_before : ℕ
  pub expires_at : ℕ
  pub acceptance_hash : Text
  pub envelope : JobEnvelope
  pub writer_id : Option Text
  pub writer_source_key_id : Option Text
  pub canonical : Text

abbrev body_fields : List Text
body_fields =
    codes "notBefore"
    ∷ codes "expiresAt"
    ∷ codes "acceptanceHash"
    ∷ codes "envelope"
    ∷ codes "writerId"
    ∷ codes "writerSourceKeyId"
    ∷ []

abbrev only_body_fields : Json → Bool
only_body_fields (object fields) = every_key (λ key. any (text_eq key) body_fields) fields
only_body_fields _ = false

abbrev is_undefined : Json → Bool
is_undefined undefined = true
is_undefined _ = false

abbrev number_of : Json → Option ℕ
number_of (integer n) = some n
number_of _ = none

abbrev text_of : Json → Text
text_of (string s) = s
text_of _ = []

unfoldable pub valid_writer : Json → Bool
unfolding tests_hex valid_job_id
valid_writer body =
    if is_undefined (get body (codes "writerId"))
    then is_undefined (get body (codes "writerSourceKeyId"))
    else string_and (get body (codes "writerId")) valid_job_id
      && tests_hex (get body (codes "writerSourceKeyId"))

-- The window of a job; a negative time is refused like any other that is no number.
unfoldable pub valid_window : Option ℕ → Option ℕ → ℕ → Bool
valid_window none expires_at now = false
valid_window (some not_before) none now = false
valid_window (some not_before) (some expires_at) now =
    ltb now expires_at
    && ltb not_before expires_at
    && leb (expires_at - not_before) job_ttl_ms
    && leb expires_at (now + job_ttl_ms)

abbrev same_number : Option ℕ → Option ℕ → Bool
same_number (some a) (some b) = a == b
same_number (some a) none = false
same_number none _ = false

unfoldable pub valid_job_envelope : Json → Text → Text → Json → ℕ → Bool
unfolding tests_hex
valid_job_envelope envelope room id expires_at now =
    truthy envelope
    && is_text (get envelope (codes "deliveryId")) id
    && is_text (get envelope (codes "to")) (codes "machine")
    && tests_hex (get envelope (codes "recipientKeyId"))
    && same_number (number_of (get envelope (codes "expiresAt"))) (number_of expires_at)
    && valid_envelope envelope room now (some job_ttl_ms)

abbrev is_safe_number : Json → Bool
is_safe_number value = is_safe_integer value && is_some (number_of value)

unfoldable pub valid_body : Text → Text → Json → ℕ → Bool
unfolding valid_writer valid_window valid_job_envelope tests_hex valid_job_id every_key is_hex_text
    any text_eq
valid_body room id body now =
    is_hex_text 16 64 room
    && valid_job_id id
    && only_body_fields body
    && valid_writer body
    && is_safe_number (get body (codes "notBefore"))
    && is_safe_number (get body (codes "expiresAt"))
    && valid_window (number_of (get body (codes "notBefore")))
        (number_of (get body (codes "expiresAt"))) now
    && tests_hex (get body (codes "acceptanceHash"))
    && valid_job_envelope (get body (codes "envelope")) room id (get body (codes "expiresAt")) now

abbrev job_envelope : Text → Json → JobEnvelope
job_envelope room envelope = record {
  room = room;
  recipient_key_id = text_of (get envelope (codes "recipientKeyId"));
  seal = some (record {
    nonce = text_of (get envelope (codes "nonce"));
    box = text_of (get envelope (codes "box"));
  });
}

-- `SELECT record FROM task_jobs WHERE room = ? AND id = ?`
abbrev pub get_job : List Job → Text → Option Job
get_job jobs id = find (λ job. text_eq job.id id) jobs

-- An insert that updates the row on a conflict of its key.
unfoldable pub save : Job → List Job → List Job
save row [] = row ∷ []
save row (job ∷ jobs) = if text_eq job.id row.id then row ∷ jobs else job ∷ save row jobs

-- `expireQueued`: every job whose time has come is saved as expired.
unfoldable pub expire_queued : ℕ → List Job → List Job
expire_queued now jobs = map (λ job. expire_job job now) jobs

abbrev pub is_active : Job → Bool
is_active job = retains_task_payload job.state

abbrev pub active_bytes : List Job → ℕ
active_bytes jobs = sum_by (λ job. job.bytes) (filter is_active jobs)

-- The HTTP status, and the job that the answer shows.
pub record Answer : Type 0 where
  pub status : ℕ
  pub job : Option Job

abbrev pub created_at_or : Option Job → ℕ → ℕ
created_at_or none now = now
created_at_or (some job) now = job.created_at

abbrev pub exceeds_capacity : List Job → ℕ → Bool
exceeds_capacity jobs bytes =
    leb room_receipt_limit (length jobs)
    || leb room_job_limit (length (filter is_active jobs))
    || ltb room_job_bytes (active_bytes jobs + bytes)

pub data Action : Type 0 where
  claim finish cancel : Action

abbrev pub save_moved : List Job → Transition → List Job × Answer
save_moved jobs (moved row) = (save row jobs, record { status = 200; job = some row })
save_moved jobs (refused status) = (jobs, record { status = status; job = none })

abbrev retention_ms : ℕ
retention_ms = 7 * 86_400_000

abbrev pub is_accepted : JobState → Bool
is_accepted accepted = true
is_accepted queued = false
is_accepted _ = false

-- The rows that `purge` deletes, once it has expired them.
abbrev pub is_past_retention : ℕ → Job → Bool
is_past_retention now row =
    not (is_accepted row.state) && ltb (max row.expires_at row.updated_at + retention_ms) now

-- A row outside the statement's selection is neither expired nor past its retention.
unfoldable pub purge : ℕ → List Job → List Job
purge now jobs = filter (λ row. not (is_past_retention now row)) (expire_queued now jobs)

-- The JSON text of a body in its normal form, the digest of a text and the bytes of a JSON text.
module _ (canonical_text : Json → Text) where
  unfoldable pub normalize_job : Text → Text → Json → ℕ → Option Normalized
  normalize_job room id body now =
      if valid_body room id body now && leb (byte_length (canonical_text body)) job_bytes
      then some (record {
        not_before = get_or (number_of (get body (codes "notBefore"))) 0;
        expires_at = get_or (number_of (get body (codes "expiresAt"))) 0;
        acceptance_hash = text_of (get body (codes "acceptanceHash"));
        envelope = job_envelope room (get body (codes "envelope"));
        writer_id = to_text (get body (codes "writerId"));
        writer_source_key_id = to_text (get body (codes "writerSourceKeyId"));
        canonical = canonical_text body;
      })
      else none

module _ (sha256 : Text → Text) where
  abbrev pub queued_row : Text → Normalized → ℕ → Job
  queued_row id n now = record {
    id = id;
    state = queued;
    not_before = n.not_before;
    expires_at = n.expires_at;
    created_at = now;
    updated_at = now;
    acceptance_hash = n.acceptance_hash;
    fingerprint = sha256 n.canonical;
    envelope = n.envelope;
    bytes = byte_length n.canonical;
    claim_id = none;
    result_code = none;
    result_envelope = none;
    writer_id = n.writer_id;
    writer_source_key_id = n.writer_source_key_id;
  }

  unfoldable pub insert_job : Text → Normalized → ℕ → List Job → List Job × Answer
  insert_job id n now jobs =
      if exceeds_capacity jobs (byte_length n.canonical)
      then (jobs, record { status = 429; job = none })
      else (
        save (queued_row id n now) jobs,
        record { status = 201; job = some (queued_row id n now) },
      )

  unfoldable pub put_normalized : Text → Option Job → Normalized → ℕ → List Job → List Job × Answer
  unfolding insert_job expire_queued
  put_normalized id (some existing) n now jobs =
      if text_eq existing.fingerprint (sha256 n.canonical)
      then (jobs, record { status = 200; job = some (expire_job existing now) })
      else (jobs, record { status = 409; job = none })
  put_normalized id none n now jobs = insert_job id n now (expire_queued now jobs)

module _ (canonical_text : Json → Text) (sha256 : Text → Text) where
  unfoldable pub put : Text → Text → Json → ℕ → List Job → List Job × Answer
  unfolding put_normalized
  put room id body now jobs =
      elim (normalize_job canonical_text room id body (created_at_or (get_job jobs id) now)) [
        | none ↦ (jobs, record { status = 400; job = none })
        | some n ↦ put_normalized sha256 id (get_job jobs id) n now jobs
      ]

-- With the digest of the proof's token, which the two stores form in their own ways
unfoldable pub act : (Json → ℕ) → Action → Job → Proof → ℕ → Text → Transition
act json_bytes claim row proof now hash = claim_job row proof now hash
act json_bytes finish row proof now hash = finish_job json_bytes row proof now hash
act json_bytes cancel row proof now hash = cancel_job row now

module _ (sha256 : Text → Text) (json_bytes : Json → ℕ) where
  unfoldable pub transition : Text → Action → Proof → ℕ → List Job → List Job × Answer
  unfolding act text_value
  transition id action proof now jobs = elim (get_job jobs id) [
    | none ↦ (jobs, record { status = 404; job = none })
    | some row ↦
        save_moved jobs (act json_bytes action row proof now (sha256 (text_value proof.token)))
  ]
