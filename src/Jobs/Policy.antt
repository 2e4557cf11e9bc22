-- ===== src/Jobs/Policy.antt =====
-- src/taskDispatch/policy.js: the life of one job. The SHA-256 digest of a proof's token and the
-- bytes of a result's JSON text are arguments.
use granttap_relay.Prelude.{
  ℕ, ◌*◌, Bool, true, false, not, ◌&&◌, ◌||◌, List, [], ◌∷◌, Option, none, some, ltb, leb, ◌==◌,
  if◌then◌else◌, get_or, is_some, length, all, any, Text, codes, text_eq, is_alphanumeric,
}
use granttap_relay.Relay.Json.{Json, get, truthy, is_text}
use granttap_relay.Relay.Support.{constant_time_equal}
use granttap_relay.Relay.Validation.{valid_envelope, tests_hex}

abbrev pub job_ttl_ms : ℕ
job_ttl_ms = 30 * 86_400_000

abbrev pub job_bytes : ℕ
job_bytes = 22_000_000

abbrev pub room_job_bytes : ℕ
room_job_bytes = 48_000_000

abbrev pub room_job_limit : ℕ
room_job_limit = 100

abbrev pub room_receipt_limit : ℕ
room_receipt_limit = 10_000

pub data JobState : Type 0 where
  queued accepted completed failed cancelled expired : JobState

-- The ciphertext of an envelope: its nonce and box.
pub record Sealed : Type 0 where
  pub nonce : Text
  pub box : Text

-- What the queue reads of an envelope; `seal` is gone once the job is retired.
pub record JobEnvelope : Type 0 where
  pub room : Text
  pub recipient_key_id : Text
  pub seal : Option Sealed

pub record Job : Type 0 where
  pub id : Text
  pub state : JobState
  pub not_before : ℕ
  pub expires_at : ℕ
  pub created_at : ℕ
  pub updated_at : ℕ
  pub acceptance_hash : Text
  pub fingerprint : Text
  pub envelope : JobEnvelope
  pub bytes : ℕ
  pub claim_id : Option Text
  pub result_code : Option Text
  pub result_envelope : Option Json
  pub writer_id : Option Text
  pub writer_source_key_id : Option Text

-- The body of a claim or of a finish; a missing field is `none`.
pub record Proof : Type 0 where
  pub recipient_key_id : Option Text
  pub token : Json
  pub claim_id : Option Text
  pub state : Option Text
  pub result_code : Option Text
  pub result_envelope : Option Json

-- `retainsTaskPayload`: the states that count against the room's capacity.
unfoldable pub retains_task_payload : JobState → Bool
retains_task_payload queued = true
retains_task_payload accepted = true
retains_task_payload failed = true
retains_task_payload _ = false

abbrev is_id_char : ℕ → Bool
is_id_char c = is_alphanumeric c || c == b'_' || c == b'-'

unfoldable pub valid_job_id : Text → Bool
unfolding all
valid_job_id [] = false
valid_job_id (c ∷ rest) =
    is_alphanumeric c && all is_id_char rest && leb 7 (length rest) && leb (length rest) 119

unfoldable pub valid_claim_id : Option Text → Bool
unfolding valid_job_id
valid_claim_id none = false
valid_claim_id (some id) = valid_job_id id

unfoldable pub retire_job : Job → JobState → ℕ → Job
retire_job row state updated_at = record row {
  envelope = record {
    room = row.envelope.room;
    recipient_key_id = row.envelope.recipient_key_id;
    seal = none;
  };
  state = state;
  updated_at = updated_at;
  bytes = 0;
}

abbrev pub is_queued : JobState → Bool
is_queued queued = true
is_queued accepted = false
is_queued _ = false

unfoldable pub expire_job : Job → ℕ → Job
expire_job row now =
    if is_queued row.state && leb row.expires_at now
    then retire_job row expired row.expires_at
    else row

abbrev pub option_eq : Option Text → Text → Bool
option_eq none text = false
option_eq (some other) text = text_eq other text

unfoldable pub valid_proof : Job → Proof → Text → Bool
unfolding constant_time_equal tests_hex
valid_proof row proof proof_hash =
    option_eq proof.recipient_key_id row.envelope.recipient_key_id
    && tests_hex proof.token
    && constant_time_equal proof_hash row.acceptance_hash

-- The HTTP status with the new row, or the status of a refusal.
pub data Transition : Type 0 where
  moved : Job → Transition
  refused : ℕ → Transition

unfoldable pub claim_current : Job → Proof → ℕ → Transition
claim_current current proof now =
    if not (valid_claim_id proof.claim_id) then refused 400 else elim current.state [
      | accepted ↦
          if option_eq current.claim_id (get_or proof.claim_id [])
          then moved current
          else refused 409
      | queued ↦
          if ltb now current.not_before
          then refused 409
          else moved
              (record current { state = accepted; claim_id = proof.claim_id; updated_at = now })
      | _ ↦ refused 409
    ]

unfoldable pub claim_job : Job → Proof → ℕ → Text → Transition
claim_job row proof now proof_hash =
    if not (valid_proof row proof proof_hash)
    then refused 403
    else claim_current (expire_job row now) proof now

unfoldable pub cancel_current : Job → ℕ → Transition
cancel_current current now = elim current.state [
  | cancelled ↦ moved current
  | queued ↦ moved (retire_job current cancelled now)
  | failed ↦ moved (retire_job current cancelled now)
  | _ ↦ refused 409
]

unfoldable pub cancel_job : Job → ℕ → Transition
cancel_job row now = cancel_current (expire_job row now) now

abbrev result_codes : List Text
result_codes =
    codes "provider_unavailable"
    ∷ codes "policy_denied"
    ∷ codes "delivery_failed"
    ∷ codes "cancelled"
    ∷ codes "confirmation_required"
    ∷ []

unfoldable pub known_code : Option Text → Bool
unfolding any text_eq
known_code none = true
known_code (some code) = any (text_eq code) result_codes

-- `completed` or `failed`, the words that a finish may name.
unfoldable pub final_state : Option Text → Option JobState
unfolding text_eq
final_state none = none
final_state (some word) =
    if text_eq word (codes "completed")
    then some completed
    else if text_eq word (codes "failed")
    then some failed
    else none

abbrev same_state : JobState → JobState → Bool
same_state completed completed = true
same_state failed failed = true
same_state _ _ = false

module _ (json_bytes : Json → ℕ) where
  unfoldable pub valid_result : Job → Option Json → ℕ → Bool
  valid_result row none now = true
  valid_result row (some result) now =
      is_some row.writer_id
      && truthy result
      && is_text (get result (codes "from")) (codes "machine")
      && is_text (get result (codes "to")) (codes "machine")
      && is_text (get result (codes "recipientKeyId")) (get_or row.writer_source_key_id [])
      && valid_envelope result row.envelope.room now (some job_ttl_ms)
      && leb (json_bytes result) 32_000

  abbrev with_result : Proof → Job → Job
  with_result proof row = record row {
    result_code = elim proof.result_code [ none ↦ row.result_code | some c ↦ some c ];
    result_envelope = elim proof.result_envelope [ none ↦ row.result_envelope | some r ↦ some r ];
  }

  -- The row of a job that leaves the accepted state.
  unfoldable pub finished : Job → Proof → JobState → ℕ → Job
  finished row proof completed now = with_result proof (retire_job row completed now)
  finished row proof state now = with_result proof (record row { state = state; updated_at = now })

  unfoldable pub finish_as : Job → Proof → JobState → ℕ → Transition
  finish_as row proof state now =
      if not (known_code proof.result_code)
      then refused 400
      else if same_state row.state state
      then moved row
      else elim row.state [
        | accepted ↦
            if valid_result row proof.result_envelope now
            then moved (finished row proof state now)
            else refused 400
        | queued ↦ refused 409
        | _ ↦ refused 409
      ]

  -- `finishJob` of a job whose claim is `claimed`; an empty claim is none.
  unfoldable pub finish_held : Job → Proof → ℕ → Text → Transition
  finish_held row proof now claimed =
      if length claimed == 0
      then refused 409
      else if not (valid_claim_id proof.claim_id && option_eq proof.claim_id claimed)
      then refused 403
      else elim (final_state proof.state) [
        | none ↦ refused 400
        | some state ↦ finish_as row proof state now
      ]

  unfoldable pub finish_job : Job → Proof → ℕ → Text → Transition
  finish_job row proof now proof_hash =
      if not (valid_proof row proof proof_hash) then refused 403 else elim row.claim_id [
        | none ↦ refused 409
        | some claimed ↦ finish_held row proof now claimed
      ]
