-- ===== src/Tests/TaskJobs.antt =====
-- src/taskDispatch/policy.js and src/taskDispatch/node.js at concrete inputs.
use granttap_relay.Prelude.{
  ℕ, ◌≡◌, ◌≢◌, inl, inr, refl, true, List, [], ◌∷◌, none, some, arith, Text, codes, text_eq, all,
  any, filter, sum_by, find, is_hex_text, byte_length, ap, starts_with,
}
use granttap_relay.Relay.Json.{
  Json, integer, string, object, end, field, get, lookup, every_key, truthy,
}
use granttap_relay.Relay.Validation.{
  valid_room, valid_envelope, envelope_problem, has_envelope_shape, valid_retained_state,
  has_no_state, only_known_fields, valid_identifier, tests_hex, is_base64_text, base64_rest,
  ttl_limit, is_extended,
}
use granttap_relay.Relay.Support.{constant_time_equal, difference}
use granttap_relay.Jobs.Policy.{
  queued, accepted, Job, Proof, moved, retains_task_payload, claim_job, claim_current, finish_job,
  finish_held, finish_as, finished, valid_proof, valid_claim_id, valid_job_id, final_state,
  known_code, valid_result, retire_job, expire_job, cancel_job, cancel_current,
}
use granttap_relay.Jobs.Lifecycle.{
  Call, claiming, cancelling, expiring, step, run, IsJob, Good, step-Good,
}
use granttap_relay.Jobs.Due.{due, first_of}
use granttap_relay.Jobs.Claims.{is_refused, claim-exclusive}
use granttap_relay.Jobs.Store.{
  put, transition, claim, save, act, put_normalized, insert_job, normalize_job, expire_queued,
  valid_body, valid_job_envelope, valid_writer, valid_window,
}
use granttap_relay.Jobs.Capacity.{IsQueue, put-IsQueue, transition-IsQueue}

program : Unit {0}
unfolding constant_time_equal difference retains_task_payload claim_job claim_current finish_job
    finish_held finish_as finished valid_proof valid_claim_id valid_job_id final_state known_code
    valid_result retire_job expire_job cancel_job cancel_current step run put transition save act
    text_eq all any filter sum_by find is_hex_text byte_length get lookup every_key truthy
    put_normalized insert_job normalize_job expire_queued valid_body valid_job_envelope valid_writer
    valid_window valid_room valid_envelope envelope_problem has_envelope_shape valid_retained_state
    has_no_state only_known_fields valid_identifier tests_hex is_base64_text base64_rest ttl_limit
    is_extended starts_with
program = tt

abbrev token : Text
token = codes "0000000000000000000000000000000000000000000000000000000000000000"

-- A digest for the tests: the token's own text.
abbrev same_text : Text → Text
same_text text = text

abbrev no_bytes : Json → ℕ
no_bytes _ = 0

abbrev first_claim : Text
first_claim = codes "receiver-1"

abbrev second_claim : Text
second_claim = codes "receiver-2"

abbrev job : Job
job = record {
  id = codes "job-00000001";
  state = queued;
  not_before = 0;
  expires_at = 10_000;
  created_at = 0;
  updated_at = 0;
  acceptance_hash = token;
  fingerprint = [];
  envelope = record {
    room = codes "r";
    recipient_key_id = codes "k";
    seal = some (record { nonce = codes "n"; box = codes "b" });
  };
  bytes = 100;
  claim_id = none;
  result_code = none;
  result_envelope = none;
  writer_id = none;
  writer_source_key_id = none;
}

abbrev proof_of : Text → Proof
proof_of claim_id = record {
  recipient_key_id = some (codes "k");
  token = string token;
  claim_id = some claim_id;
  state = some (codes "completed");
  result_code = none;
  result_envelope = none;
}

abbrev held : Job
held = record job { state = accepted; claim_id = some first_claim; updated_at = 5 }

held_by_first : claim_job job (proof_of first_claim) 5 token ≡ moved held
unfolding program
held_by_first = refl

job-IsJob : IsJob job
unfolding program
job-IsJob = record { retired = inl refl; unclaimed = inr refl }

held-IsJob : IsJob held
unfolding program
held-IsJob = record { retired = inl refl; unclaimed = inl refl }

step-Good_example : Good job (step no_bytes (5, claiming (proof_of first_claim) token) job)
step-Good_example = step-Good no_bytes (5, claiming (proof_of first_claim) token) job job-IsJob

abbrev calls : List (ℕ × Call)
calls = (6, cancelling) ∷ (7, expiring) ∷ (8, claiming (proof_of second_claim) token) ∷ []

two_claims : second_claim ≢ first_claim
unfolding program
two_claims e = absurd (cc (ap (text_eq first_claim) e))

claim-exclusive_example :
    (is_refused (claim_job (run no_bytes calls held) (proof_of second_claim) 9 token) ≡ true)
    × (is_refused (finish_job no_bytes (run no_bytes calls held) (proof_of second_claim) 9 token)
        ≡ true)
claim-exclusive_example =
    claim-exclusive no_bytes calls held first_claim second_claim (proof_of second_claim) 9 token
      held-IsJob refl refl refl two_claims

jobs-IsQueue : IsQueue (job ∷ [])
unfolding program
jobs-IsQueue = record {
  valid = (job-IsJob, tt);
  receipts = omega arith;
  active = omega arith;
  payload = omega arith;
}

transition-IsQueue_example :
    IsQueue
      (transition same_text no_bytes
        (codes "job-00000001")
        claim
        (proof_of first_claim)
        5
        (job ∷ [])).0
transition-IsQueue_example =
    transition-IsQueue same_text no_bytes (codes "job-00000001") claim (proof_of first_claim) 5
      (job ∷ []) jobs-IsQueue

abbrev room : Text
room = codes "00112233445566778899aabbccddeeff"

abbrev job_id : Text
job_id = codes "job-00000002"

abbrev body : Json
body = object (
    field (codes "notBefore") (integer 0) (
      field (codes "expiresAt") (integer 10_000) (
        field (codes "acceptanceHash") (string token) (
          field (codes "envelope")
            (object (
              field (codes "v") (integer 1) (
                field (codes "room") (string room) (
                  field (codes "from") (string (codes "phone")) (
                    field (codes "to") (string (codes "machine")) (
                      field (codes "senderId") (string (codes "phone")) (
                        field (codes "deliveryId") (string job_id) (
                          field (codes "recipientKeyId") (string token) (
                            field (codes "expiresAt") (integer 10_000) (
                              field (codes "nonce")
                                (string (codes "AAAAAAAAAAAAAAAAAAAAAAAAAAAAAAAA"))
                                (field (codes "box") (string (codes "AAAAAAAAAAAAAAAAAAAAAA=="))
                                  end)))))))))))
            end))))

abbrev body_text : Json → Text
body_text _ = codes "{}"

put_status : (put body_text same_text room job_id body 5 (job ∷ [])).1.status ≡ 201
unfolding program
put_status = refl

put-IsQueue_example : IsQueue (put body_text same_text room job_id body 5 (job ∷ [])).0
put-IsQueue_example = put-IsQueue same_text body_text room job_id body 5 (job ∷ []) jobs-IsQueue

job_due : (due (codes "k") 5 [] (job ∷ [])).1 ≡ some job
unfolding program due first_of
job_due = refl
