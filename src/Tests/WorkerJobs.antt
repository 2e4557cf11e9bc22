-- ===== src/Tests/WorkerJobs.antt =====
-- src/taskDispatch/worker.js and src/taskDispatch/worker-ciphertext.js at concrete inputs.
use granttap_relay.Prelude.{ℕ, ◌≡◌, refl, true, [], ◌∷◌, none, some, arith, Text, codes, all}
use granttap_relay.Relay.Json.{Json, string}
use granttap_relay.Jobs.Policy.{queued, Job, Proof, retains_task_payload}
use granttap_relay.Jobs.Store.{claim}
use granttap_relay.Jobs.Store
use granttap_relay.Jobs.Ciphertext.{Boxes, cipher_of, write_task_job, hydrate_task_job}
use granttap_relay.Jobs.Ciphertext.Roundtrip.{hydrate_task_job-write_task_job}
use granttap_relay.Jobs.Worker.{Room, stored_row, jobs_of, text_lt, maintain, transition}
use granttap_relay.Jobs.Worker.Alarms.{is_covered, maintain-covers}
use granttap_relay.Jobs.Worker.Agreement.{IsSorted, transition-agrees}

program : Unit {0}
unfolding retains_task_payload text_lt all
program = tt

abbrev same_text : Text → Text
same_text text = text

abbrev no_bytes : Json → ℕ
no_bytes _ = 0

abbrev box : Text
box = codes "aaaaaaaaaaaaaaaaaaaaaaaaaaaa"

abbrev job_with : Text → Job
job_with id = record {
  id = id;
  state = queued;
  not_before = 0;
  expires_at = 10_000;
  created_at = 0;
  updated_at = 0;
  acceptance_hash = codes "h";
  fingerprint = [];
  envelope = record {
    room = codes "r";
    recipient_key_id = codes "k";
    seal = some (record { nonce = codes "n"; box = [] });
  };
  bytes = 100;
  claim_id = none;
  result_code = none;
  result_envelope = none;
  writer_id = none;
  writer_source_key_id = none;
}

abbrev job : Job
job = job_with (codes "job-1")

abbrev no_boxes : Boxes
no_boxes id index = none

keeps : retains_task_payload job.state ≡ true
unfolding program
keeps = refl

hydrate_task_job-write_task_job_example :
    hydrate_task_job same_text
      (write_task_job same_text (record { job = job; box = some box; cipher = none }) no_boxes).0
      (write_task_job same_text (record { job = job; box = some box; cipher = none }) no_boxes).1
    ≡ some (record { job = job; box = some box; cipher = some (cipher_of same_text box) })
hydrate_task_job-write_task_job_example =
    hydrate_task_job-write_task_job same_text job box no_boxes keeps (omega arith) (omega arith)

abbrev room : Room
room = record {
  rows = stored_row job ∷ stored_row (job_with (codes "job-2")) ∷ [];
  boxes = no_boxes;
}

maintain-covers_example :
    all
      (is_covered 5
        (some (codes "k" ∷ []))
        (maintain same_text 5 (some (codes "k" ∷ [])) none room).1)
      (maintain same_text 5 (some (codes "k" ∷ [])) none room).0.rows
    ≡ true
maintain-covers_example = maintain-covers same_text 5 (some (codes "k" ∷ [])) none room

sorted : IsSorted room.rows
unfolding program
sorted = (refl, (refl, tt))

abbrev proof : Proof
proof = record {
  recipient_key_id = some (codes "k");
  token = string (codes "t");
  claim_id = some (codes "receiver-1");
  state = none;
  result_code = none;
  result_envelope = none;
}

transition-agrees_example :
    Store.transition same_text no_bytes (codes "job-2") claim proof 5 (jobs_of room.rows) ≡ (
      jobs_of (transition same_text no_bytes (codes "job-2") claim proof 5 room).0.rows,
      (transition same_text no_bytes (codes "job-2") claim proof 5 room).1,
    )
transition-agrees_example =
    transition-agrees same_text no_bytes (codes "job-2") claim proof 5 room refl sorted
