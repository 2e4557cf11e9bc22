-- ===== src/Tests/Meetings.antt =====
-- src/relay/pairingMailbox.js, src/relay/endpointDirectory.js, src/relay/endpointRetention.js and
-- src/taskDispatch/writers/index.js at concrete inputs.
use granttap_relay.Prelude.{
  ℕ, ◌+◌, ◌≤◌, ◌≡◌, refl, Bool, true, false, List, [], ◌∷◌, none, some, arith, Text, codes, text_eq,
  any, all, filter, find, is_hex_text,
}
use granttap_relay.Relay.Json.{Json, integer, string, object, end, field, get, lookup, every_key}
use granttap_relay.Relay.Validation.{is_base64_text, base64_rest, valid_room, valid_room_credential}
use granttap_relay.Relay.Support.{constant_time_equal, difference}
use granttap_relay.Rendezvous.Pairing.{
  empty, putting, looking, taking, Request, valid_base64, put, take, head, alarm, run,
}
use granttap_relay.Rendezvous.Pairing.SingleUse.{held, run-handed}
use granttap_relay.Rendezvous.Endpoints.{
  Endpoint, Directory, put_directory_endpoint, endpoint_response, valid_endpoint_record,
  count_fields,
}
use granttap_relay.Rendezvous.Endpoints.Bounds.{IsDirectory, put_directory_endpoint-IsDirectory}
use granttap_relay.Jobs.Policy.{valid_job_id}
use granttap_relay.Jobs.Writers.{
  Writer, Credential, authorize, put_grant, valid_grant, commit_writer_grant, existing_writer,
  writer_retained_until,
}

program : Unit {0}
unfolding text_eq any all filter find is_hex_text get lookup every_key is_base64_text base64_rest
    valid_room valid_room_credential constant_time_equal difference valid_base64 put take head alarm
    run endpoint_response valid_endpoint_record count_fields valid_job_id authorize put_grant
    valid_grant commit_writer_grant existing_writer writer_retained_until
program = tt

abbrev every_text : Text → Bool
every_text _ = true

abbrev offer : Json
offer = object (
    field (codes "nonce") (string (codes "AAAAAAAAAAAAAAAAAAAAAAAAAAAAAAAA"))
      (field (codes "box") (string (codes "AAAAAAAAAAAAAAAAAAAAAAAA")) end))

abbrev requests : List (ℕ × Request)
requests =
    (0, putting (some offer))
    ∷ (1, putting (some offer))
    ∷ (2, looking)
    ∷ (3, taking)
    ∷ (4, taking)
    ∷ []

-- The second put and the second read are refused.
one_offer : (run every_text requests empty).1 ≡ 1
unfolding program
one_offer = refl

one_answer : (run every_text requests empty).2 ≡ 1
unfolding program
one_answer = refl

run-handed_example :
    (run every_text requests empty).2 + held (run every_text requests empty).0.pairing
    ≤ held empty.pairing + (run every_text requests empty).1
run-handed_example = run-handed every_text requests empty

abbrev endpoint : Endpoint
endpoint = record { key = codes "a"; expires_at = 500; value = offer }

abbrev directory : Directory
directory = record {
  rows = record { key = codes "b"; expires_at = 300; value = offer } ∷ [];
  alarm_at = some 300;
}

put_directory_endpoint-IsDirectory_example :
    IsDirectory (put_directory_endpoint endpoint 100 directory).0
put_directory_endpoint-IsDirectory_example =
    put_directory_endpoint-IsDirectory endpoint 100 directory (omega arith)

abbrev room : Json
room = string (codes "00112233445566778899aabbccddeeff")

abbrev key : Text
key = codes "0000000000000000000000000000000000000000000000000000000000000000"

abbrev grant_body : Json
grant_body = object (
    field (codes "sourceKeyId") (string key) (
      field (codes "recipientKeyId") (string key) (
        field (codes "scopeHash") (string key) (
          field (codes "tokenHash") (string key) (field (codes "expiresAt") (integer 1_000) end)))))

abbrev writer : Writer
writer = record {
  id = codes "writer-0001";
  grant = record {
    source_key_id = key;
    recipient_key_id = key;
    scope_hash = key;
    token_hash = key;
    expires_at = 1_000;
  };
  revoked_at = none;
}

granted : put_grant (codes "writer-0001") grant_body 5 [] ≡ (writer ∷ [], 201)
unfolding program
granted = refl

abbrev same_text : Text → Text
same_text text = text

abbrev credential : Credential
credential = record { id = codes "writer-0001"; token = key }

let_in : authorize same_text (some credential) 10 false (writer ∷ []) ≡ some writer
unfolding program
let_in = refl
