-- ===== src/Tests/Writers.antt =====
-- src/taskDispatch/index.js at a concrete input.
use granttap_relay.Prelude.{◌≡◌, refl, false, [], ◌∷◌, none, some, Text, codes, ◌++◌}
use granttap_relay.Relay.Json.{Json, get, integer, string, object, end, field}
use granttap_relay.Jobs.Writers.{Writer, authorize}
use granttap_relay.Jobs.Routes.{
  put_method, path_of, put_job, perform, Request, signed_body, Existing, credential_of,
  retained_read, task_dispatch_response,
}
use granttap_relay.Jobs.Routes.Scope.{InScope, task_dispatch_response-InScope}

abbrev token : Text
token = codes "0000000000000000000000000000000000000000000000000000000000000000"

abbrev same_text : Text → Text
same_text text = text

abbrev writer : Writer
writer = record {
  id = codes "writer-1";
  grant = record {
    source_key_id = codes "s";
    recipient_key_id = codes "k";
    scope_hash = [];
    token_hash = token;
    expires_at = 100;
  };
  revoked_at = none;
}

abbrev credential : Text
credential = codes "writer:writer-1:" ++ token

abbrev body : Json
body = object (
    field (codes "envelope") (object (field (codes "recipientKeyId") (string (codes "k")) end))
      (field (codes "expiresAt") (integer 50) end))

abbrev request : Request
request = record {
  method = put_method;
  path = path_of (codes "/task-jobs/job-00000001");
  metadata_only = false;
  body = body;
}

abbrev room : Json
room = string (codes "aaaaaaaaaaaaaaaa")

abbrev no_jobs : Text → Existing
no_jobs id = none

performed :
    task_dispatch_response same_text request room false (some credential) 10 (writer ∷ []) no_jobs
    ≡ perform (put_job (codes "job-00000001") (signed_body writer body))
unfolding task_dispatch_response path_of get
performed = refl

task_dispatch_response-InScope_example :
    (w : Writer) × (authorize same_text
        (credential_of (some credential))
        10
        (retained_read request)
        (writer ∷ [])
      ≡ some w)
    × InScope w no_jobs (put_job (codes "job-00000001") (signed_body writer body))
task_dispatch_response-InScope_example =
    task_dispatch_response-InScope same_text request room (some credential) 10 (writer ∷ []) no_jobs
      (put_job (codes "job-00000001") (signed_body writer body)) performed
