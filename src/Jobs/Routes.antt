-- ===== src/Jobs/Routes.antt =====
-- src/taskDispatch/index.js: which operation of the store a request leads to, and the credential of a
-- writer of src/taskDispatch/writers/index.js. What the request reads of the store beforehand, the rows
-- of the writers and the writer of each job that is there, is an argument, and so is its body.
pub mod Scope
use granttap_relay.Prelude.{
  ℕ, Bool, true, false, not, ◌&&◌, ◌||◌, List, [], ◌∷◌, Option, none, some, ◌==◌, if◌then◌else◌,
  is_some, Text, codes, text_eq, is_hex_text, split,
}
use granttap_relay.Relay.Json.{Json, Fields, string, object, end, field, get, is_text, exceeds}
use granttap_relay.Relay.Validation.{valid_room}
use granttap_relay.Jobs.Policy.{valid_job_id}
use granttap_relay.Jobs.Store.{Action, claim, finish, cancel}
use granttap_relay.Jobs.Writers.{Writer, Credential, authorize}

pub data Method : Type 0 where
  get_method put_method post_method delete_method other_method : Method

abbrev pub is_get : Method → Bool
is_get get_method = true
is_get _ = false

abbrev pub is_put : Method → Bool
is_put put_method = true
is_put get_method = false
is_put _ = false

abbrev pub is_post : Method → Bool
is_post post_method = true
is_post get_method = false
is_post _ = false

abbrev pub is_delete : Method → Bool
is_delete delete_method = true
is_delete get_method = false
is_delete _ = false

pub data TaskPath : Type 0 where
  configuration resource grant : Text → TaskPath
  jobs : TaskPath
  job : Text → TaskPath
  action : Text → Action → TaskPath
  unknown : TaskPath

-- A first part that is empty: the path starts with the slash.
unfoldable pub path_of_parts : List Text → TaskPath
unfolding text_eq is_hex_text valid_job_id
path_of_parts ([] ∷ first ∷ []) = if text_eq first (codes "task-jobs") then jobs else unknown
path_of_parts ([] ∷ first ∷ id ∷ []) =
    if text_eq first (codes "task-job-configurations") && is_hex_text 64 64 id
    then configuration id
    else if text_eq first (codes "task-resources") && valid_job_id id
    then resource id
    else if text_eq first (codes "task-job-writers") && valid_job_id id
    then grant id
    else if text_eq first (codes "task-jobs") && valid_job_id id
    then job id
    else unknown
path_of_parts ([] ∷ first ∷ id ∷ last ∷ []) =
    if text_eq first (codes "task-jobs") && valid_job_id id && text_eq last (codes "claim")
    then action id claim
    else if text_eq first (codes "task-jobs") && valid_job_id id && text_eq last (codes "finish")
    then action id finish
    else unknown
path_of_parts _ = unknown

unfoldable pub path_of : Text → TaskPath
unfolding split path_of_parts
path_of text = path_of_parts (split b'/' text)

-- `/^writer:(id):([a-f0-9]{64})$/`
unfoldable pub credential_of_parts : List Text → Option Credential
unfolding text_eq is_hex_text valid_job_id
credential_of_parts (word ∷ id ∷ token ∷ []) =
    if text_eq word (codes "writer") && valid_job_id id && is_hex_text 64 64 token
    then some (record { id = id; token = token })
    else none
credential_of_parts _ = none

unfoldable pub credential_of : Option Text → Option Credential
unfolding split credential_of_parts
credential_of none = none
credential_of (some text) = credential_of_parts (split b':' text)

pub data Operation : Type 0 where
  show_configuration : Text → Operation
  put_configuration : Text → Json → Operation
  show_resources : Text → Operation
  put_resources : Text → Json → Operation
  put_grant : Text → Json → Operation
  revoke_grant : Text → Operation
  list_jobs : Operation
  show_job : Text → Bool → Operation
  put_job : Text → Json → Operation
  move_job : Text → Action → Json → Operation

pub data Decision : Type 0 where
  refuse : ℕ → Decision
  perform : Operation → Decision

pub record Request : Type 0 where
  pub method : Method
  pub path : TaskPath
  pub metadata_only : Bool
  pub body : Json

-- `method === 'GET' && metadataOnly` on the path of one job
unfoldable pub retained_read : Request → Bool
retained_read r = is_get r.method && r.metadata_only && elim r.path [ job id ↦ true | _ ↦ false ]

abbrev pub without : Text → Fields → Fields
without name end = end
without name (field key value rest) =
    if text_eq key name then without name rest else field key value (without name rest)

-- `{ ...body, writerId: writer.id, writerSourceKeyId: writer.sourceKeyId }` of an object
unfoldable pub signed_body : Writer → Json → Json
unfolding text_eq
signed_body w (object fields) = object (
    field (codes "writerId") (string w.id) (
      field (codes "writerSourceKeyId") (string w.grant.source_key_id)
        (without (codes "writerId") (without (codes "writerSourceKeyId") fields))))
signed_body w body = body

-- What `getPublic` finds of a job: its writer, which a job of the room's owner does not have.
abbrev pub Existing : Type 0
Existing = Option (Option Text)

abbrev pub is_own : Writer → Existing → Bool
is_own w none = false
is_own w (some none) = false
is_own w (some (some id)) = text_eq id w.id

abbrev decide_job : Request → Text → Json → Decision
decide_job r id body =
    if is_get r.method
    then perform (show_job id r.metadata_only)
    else if is_put r.method
    then perform (put_job id body)
    else if is_delete r.method
    then perform (move_job id cancel body)
    else refuse 405

unfoldable pub decide_owner : Request → Decision
decide_owner r = elim r.path [
  | configuration id ↦
      if is_get r.method
      then perform (show_configuration id)
      else if is_put r.method
      then perform (put_configuration id r.body)
      else refuse 405
  | resource id ↦
      if is_get r.method
      then perform (show_resources id)
      else if is_put r.method
      then perform (put_resources id r.body)
      else refuse 405
  | grant id ↦
      if is_put r.method
      then perform (put_grant id r.body)
      else if is_delete r.method
      then perform (revoke_grant id)
      else refuse 405
  | jobs ↦ if is_get r.method then perform list_jobs else refuse 405
  | job id ↦ decide_job r id r.body
  | action id act ↦ if is_post r.method then perform (move_job id act r.body) else refuse 405
  | unknown ↦ refuse 400
]

-- `body?.expiresAt > writer.expiresAt`; what is no integer is left to the store, which refuses it.
abbrev pub within_grant : Writer → Json → Bool
within_grant w body =
    is_text (get (get body (codes "envelope")) (codes "recipientKeyId")) w.grant.recipient_key_id
    && not (exceeds (get body (codes "expiresAt")) w.grant.expires_at)

abbrev pub decide_own_job : Request → Writer → Existing → Text → Decision
decide_own_job r w existing id =
    if not (is_get r.method || is_put r.method || is_delete r.method)
    then refuse 403
    else if (not (is_put r.method) || is_some existing) && not (is_own w existing)
    then refuse 404
    else if is_put r.method && not (within_grant w r.body)
    then refuse 403
    else decide_job r id (signed_body w r.body)

unfoldable pub decide_writer : Request → Writer → (Text → Existing) → Decision
unfolding text_eq signed_body
decide_writer r w existing = elim r.path [
  | configuration id ↦ refuse 403
  | resource id ↦
      if text_eq id w.id && is_get r.method then perform (show_resources id) else refuse 403
  | grant id ↦ refuse 403
  | jobs ↦ refuse 403
  | job id ↦ decide_own_job r w (existing id) id
  | action id act ↦ refuse 403
  | unknown ↦ refuse 400
]

unfoldable pub decide : Request → Bool → Option Writer → (Text → Existing) → Decision
unfolding decide_owner decide_writer
decide r true writer existing = decide_owner r
decide r false none existing = refuse 401
decide r false (some w) existing = decide_writer r w existing

module _ (sha256 : Text → Text) where
  -- The whole of `taskDispatchResponse` up to the operation.
  unfoldable pub task_dispatch_response :
      Request → Json → Bool → Option Text → ℕ → List Writer → (Text → Existing) → Decision
  unfolding valid_room decide authorize credential_of retained_read
  task_dispatch_response r room owner credential now writers existing =
      if not (valid_room room)
      then refuse 400
      else decide r owner
          (authorize sha256 (credential_of credential) now (retained_read r) writers) existing
