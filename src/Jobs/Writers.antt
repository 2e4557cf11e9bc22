-- ===== src/Jobs/Writers.antt =====
-- src/taskDispatch/writers/index.js: the grants that let a writer put jobs, over the store of one
-- room as an association list, and the capacity of src/taskDispatch/configurations/index.js. The
-- digest of a token is a parameter.
pub mod Grants
use granttap_relay.Prelude.{
  ℕ, ◌+◌, ◌-◌, ◌*◌, Bool, true, false, not, ◌&&◌, ◌||◌, List, [], ◌∷◌, ◌++◌, Option, none, some,
  ltb, leb, ◌==◌, if◌then◌else◌, length, filter, any, find, sum_by, min, Text, codes, text_eq,
}
use granttap_relay.Relay.Json.{
  Json, integer, string, object, get, every_key, truthy, is_safe_integer, at_most, string_and,
}
use granttap_relay.Relay.Validation.{valid_room_credential}
use granttap_relay.Relay.Support.{constant_time_equal}
use granttap_relay.Jobs.Policy.{valid_job_id}

abbrev pub lifetime_ms : ℕ
lifetime_ms = 30 * 86_400_000

abbrev retained_ms : ℕ
retained_ms = 7 * 86_400_000

abbrev pub writer_limit : ℕ
writer_limit = 128

pub record Grant : Type 0 where
  pub source_key_id : Text
  pub recipient_key_id : Text
  pub scope_hash : Text
  pub token_hash : Text
  pub expires_at : ℕ

pub record Writer : Type 0 where
  pub id : Text
  pub grant : Grant
  pub revoked_at : Option ℕ

unfoldable pub writer_retained_until : Writer → ℕ
writer_retained_until row = elim row.revoked_at [
  | none ↦ row.grant.expires_at + retained_ms
  | some revoked ↦ min row.grant.expires_at revoked + retained_ms
]

abbrev pub is_retained : ℕ → Writer → Bool
is_retained now row = ltb now (writer_retained_until row)

abbrev pub has_id : Text → Writer → Bool
has_id id row = text_eq row.id id

abbrev pub get_writer : List Writer → Text → Option Writer
get_writer rows id = find (has_id id) rows

abbrev grant_fields : List Text
grant_fields =
    codes "sourceKeyId"
    ∷ codes "recipientKeyId"
    ∷ codes "scopeHash"
    ∷ codes "tokenHash"
    ∷ codes "expiresAt"
    ∷ []

abbrev only_grant_fields : Json → Bool
only_grant_fields (object fields) = every_key (λ key. any (text_eq key) grant_fields) fields
only_grant_fields _ = false

abbrev text_of : Json → Text
text_of (string s) = s
text_of _ = []

abbrev number_of : Json → ℕ
number_of (integer n) = n
number_of _ = 0

-- `digest` is the test of a room credential: 64 hexadecimal digits in a string.
unfoldable pub valid_grant : Text → Json → ℕ → Bool
unfolding valid_room_credential valid_job_id every_key any text_eq
valid_grant id body now =
    valid_job_id id
    && only_grant_fields body
    && valid_room_credential (get body (codes "sourceKeyId"))
    && valid_room_credential (get body (codes "recipientKeyId"))
    && valid_room_credential (get body (codes "scopeHash"))
    && valid_room_credential (get body (codes "tokenHash"))
    && is_safe_integer (get body (codes "expiresAt"))
    && not (at_most (get body (codes "expiresAt")) now)
    && at_most (get body (codes "expiresAt")) (now + lifetime_ms)

abbrev pub grant_of : Json → Grant
grant_of body = record {
  source_key_id = text_of (get body (codes "sourceKeyId"));
  recipient_key_id = text_of (get body (codes "recipientKeyId"));
  scope_hash = text_of (get body (codes "scopeHash"));
  token_hash = text_of (get body (codes "tokenHash"));
  expires_at = number_of (get body (codes "expiresAt"));
}

abbrev same_grant : Grant → Grant → Bool
same_grant a b =
    text_eq a.source_key_id b.source_key_id
    && text_eq a.recipient_key_id b.recipient_key_id
    && text_eq a.scope_hash b.scope_hash
    && text_eq a.token_hash b.token_hash
    && a.expires_at == b.expires_at

-- A revoked writer's row has a field more, so its JSON text differs.
unfoldable pub existing_writer : Writer → Grant → ℕ
existing_writer previous grant = elim previous.revoked_at [
  | none ↦ if same_grant grant previous.grant then 200 else 409
  | some revoked ↦ 409
]

-- The rows whose time is over are deleted before the count.
unfoldable pub commit_writer_grant : Text → Grant → ℕ → List Writer → List Writer × ℕ
unfolding existing_writer find filter
commit_writer_grant id grant now rows = elim (get_writer rows id) [
  | some previous ↦ (rows, existing_writer previous grant)
  | none ↦
      if leb writer_limit (length (filter (is_retained now) rows))
      then (filter (is_retained now) rows, 429)
      else (
        filter (is_retained now) rows ++ record { id = id; grant = grant; revoked_at = none } ∷ [],
        201,
      )
]

unfoldable pub put_grant : Text → Json → ℕ → List Writer → List Writer × ℕ
unfolding valid_grant commit_writer_grant
put_grant id body now rows =
    if valid_grant id body now then commit_writer_grant id (grant_of body) now rows else (rows, 400)

-- A credential that the pattern accepts, as its id and token.
pub record Credential : Type 0 where
  pub id : Text
  pub token : Text

abbrev pub is_usable : Bool → ℕ → Writer → Bool
is_usable true now row = is_retained now row
is_usable false now row = elim row.revoked_at [
  | none ↦ ltb now row.grant.expires_at
  | some revoked ↦ false
]

module _ (sha256 : Text → Text) where
  unfoldable pub authorize : Option Credential → ℕ → Bool → List Writer → Option Writer
  unfolding constant_time_equal find
  authorize none now retained_read rows = none
  authorize (some c) now retained_read rows = elim (get_writer rows c.id) [
    | none ↦ none
    | some row ↦
        if is_usable retained_read now row
          && constant_time_equal (sha256 c.token) row.grant.token_hash
        then some row
        else none
  ]

pub record Configuration : Type 0 where
  pub id : Text
  pub expires_at : ℕ
  pub bytes : ℕ

abbrev pub is_active : ℕ → Configuration → Bool
is_active now row = ltb now row.expires_at

abbrev bytes_or_none : Option Configuration → ℕ
bytes_or_none none = 0
bytes_or_none (some row) = row.bytes

abbrev exists : Option Configuration → Bool
exists none = false
exists (some row) = true

-- The bytes of the previous row are among those of the active ones.
unfoldable pub configuration_capacity : List Configuration → Configuration → ℕ → ℕ
unfolding filter find sum_by
configuration_capacity rows next now =
    let active = filter (is_active now) rows in
    let previous = find (λ row. text_eq row.id next.id) active in
    if not (exists previous) && leb 128 (length active)
      || ltb 8_000_000 (sum_by (λ row. row.bytes) active - bytes_or_none previous + next.bytes)
    then 429
    else if exists previous
    then 200
    else 201
