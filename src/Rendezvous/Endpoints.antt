-- ===== src/Rendezvous/Endpoints.antt =====
-- src/relay/endpointRetention.js and src/relay/endpointDirectory.js: the endpoint records of a room
-- in the storage of its Durable Object, by their keys, with the alarm.
pub mod Bounds
use granttap_relay.Prelude.{
  ℕ, ◌+◌, ◌*◌, Bool, true, false, not, ◌&&◌, ◌||◌, List, [], ◌∷◌, ◌++◌, Option, none, some, ltb,
  leb, ◌==◌, if◌then◌else◌, length, filter, any, min, Text, codes, text_eq, is_hex_text,
}
use granttap_relay.Relay.Json.{
  Json, integer, string, object, Fields, end, field, get, every_key, truthy, is_safe_integer,
  at_most,
}
use granttap_relay.Relay.Validation.{valid_room}
use granttap_relay.Rendezvous.Pairing.{valid_base64}

abbrev pub endpoint_recipient_limit : ℕ
endpoint_recipient_limit = 32

abbrev pub endpoint_ttl_ms : ℕ
endpoint_ttl_ms = 15 * 60 * 1_000

-- What the directory reads of a record, and the JSON that it stores.
pub record Endpoint : Type 0 where
  pub key : Text
  pub expires_at : ℕ
  pub value : Json

pub record Directory : Type 0 where
  pub rows : List Endpoint
  pub alarm_at : Option ℕ

abbrev pub earliest : List Endpoint → Option ℕ
earliest [] = none
earliest (row ∷ rows) = elim (earliest rows) [
  | none ↦ some row.expires_at
  | some at ↦ some (min row.expires_at at)
]

abbrev pub is_ahead : ℕ → Endpoint → Bool
is_ahead now row = ltb now row.expires_at

-- Without a row left, the alarm is deleted.
unfoldable pub purge_endpoint_directory : ℕ → Directory → Directory
unfolding filter
purge_endpoint_directory now d = record {
  rows = filter (is_ahead now) d.rows;
  alarm_at = earliest (filter (is_ahead now) d.rows);
}

abbrev pub has_key : Text → Endpoint → Bool
has_key key row = text_eq row.key key

unfoldable pub set_row : Endpoint → List Endpoint → List Endpoint
set_row row [] = row ∷ []
set_row row (old ∷ rows) = if has_key row.key old then row ∷ rows else old ∷ set_row row rows

-- The alarm counts the rows as they were before the put, the replaced one included.
unfoldable pub put_row : Endpoint → Directory → Directory × Bool
unfolding set_row any
put_row row d =
    if not (any (has_key row.key) d.rows) && leb endpoint_recipient_limit (length d.rows)
    then (d, false)
    else (record { rows = set_row row d.rows; alarm_at = earliest (row ∷ d.rows) }, true)

unfoldable pub put_directory_endpoint : Endpoint → ℕ → Directory → Directory × Bool
unfolding put_row purge_endpoint_directory
put_directory_endpoint row now d = put_row row (purge_endpoint_directory now d)

-- Without a recipient the key is the room.
unfoldable pub endpoint_storage_key : Text → Option Text → Option Text
unfolding valid_room is_hex_text
endpoint_storage_key room none = if valid_room (string room) then some room else none
endpoint_storage_key room (some recipient) =
    if valid_room (string room) && is_hex_text 64 64 recipient
    then some (room ++ b':' ∷ recipient)
    else none

abbrev record_fields : List Text
record_fields = codes "nonce" ∷ codes "box" ∷ codes "expiresAt" ∷ []

unfoldable pub count_fields : Fields → ℕ
count_fields end = 0
count_fields (field key value rest) = 1 + count_fields rest

abbrev has_record_fields : Json → Bool
has_record_fields (object fields) =
    count_fields fields == 3 && every_key (λ key. any (text_eq key) record_fields) fields
has_record_fields _ = false

pub data Method : Type 0 where
  put get_endpoint delete other : Method

module _ (round_trips : Text → Bool) where
  unfoldable pub valid_endpoint_record : Json → ℕ → Bool
  unfolding count_fields every_key any text_eq valid_base64
  valid_endpoint_record body now =
      has_record_fields body
      && valid_base64 round_trips (get body (codes "nonce")) 32 32
      && valid_base64 round_trips (get body (codes "box")) 24 10_924
      && is_safe_integer (get body (codes "expiresAt"))
      && not (at_most (get body (codes "expiresAt")) now)
      && at_most (get body (codes "expiresAt")) (now + endpoint_ttl_ms)

  -- The status of the answer, what is stored under the key (`none` if nothing is), with what the
  -- authorisation of the request says, the read body (`none` if it is no bounded JSON) and whether the
  -- directory takes the record.
  unfoldable pub endpoint_response :
      Method → Json → Bool → Option Json → Bool → ℕ → Option Json → ℕ × Option Json
  unfolding valid_endpoint_record valid_room
  endpoint_response method room authorized body takes now stored =
      if not (valid_room room) then (400, stored) else elim method [
        | other ↦ (405, stored)
        | put ↦ elim body [
          | none ↦ (400, stored)
          | some value ↦
              if not (valid_endpoint_record value now)
              then (400, stored)
              else if not authorized
              then (401, stored)
              else if not takes
              then (409, stored)
              else (200, some value)
        ]
        | delete ↦ if authorized then (200, none) else (401, stored)
        | get_endpoint ↦ if not authorized then (401, stored) else elim stored [
          | none ↦ (404, none)
          | some value ↦ if valid_endpoint_record value now then (200, some value) else (404, none)
        ]
      ]
