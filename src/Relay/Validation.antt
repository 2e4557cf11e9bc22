-- ===== src/Relay/Validation.antt =====
-- src/relay/relayValidation.js, and `validRetainedState` of src/retainedState/policy.js: which
-- envelopes of a room are deliverable.
pub mod Soundness
use granttap_relay.Prelude.{
  ℕ, zero, suc, ◌+◌, ◌*◌, ◌%◌, ◌≡◌, Bool, true, false, not, ◌&&◌, ◌||◌, List, [], ◌∷◌, Option, none,
  some, ltb, leb, ◌==◌, if◌then◌else◌, get_or, length, all, any, Text, codes, text_eq, starts_with,
  is_base64, is_hex_text, is_alphanumeric,
}
use granttap_relay.Relay.Json.{
  Json, Items, Fields, undefined, null, boolean, integer, negative, fraction, string, array, object,
  nil, cons, get, every_key, truthy, is_nullish, is_text, string_and, is_safe_integer, exceeds,
  at_most,
}

abbrev pub max_envelope_ttl_ms : ℕ
max_envelope_ttl_ms = 25 * 60 * 60 * 1_000

abbrev pub max_submission_ttl_ms : ℕ
max_submission_ttl_ms = 31 * 24 * 60 * 60 * 1_000

abbrev pub state_ttl_ms : ℕ
state_ttl_ms = 7 * 86_400_000

unfoldable pub valid_room : Json → Bool
unfolding is_hex_text
valid_room room = string_and room (is_hex_text 16 64)

unfoldable pub accepts_web_socket_path : Text → Bool
accepts_web_socket_path pathname = text_eq pathname (codes "/") || text_eq pathname (codes "/ws")

unfoldable pub valid_room_credential : Json → Bool
unfolding is_hex_text
valid_room_credential value = string_and value (is_hex_text 64 64)

unfoldable pub valid_identifier : Json → ℕ → Bool
valid_identifier value max = string_and value (λ s. leb 1 (length s) && leb (length s) max)

-- `/^[a-f0-9]{64}$/.test(value)`: the test turns its argument into a string first, and a list of one
-- element into that of the element. No other value that is no string has 64 such digits.
unfoldable pub tests_hex : Json → Bool
unfolding is_hex_text
tests_hex (string s) = is_hex_text 64 64 s
tests_hex (array (cons x nil)) = tests_hex x
tests_hex _ = false

abbrev envelope_fields : List Text
envelope_fields =
    codes "v"
    ∷ codes "room"
    ∷ codes "from"
    ∷ codes "to"
    ∷ codes "senderId"
    ∷ codes "deliveryId"
    ∷ codes "wake"
    ∷ codes "expiresAt"
    ∷ codes "nonce"
    ∷ codes "box"
    ∷ codes "recipientKeyId"
    ∷ codes "stateKey"
    ∷ codes "stateRevision"
    ∷ codes "statePriority"
    ∷ codes "stateGroup"
    ∷ []

unfoldable pub only_known_fields : Json → Bool
unfolding every_key any text_eq
only_known_fields (object fields) = every_key (λ key. any (text_eq key) envelope_fields) fields
only_known_fields _ = false

abbrev is_boolean : Json → Bool
is_boolean (boolean b) = true
is_boolean _ = false

abbrev is_one : Json → Bool
is_one (integer n) = n == 1
is_one _ = false

-- `[0, 1, 2, 3].includes(value)`
abbrev is_priority : Json → Bool
is_priority (integer n) = leb n 3
is_priority _ = false

abbrev not_negative : Json → Bool
not_negative (negative n) = false
not_negative _ = true

unfoldable pub has_no_state : Json → Bool
has_no_state e =
    is_nullish (get e (codes "stateKey"))
    && is_nullish (get e (codes "stateRevision"))
    && is_nullish (get e (codes "statePriority"))
    && is_nullish (get e (codes "stateGroup"))

-- The conditions on a state envelope that do not depend on the time.
unfoldable pub has_state_shape : Json → Bool
unfolding tests_hex
has_state_shape e =
    is_text (get e (codes "from")) (codes "machine")
    && is_text (get e (codes "to")) (codes "phone")
    && tests_hex (get e (codes "recipientKeyId"))
    && tests_hex (get e (codes "stateKey"))
    && (is_nullish (get e (codes "stateGroup")) || tests_hex (get e (codes "stateGroup")))
    && is_safe_integer (get e (codes "stateRevision"))
    && not_negative (get e (codes "stateRevision"))
    && is_priority (get e (codes "statePriority"))
    && is_safe_integer (get e (codes "expiresAt"))

unfoldable pub valid_retained_state : Json → ℕ → Bool
valid_retained_state e now =
    has_no_state e
    || has_state_shape e
      && at_most (get e (codes "stateRevision")) (now + 300_000)
      && at_most (get e (codes "expiresAt")) (now + state_ttl_ms)

abbrev padding : Text → Bool
padding [] = true
padding (a ∷ []) = a == b'='
padding (a ∷ b ∷ []) = a == b'=' && b == b'='
padding (a ∷ b ∷ c ∷ rest) = false

-- `/^[A-Za-z0-9+/]*={0,2}$/`
unfoldable pub base64_rest : Text → Bool
base64_rest [] = true
base64_rest (c ∷ text) = if is_base64 c then base64_rest text else padding (c ∷ text)

-- `/^[A-Za-z0-9+/]+={0,2}$/`
unfoldable pub is_base64_text : Text → Bool
unfolding base64_rest
is_base64_text [] = false
is_base64_text (c ∷ text) = is_base64 c && base64_rest text

abbrev pub is_role : Json → Bool
is_role value = is_text value (codes "machine") || is_text value (codes "phone")

abbrev longer_than_prefix : Text → Text → Bool
longer_than_prefix prefix id = starts_with prefix id && not (leb (length id) (length prefix))

-- A phone's submission to the machine lives longer.
unfoldable pub is_extended : Json → Bool
is_extended e =
    is_text (get e (codes "from")) (codes "phone")
    && is_text (get e (codes "to")) (codes "machine")
    && string_and (get e (codes "deliveryId")) (λ id.
      longer_than_prefix (codes "user-message-") id || longer_than_prefix (codes "attachment-") id)

unfoldable pub ttl_limit : Json → Option ℕ → ℕ
ttl_limit e maximum = get_or maximum (
    if truthy (get e (codes "stateKey"))
    then state_ttl_ms
    else if is_extended e
    then max_submission_ttl_ms
    else max_envelope_ttl_ms)

-- The checks that do not depend on the time.
unfoldable pub has_envelope_shape : Json → Text → Bool
has_envelope_shape e room =
    only_known_fields e
    && is_one (get e (codes "v"))
    && is_text (get e (codes "room")) room
    && is_role (get e (codes "from"))
    && (is_role (get e (codes "to")) || is_text (get e (codes "to")) (codes "all"))
    && valid_identifier (get e (codes "senderId")) 180
    && (is_nullish (get e (codes "deliveryId"))
        || valid_identifier (get e (codes "deliveryId")) 180)
    && (is_nullish (get e (codes "recipientKeyId")) || tests_hex (get e (codes "recipientKeyId")))
    && (is_nullish (get e (codes "wake")) || is_boolean (get e (codes "wake")))
    && string_and (get e (codes "nonce")) (λ s. length s == 32 && all is_base64 s)
    && string_and (get e (codes "box")) (λ s. leb 24 (length s) && is_base64_text s)

abbrev pub expiry_in_bounds : Json → ℕ → Bool
expiry_in_bounds value limit =
    is_nullish value || is_safe_integer value && not (exceeds value limit)

pub data Problem : Type 0 where
  expired invalid : Problem

-- All the checks of `envelopeProblem` but the last answer "invalid", so their order is free.
unfoldable pub envelope_problem : Json → Text → ℕ → Option ℕ → Option Problem
envelope_problem e room now maximum =
    if has_envelope_shape e room
      && valid_retained_state e now
      && expiry_in_bounds (get e (codes "expiresAt")) (now + ttl_limit e maximum)
    then (if not (is_nullish (get e (codes "expiresAt"))) && at_most (get e (codes "expiresAt")) now
        then some expired
        else none)
    else some invalid

unfoldable pub valid_envelope : Json → Text → ℕ → Option ℕ → Bool
unfolding envelope_problem
valid_envelope e room now maximum = elim (envelope_problem e room now maximum) [
  | none ↦ true
  | some _ ↦ false
]

unfoldable pub valid_device_token : Text → Bool
unfolding is_hex_text
valid_device_token token = is_hex_text 32 256 token && length token % 2 == 0
