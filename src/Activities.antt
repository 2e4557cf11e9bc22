-- ===== src/Activities.antt =====
-- src/taskActivities/policy.js: what a phone may register for the updates of a task, and what a
-- machine may send it. The round trip of base64 through `atob` and `btoa` is a parameter.
pub mod Registries
pub mod Delivery
use granttap_relay.Prelude.{
  ℕ, ◌+◌, ◌-◌, ◌*◌, ◌/◌, ◌%◌, Bool, true, false, not, ◌&&◌, ◌||◌, List, [], ◌∷◌, Option, none, some,
  ltb, leb, ◌==◌, if◌then◌else◌, length, any, all, map, Text, codes, text_eq, is_digit,
  is_alphanumeric,
}
use granttap_relay.Relay.Json.{
  Json, Fields, integer, negative, string, object, get, every_key, is_text, is_safe_integer,
  at_most, string_and,
}
use granttap_relay.Rendezvous.Endpoints.{count_fields}
use granttap_relay.Rendezvous.Pairing.{valid_base64}

abbrev pub activity_ttl_ms : ℕ
activity_ttl_ms = 8 * 60 * 60 * 1_000

abbrev pub activity_limit : ℕ
activity_limit = 8

abbrev is_one_of : Text → List Text → Bool
is_one_of key names = any (text_eq key) names

-- `fields(value, names)`
unfoldable pub has_fields : Json → List Text → Bool
unfolding count_fields every_key any text_eq
has_fields (object fields) names =
    count_fields fields == length names && every_key (λ key. is_one_of key names) fields
has_fields _ names = false

abbrev is_id_char : ℕ → Bool
is_id_char c = is_alphanumeric c || c == b'_' || c == b'-'

unfoldable pub valid_activity_id : Json → Bool
unfolding all
valid_activity_id value =
    string_and value (λ s. leb 1 (length s) && leb (length s) 180 && all is_id_char s)

-- `[a-fA-F0-9]`
abbrev is_any_hex : ℕ → Bool
is_any_hex c = is_digit c || leb b'a' c && leb c b'f' || leb b'A' c && leb c b'F'

unfoldable pub valid_token : Json → Bool
unfolding all
valid_token value =
    string_and value
      (λ s. leb 32 (length s) && leb (length s) 512 && all is_any_hex s && length s % 2 == 0)

abbrev registration_fields : List Text
registration_fields =
    codes "activityId"
    ∷ codes "token"
    ∷ codes "environment"
    ∷ codes "bundleId"
    ∷ codes "expiresAt"
    ∷ codes "nonce"
    ∷ codes "box"
    ∷ []

abbrev update_fields : List Text
update_fields =
    codes "activityId"
    ∷ codes "deliveryId"
    ∷ codes "event"
    ∷ codes "staleDate"
    ∷ codes "contentState"
    ∷ []

-- `staleDate >= seconds - 300 && staleDate <= seconds + 120`
unfoldable pub valid_stale_date : Json → ℕ → Bool
valid_stale_date (integer n) seconds = leb seconds (n + 300) && leb n (seconds + 120)
valid_stale_date (negative n) seconds = leb (seconds + n + 1) 300
valid_stale_date _ seconds = false

module _ (round_trips : Text → Bool) where
  unfoldable pub valid_activity_registration : Json → ℕ → Bool
  unfolding has_fields valid_activity_id valid_token text_eq valid_base64
  valid_activity_registration body now =
      has_fields body registration_fields
      && valid_activity_id (get body (codes "activityId"))
      && valid_token (get body (codes "token"))
      && (is_text (get body (codes "environment")) (codes "sandbox")
          || is_text (get body (codes "environment")) (codes "production"))
      && is_text (get body (codes "bundleId")) (codes "com.ziborov.granttap")
      && is_safe_integer (get body (codes "expiresAt"))
      && not (at_most (get body (codes "expiresAt")) now)
      && at_most (get body (codes "expiresAt")) (now + activity_ttl_ms)
      && valid_base64 round_trips (get body (codes "nonce")) 32 32
      && valid_base64 round_trips (get body (codes "box")) 24 2_048

  unfoldable pub valid_activity_update : Json → ℕ → Bool
  unfolding has_fields valid_activity_id valid_stale_date text_eq valid_base64
  valid_activity_update body now =
      let content = get body (codes "contentState") in
      has_fields body update_fields
      && valid_activity_id (get body (codes "activityId"))
      && valid_activity_id (get body (codes "deliveryId"))
      && (is_text (get body (codes "event")) (codes "update")
          || is_text (get body (codes "event")) (codes "end"))
      && is_safe_integer (get body (codes "staleDate"))
      && valid_stale_date (get body (codes "staleDate")) (now / 1_000)
      && has_fields content (codes "nonce" ∷ codes "box" ∷ [])
      && valid_base64 round_trips (get content (codes "nonce")) 32 32
      && valid_base64 round_trips (get content (codes "box")) 24 3_072
