-- ===== src/Tests/Frames.antt =====
-- src/relay/connectionPolicy.js, src/relay/relayValidation.js and src/relay/coolDown.js at concrete
-- inputs.
use granttap_relay.Prelude.{
  ℕ, ◌*◌, ◌≤◌, ◌+◌, ◌≡◌, refl, true, ◌||◌, List, [], ◌∷◌, none, some, arith, Text, codes, text_eq,
  all, any, is_hex_text, starts_with,
}
use granttap_relay.Relay.Json.{
  Json, integer, string, object, end, field, get, lookup, is_text, is_nullish, every_key, truthy,
}
use granttap_relay.Relay.Policy.{accept_socket_frame}
use granttap_relay.Relay.Policy.Rate.{accepted, accepted-le}
use granttap_relay.Relay.Validation.{
  expired, invalid, envelope_problem, has_envelope_shape, has_no_state, valid_retained_state,
  only_known_fields, valid_identifier, tests_hex, is_role, is_base64_text, base64_rest, ttl_limit,
  is_extended,
}
use granttap_relay.Relay.Validation.Soundness.{envelope_problem-none, IsExpiry}

program : Unit {0}
unfolding accepted accept_socket_frame envelope_problem has_envelope_shape has_no_state
    valid_retained_state only_known_fields valid_identifier tests_hex is_base64_text base64_rest
    ttl_limit is_extended get lookup every_key truthy text_eq all any is_hex_text starts_with
program = tt

abbrev burst : List ℕ
burst = 0 ∷ 10 ∷ 20 ∷ 30 ∷ 1_500 ∷ []

-- The fourth frame of the first second is refused; the next second starts anew.
burst_count : accepted 3 (record { started_at = none; messages = 0 }) burst ≡ 4
unfolding program
burst_count = refl

accepted-le_example : accepted 3 (record { started_at = none; messages = 0 }) burst ≤ 3 * 2
accepted-le_example = accepted-le 3 0 2 0 burst (
  omega arith,
  omega arith,
  (
    omega arith,
    omega arith,
    (omega arith, omega arith, (omega arith, omega arith, (omega arith, omega arith, tt))),
  ),
)

abbrev room : Text
room = codes "00112233445566778899aabbccddeeff"

abbrev envelope : Json
envelope = object (
    field (codes "v") (integer 1) (
      field (codes "room") (string room) (
        field (codes "from") (string (codes "machine")) (
          field (codes "to") (string (codes "all")) (
            field (codes "senderId") (string (codes "mac")) (
              field (codes "expiresAt") (integer 2_000) (
                field (codes "nonce") (string (codes "AAAAAAAAAAAAAAAAAAAAAAAAAAAAAAAA"))
                  (field (codes "box") (string (codes "AAAAAAAAAAAAAAAAAAAAAA==")) end))))))))

envelope_now : envelope_problem envelope room 1_000 none ≡ none
unfolding program
envelope_now = refl

envelope_after : envelope_problem envelope room 2_000 none ≡ some expired
unfolding program
envelope_after = refl

envelope_elsewhere : envelope_problem envelope (codes "ff") 1_000 none ≡ some invalid
unfolding program
envelope_elsewhere = refl

envelope_problem-none_example :
    (is_text (get envelope (codes "room")) room ≡ true)
    × (is_role (get envelope (codes "from")) ≡ true)
    × ((is_role (get envelope (codes "to")) || is_text (get envelope (codes "to")) (codes "all"))
        ≡ true)
    × ((is_nullish (get envelope (codes "deliveryId"))
          || valid_identifier (get envelope (codes "deliveryId")) 180)
        ≡ true)
    × IsExpiry (get envelope (codes "expiresAt")) 1_000 (1_000 + 31 * 86_400_000)
envelope_problem-none_example = envelope_problem-none envelope room 1_000 envelope_now
