-- ===== src/Relay/Routing.antt =====
-- src/relay/recipientRouting.js: which sockets an envelope may go to. `JSON.parse` is a parameter.
use granttap_relay.Prelude.{
  Bool, true, false, not, ◌||◌, Option, none, some, ltb, length, Text, codes, is_hex_text,
}
use granttap_relay.Relay.Json.{Json, get, truthy, is_text, string_and}

unfoldable pub valid_recipient_key_id : Json → Bool
unfolding is_hex_text
valid_recipient_key_id value = string_and value (is_hex_text 64 64)

-- `!recipientKeyId` for a string or undefined
abbrev pub absent : Option Text → Bool
absent none = true
absent (some key) = not (ltb 0 (length key))

abbrev pub is_text_option : Json → Option Text → Bool
is_text_option value none = false
is_text_option value (some text) = is_text value text

unfoldable pub matches_recipient : Json → Option Text → Bool
matches_recipient envelope recipient =
    absent recipient
    || not (truthy (get envelope (codes "recipientKeyId")))
    || is_text_option (get envelope (codes "recipientKeyId")) recipient

unfoldable pub matches_queued_recipient : (Text → Option Json) → Text → Option Text → Bool
unfolding matches_recipient
matches_queued_recipient parse raw recipient =
    absent recipient
    || elim (parse raw) [ none ↦ false | some envelope ↦ matches_recipient envelope recipient ]
