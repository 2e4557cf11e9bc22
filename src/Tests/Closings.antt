-- ===== src/Tests/Closings.antt =====
-- src/relay/connectionPolicy.js and src/node/upgrade-gate.js at concrete inputs.
use granttap_relay.Prelude.{◌≡◌, refl, true, false, none, some, Text, codes, any, all, is_hex_text}
use granttap_relay.Relay.Policy.{close_policies}
use granttap_relay.Relay.Routing.{valid_recipient_key_id}
use granttap_relay.Relay.CoolDown.{
  Registry, new_registry, strike, struck, backoff_ms, entry_of, delete, sweep, remaining,
  upgrade_identity,
}
use granttap_relay.Relay.Closing.{apply_policy_close, Upgrade, upgrade_refusal}

program : Unit {0}
unfolding any all is_hex_text valid_recipient_key_id close_policies strike struck backoff_ms
    entry_of delete sweep remaining upgrade_identity apply_policy_close upgrade_refusal
program = tt

abbrev room_text : Text
room_text = codes "00112233445566778899aabbccddeeff"

abbrev recipient : Text
recipient = codes "0000000000000000000000000000000000000000000000000000000000000000"

abbrev identity : Text
identity = codes "0011223344556677|k|00000000000000000000000000000000"

abbrev registry : Registry
registry = new_registry 256

backoff_first : (strike registry identity false 1_000).1 ≡ 5_000
unfolding program
backoff_first = refl

-- A relay that requires admission, and a request without a ticket
abbrev upgrade : Upgrade
upgrade = record {
  authorized = true;
  admission_required = true;
  has_ticket_header = false;
  ticket = none;
  room = some room_text;
  recipient_key_id = some recipient;
  room_size = 1;
  max_room_sockets = 8;
}
