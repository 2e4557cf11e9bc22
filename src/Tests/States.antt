-- ===== src/Tests/States.antt =====
-- src/retainedState/policy.js at concrete inputs.
use granttap_relay.Prelude.{
  ℕ, ◌≡◌, refl, List, [], ◌∷◌, arith, map, Text, codes, text_eq, any, all, filter, find, sum_by,
  is_hex_text, byte_length,
}
use granttap_relay.Relay.Json.{Json, integer, string, object, end, field, get, lookup, truthy}
use granttap_relay.Relay.Validation.{valid_retained_state, has_no_state, has_state_shape, tests_hex}
use granttap_relay.Retained.{
  StateRow, retain_state, retain_row, evict_groups, eviction_groups, sort_groups, place, goes_first,
  make_group, firsts, last_seen, last_entry, replay_state, sort_rows, place_row,
}
use granttap_relay.Retained.Eviction.{Fits, retain_state-Fits}

program : Unit {0}
unfolding text_eq any all filter find sum_by is_hex_text byte_length get lookup truthy
    valid_retained_state has_no_state has_state_shape tests_hex retain_state retain_row evict_groups
    eviction_groups sort_groups place goes_first make_group firsts last_seen last_entry replay_state
    sort_rows place_row
program = tt

abbrev key : Text
key = codes "0000000000000000000000000000000000000000000000000000000000000000"

abbrev state : ℕ → Json
state revision = object (
    field (codes "from") (string (codes "machine")) (
      field (codes "to") (string (codes "phone")) (
        field (codes "recipientKeyId") (string key) (
          field (codes "stateKey") (string key) (
            field (codes "stateRevision") (integer revision) (
              field (codes "statePriority") (integer 1)
                (field (codes "expiresAt") (integer 1_000) end)))))))

abbrev revisions : List StateRow → List ℕ
revisions rows = map (λ row. row.revision) rows

abbrev first : List StateRow
first = retain_state [] (state 5) (codes "{}") 10 []

newer_replaces : revisions (retain_state first (state 6) (codes "{}") 20 []) ≡ 6 ∷ []
unfolding program
newer_replaces = refl

older_stays_out : revisions (retain_state first (state 4) (codes "{}") 20 []) ≡ 5 ∷ []
unfolding program
older_stays_out = refl

no_states : Fits []
unfolding program
no_states = record { slots = omega arith; bytes = omega arith }

retain_state-Fits_example : Fits (retain_state [] (state 5) (codes "{}") 10 [])
retain_state-Fits_example = retain_state-Fits [] (state 5) (codes "{}") 10 [] no_states
