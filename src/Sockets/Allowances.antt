-- ===== src/Sockets/Allowances.antt =====
-- src/responseAcknowledgements/index.js: the acknowledgements that one socket may still send without
-- counting against its frame rate. The map of pending deliveries is a list in insertion order.
pub mod Counting
use granttap_relay.Prelude.{
  ℕ, zero, suc, ◌+◌, ◌≤◌, ◌≡◌, Bool, true, false, not, ◌&&◌, ◌||◌, List, [], ◌∷◌, ◌++◌, Option,
  none, some, ltb, leb, ◌==◌, if◌then◌else◌, length, filter, Text, codes, text_eq, byte_length,
}
use granttap_relay.Relay.Json.{Json, Fields, object, end, field, get, is_text, to_text}

abbrev pub max_outstanding : ℕ
max_outstanding = 512

abbrev pub lifetime_ms : ℕ
lifetime_ms = 30_000

abbrev pub max_ack_bytes : ℕ
max_ack_bytes = 1_536

-- A delivery id and the time at which its allowance ends.
abbrev pub Pending : Type 0
Pending = List (Text × ℕ)

abbrev pub is_identifier : Text → Bool
is_identifier id = leb 1 (length id) && leb (length id) 180

unfoldable pub remove : Text → Pending → Pending
unfolding filter
remove id pending = filter (λ e. not (text_eq e.0 id)) pending

unfoldable pub expiry_of : Text → Pending → Option ℕ
expiry_of id [] = none
expiry_of id ((other, expires_at) ∷ rest) =
    if text_eq other id then some expires_at else expiry_of id rest

-- `pending.delete(pending.keys().next().value)` if the map is over its bound
abbrev pub trim : Pending → Pending
trim [] = []
trim (oldest ∷ rest) = if ltb max_outstanding (length (oldest ∷ rest)) then rest else oldest ∷ rest

unfoldable pub issue : Option Text → ℕ → Pending → Pending
unfolding remove
issue none now pending = pending
issue (some id) now pending =
    if is_identifier id then trim (remove id pending ++ (id, now + lifetime_ms) ∷ []) else pending

unfoldable pub count_keys : Fields → ℕ
count_keys end = 0
count_keys (field key value rest) = 1 + count_keys rest

abbrev key_count : Json → ℕ
key_count (object fields) = count_keys fields
key_count _ = 0

-- The delivery id of a frame that is an acknowledgement and nothing else.
unfoldable pub acknowledged_id : Json → Option Text
unfolding count_keys
acknowledged_id frame = elim (to_text (get frame (codes "deliveryId"))) [
  | none ↦ none
  | some id ↦
      if is_text (get frame (codes "type")) (codes "relay.ack")
        && is_identifier id
        && key_count frame == 2
      then some id
      else none
]

-- What the frame acknowledges, after the bound on its bytes and `JSON.parse`, a parameter.
unfoldable pub frame_id : (Text → Option Json) → Text → Option Text
unfolding acknowledged_id
frame_id parse raw =
    if ltb max_ack_bytes (byte_length raw)
    then none
    else elim (parse raw) [ none ↦ none | some frame ↦ acknowledged_id frame ]

unfoldable pub consume_id : Text → ℕ → Pending → Pending × Bool
unfolding expiry_of remove
consume_id id now pending = elim (expiry_of id pending) [
  | none ↦ (pending, false)
  | some expires_at ↦ (remove id pending, ltb now expires_at)
]

unfoldable pub consume : (Text → Option Json) → Text → ℕ → Pending → Pending × Bool
unfolding frame_id consume_id
consume parse raw now pending = elim (frame_id parse raw) [
  | none ↦ (pending, false)
  | some id ↦ consume_id id now pending
]
