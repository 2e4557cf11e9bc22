-- ===== src/Relay/Mailbox.antt =====
-- src/relay/room.js, the mailboxes of a Worker's room: `queue`, `acknowledge` and `flushTo` over the
-- storage keys `q:machine` and `q:phone`. A socket is the number of sends that it takes before one
-- throws: no send follows the first that throws.
pub mod Rows
pub mod Durability
pub mod Survival
pub mod Runs
pub mod Thinning
pub mod Invariant
pub mod Delivery
use granttap_relay.Prelude.{
  ℕ, zero, suc, ◌+◌, ◌*◌, ◌≡◌, Bool, true, false, not, ◌&&◌, ◌||◌, List, [], ◌∷◌, ◌++◌, Option,
  none, some, ltb, leb, if◌then◌else◌, get_or, length, filter, any, all, Text, text_eq, byte_length,
}
use granttap_relay.Relay.Policy.{QueueResult}
use granttap_relay.Relay.Submissions.{
  Row, Item, legacy, entry, delivery_id, raw_of, Role, machine, phone, Retained, retain_submission,
}

abbrev pub hold_limit : ℕ
hold_limit = 100

abbrev pub default_queue_ttl_ms : ℕ
default_queue_ttl_ms = 15 * 60 * 1_000

abbrev pub max_queue_bytes : ℕ
max_queue_bytes = 1_800_000

-- `none` is a key that storage does not hold.
pub record Storage : Type 0 where
  pub machine_queue : Option (List Item)
  pub phone_queue : Option (List Item)

unfoldable pub read : Role → Storage → Option (List Item)
read machine s = s.machine_queue
read phone s = s.phone_queue

unfoldable pub write : Role → Option (List Item) → Storage → Storage
write machine rows s = record s { machine_queue = rows }
write phone rows s = record s { phone_queue = rows }

abbrev pub rows_of : Role → Storage → List Item
rows_of role s = get_or (read role s) []

-- `put` of the rows, or `delete` of the key when none is left
unfoldable pub put_or_delete : Role → List Item → Storage → Storage
put_or_delete role [] s = write role none s
put_or_delete role (item ∷ rows) s = write role (some (item ∷ rows)) s

-- `item.deliveryId === id`
abbrev pub has_id : Text → Item → Bool
has_id id item = elim (delivery_id item) [ none ↦ false | some d ↦ text_eq d id ]

-- `(item.expiresAt ?? now + DEFAULT_QUEUE_TTL_MS) > now`
abbrev pub is_live : ℕ → Item → Bool
is_live now (legacy raw) = true
is_live now (entry row) = ltb now (get_or row.expires_at (now + default_queue_ttl_ms))

abbrev pub has_passed : ℕ → Option ℕ → Bool
has_passed now none = false
has_passed now (some expiry) = leb expiry now

abbrev pub new_row : Text → Text → Option ℕ → ℕ → Item
new_row raw id expires_at now = entry (record {
  raw = raw;
  raw_bytes = some (byte_length raw);
  delivery_id = some id;
  expires_at = some (get_or expires_at (now + default_queue_ttl_ms));
  queued_at = none;
})

unfoldable pub save_retained : Role → Storage → Retained → Storage × QueueResult
save_retained role s (Retained.full _) = (s, QueueResult.full)
save_retained role s (Retained.kept rows) = (write role (some rows) s, QueueResult.stored)

unfoldable pub queue : Role → Text → Text → Option ℕ → ℕ → Storage → Storage × QueueResult
unfolding save_retained
queue role raw id expires_at now s =
    if ltb max_queue_bytes (byte_length raw)
    then (s, QueueResult.oversize)
    else if has_passed now expires_at
    then (s, QueueResult.expired)
    else if ltb 0 (length id) && any (has_id id) (filter (is_live now) (rows_of role s))
    then (s, QueueResult.duplicate)
    else save_retained role s (
        retain_submission (filter (is_live now) (rows_of role s)) (new_row raw id expires_at now)
          hold_limit max_queue_bytes)

unfoldable pub acknowledge : Role → Text → Storage → Storage
acknowledge role id s =
    put_or_delete role (filter (λ item. not (has_id id item)) (rows_of role s)) s

-- `flushTo` reads a row without an expiry as passed: `undefined > now` is false.
abbrev pub is_pending : ℕ → Item → Bool
is_pending now (legacy raw) = true
is_pending now (entry row) = elim row.expires_at [ none ↦ false | some expiry ↦ ltb now expiry ]

-- `typeof item !== "string" && item.deliveryId`
abbrev pub is_reliable : Item → Bool
is_reliable item = elim (delivery_id item) [ none ↦ false | some id ↦ ltb 0 (length id) ]

module _ (matches : Text → Bool) where
  -- The loop over rows that stay until their acknowledgement: what the socket was sent.
  unfoldable pub send_reliable : ℕ → List Item → List Text
  send_reliable capacity [] = []
  send_reliable capacity (item ∷ rows) = elim (matches (raw_of item)) [
    | false ↦ send_reliable capacity rows
    | true ↦ elim capacity [ zero ↦ [] | suc left ↦ raw_of item ∷ send_reliable left rows ]
  ]

  -- The loop that takes rows out once they are sent: what was sent, and the rows that remain.
  unfoldable pub send_rest : ℕ → List Item → List Text × List Item
  send_rest capacity [] = ([], [])
  send_rest capacity (item ∷ rows) = elim (ltb 0 (length (raw_of item))) [
    | false ↦ send_rest capacity rows
    | true ↦ elim (matches (raw_of item)) [
      | false ↦ let later = send_rest capacity rows in (later.0, item ∷ later.1)
      | true ↦ elim capacity [
        | zero ↦ ([], item ∷ rows)
        | suc left ↦
            let later = send_rest left rows in
            (raw_of item ∷ later.0, if is_reliable item then item ∷ later.1 else later.1)
      ]
    ]
  ]

  -- `none` is a key that is not there, or an empty queue.
  unfoldable pub flush_rows : Role → ℕ → ℕ → List Item → Storage → Storage × List Text
  unfolding send_reliable send_rest put_or_delete
  flush_rows role capacity now [] s = (s, [])
  flush_rows role capacity now (first ∷ queue) s =
      let pending = filter (is_pending now) (first ∷ queue) in
      if leb (length pending) 0
      then (write role none s, [])
      else if all is_reliable pending
      then (s, send_reliable capacity pending)
      else (put_or_delete role (send_rest capacity pending).1 s, (send_rest capacity pending).0)

  unfoldable pub flush_to : Role → ℕ → ℕ → Storage → Storage × List Text
  unfolding flush_rows
  flush_to role capacity now s = flush_rows role capacity now (rows_of role s) s
