-- ===== src/Node/Mailbox.antt =====
-- src/node/store.js: `queue`, `enqueue` and `acknowledge` on one mailbox, the column of a role in the
-- row of a room; `none` is a room without a row. The JSON text of a column is the list of its items.
pub mod Survival
use granttap_relay.Prelude.{
  ℕ, ◌+◌, ◌*◌, Bool, true, false, not, List, [], ◌∷◌, Option, none, some, ltb, if◌then◌else◌,
  get_or, any, filter, Text, byte_length,
}
use granttap_relay.Relay.Policy.{QueueResult}
use granttap_relay.Relay.Submissions.{
  Item, legacy, entry, Role, Limits, Retained, submission_retention_limits, retain_submission,
}
use granttap_relay.Relay.Mailbox.{hold_limit, default_queue_ttl_ms, has_id, has_passed}

abbrev pub Column : Type 0
Column = Option (List Item)

-- `item.expiresAt > Date.now()`, which a bare string fails
abbrev pub is_current : ℕ → Item → Bool
is_current now (legacy raw) = false
is_current now (entry row) = elim row.expires_at [ none ↦ false | some expiry ↦ ltb now expiry ]

-- What a read leaves stored, which is what it returns.
unfoldable pub current : ℕ → List Item → List Item
unfolding filter
current now rows = filter (is_current now) rows

abbrev pub queued_row : Text → Text → Option ℕ → ℕ → Item
queued_row raw id expires_at now = entry (record {
  raw = raw;
  raw_bytes = some (byte_length raw);
  delivery_id = some id;
  expires_at = some (get_or expires_at (now + default_queue_ttl_ms));
  queued_at = some now;
})

unfoldable pub write_retained : List Item → Retained → Column × QueueResult
write_retained live (Retained.full _) = (some live, QueueResult.full)
write_retained live (Retained.kept rows) = (some rows, QueueResult.stored)

-- The rest of `enqueue`, with the rows that are not expired.
unfoldable pub enqueue_live : Limits → Text → Text → Option ℕ → ℕ → List Item → Column × QueueResult
unfolding write_retained any
enqueue_live limits raw id expires_at now live =
    if any (has_id id) live
    then (some live, QueueResult.duplicate)
    else write_retained live
        (retain_submission live (queued_row raw id expires_at now) hold_limit limits.queue_bytes)

unfoldable pub enqueue : Role → Text → Text → Option ℕ → ℕ → Column → Column × QueueResult
unfolding enqueue_live current submission_retention_limits
enqueue role raw id expires_at now column =
    if ltb (submission_retention_limits role (some id)).frame_bytes (byte_length raw)
    then (column, QueueResult.oversize)
    else if has_passed now expires_at
    then (column, QueueResult.expired)
    else elim column [
      | none ↦ (none, QueueResult.no_room)
      | some rows ↦
          enqueue_live (submission_retention_limits role (some id)) raw id expires_at now
            (current now rows)
    ]

abbrev pub without_id : Text → List Item → List Item
without_id id rows = filter (λ item. not (has_id id item)) rows

unfoldable pub acknowledge : Text → ℕ → Column → Column
unfolding current filter
acknowledge id now none = none
acknowledge id now (some rows) = some (without_id id (current now rows))

-- `queue`, for a flush or a count
unfoldable pub read_queue : ℕ → Column → Column × List Item
unfolding current
read_queue now none = (none, [])
read_queue now (some rows) = (some (current now rows), current now rows)

pub data Operation : Type 0 where
  enqueueing : Text → Text → Option ℕ → Operation
  acknowledging : Text → Operation
  reading : Operation

unfoldable pub step : Role → ℕ × Operation → Column → Column
unfolding enqueue acknowledge read_queue
step role (now, enqueueing raw id expires_at) column = (enqueue role raw id expires_at now column).0
step role (now, acknowledging id) column = acknowledge id now column
step role (now, reading) column = (read_queue now column).0

unfoldable pub run : Role → List (ℕ × Operation) → Column → Column
unfolding step
run role [] column = column
run role (op ∷ ops) column = run role ops (step role op column)
