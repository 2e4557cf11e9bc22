-- ===== src/Relay/Submissions.antt =====
-- src/relay/submissionReceipts.js: which rows of a mailbox give way to a new one. The queue holds
-- the rows that storage returns: a bare string from before delivery ids, or a row object.
pub mod Bounds
pub mod Retention
use granttap_relay.Prelude.{
  ℕ, zero, suc, ◌+◌, ◌-◌, ◌≤◌, ◌≡◌, Bool, true, false, not, ◌&&◌, ◌||◌, List, [], ◌∷◌, ◌++◌, Option,
  none, some, ltb, leb, if◌then◌else◌, get_or, length, sum_by, any, Text, codes, starts_with,
  byte_length,
}

pub record Row : Type 0 where
  pub raw : Text
  pub raw_bytes : Option ℕ
  pub delivery_id : Option Text
  pub expires_at : Option ℕ
  pub queued_at : Option ℕ

pub data Item : Type 0 where
  legacy : Text → Item
  entry : Row → Item

-- `item.deliveryId`, which is undefined on a string.
abbrev pub delivery_id : Item → Option Text
delivery_id (legacy raw) = none
delivery_id (entry row) = row.delivery_id

abbrev pub raw_of : Item → Text
raw_of (legacy raw) = raw
raw_of (entry row) = row.raw

abbrev durable_prefixes : List Text
durable_prefixes = codes "user-message-" ∷ codes "approval-decision-" ∷ codes "attachment-" ∷ []

abbrev extends_prefix : Text → Text → Bool
extends_prefix id prefix = starts_with prefix id && ltb (length prefix) (length id)

unfoldable pub is_durable_submission : Option Text → Bool
unfolding any starts_with
is_durable_submission none = false
is_durable_submission (some id) = any (extends_prefix id) durable_prefixes

pub data Role : Type 0 where
  machine phone : Role

pub record Limits : Type 0 where
  pub frame_bytes : ℕ
  pub queue_bytes : ℕ

abbrev is_machine : Role → Bool
is_machine machine = true
is_machine phone = false

unfoldable pub submission_retention_limits : Role → Option Text → Limits
submission_retention_limits role id =
    if is_machine role && is_durable_submission id
    then record { frame_bytes = 22_010_000; queue_bytes = 32_000_000 }
    else record { frame_bytes = 1_800_000; queue_bytes = 1_800_000 }

unfoldable pub row_bytes : Item → ℕ
row_bytes (legacy raw) = byte_length raw
row_bytes (entry row) = get_or row.raw_bytes (byte_length row.raw)

abbrev pub is_durable : Item → Bool
is_durable item = is_durable_submission (delivery_id item)

-- `rows.findIndex(...)` and `rows.splice(removable, 1)` over the rows before the incoming one:
-- the first row that is no durable submission, and the rows without it.
unfoldable pub splice_removable : List Item → Option (Item × List Item)
splice_removable [] = none
splice_removable (x ∷ rows) = elim (is_durable x) [
  | true ↦ elim (splice_removable rows) [ none ↦ none | some (y, rest) ↦ some (y, x ∷ rest) ]
  | false ↦ some (x, rows)
]

pub data Retained : Type 0 where
  full : List Item → Retained
  kept : List Item → Retained

abbrev pub over : ℕ → ℕ → ℕ → ℕ → Bool
over max_count max_bytes count bytes = ltb max_count count || ltb max_bytes bytes

-- The loop of `retainSubmission`. The incoming row always stands last and is the last to be found:
-- the loop gives up when no row of `queue` before it is removable. `none` is fuel that ran out.
unfoldable pub evict : ℕ → List Item → Item → ℕ → ℕ → List Item → ℕ → Option Retained
evict zero queue incoming max_count max_bytes rows bytes = none
evict (suc fuel) queue incoming max_count max_bytes rows bytes =
    elim (over max_count max_bytes (length rows + 1) bytes) [
      | false ↦ some (kept (rows ++ incoming ∷ []))
      | true ↦ elim (splice_removable rows) [
        | none ↦ some (full queue)
        | some (row, rest) ↦
            evict fuel queue incoming max_count max_bytes rest (bytes - row_bytes row)
      ]
    ]

unfoldable pub retain_submission : List Item → Item → ℕ → ℕ → Retained
unfolding evict
retain_submission queue incoming max_count max_bytes =
    get_or
      (evict (length queue + 1) queue incoming max_count max_bytes queue
        (sum_by row_bytes (queue ++ incoming ∷ [])))
      (full queue)
