-- ===== src/Relay/Mailbox/Delivery.antt =====
-- src/relay/room.js: what a flush sends, what a repeated submission is told, and what an
-- acknowledgement takes away.
use granttap_relay.Prelude.{
  ℕ, zero, suc, ◌≤◌, ◌<◌, ◌≡◌, ◌∙◌, Bool, true, false, not, List, [], ◌∷◌, Option, some, arith,
  length, length-filter-le, filter, any, any-filter_of_implies, any-filter-not, any_mono,
  filter_idem, Text, text_eq, text_eq_refl, byte_length,
}
use granttap_relay.Relay.Policy.{QueueResult}
use granttap_relay.Relay.Submissions.{Item, Role, raw_of, is_durable_submission}
use granttap_relay.Relay.Mailbox.{
  Storage, rows_of, has_id, is_live, is_pending, has_passed, queue, acknowledge, send_rest,
  send_reliable, flush_rows, flush_to, max_queue_bytes,
}
use granttap_relay.Relay.Mailbox.Rows.{rows_of-put_or_delete}
use granttap_relay.Relay.Mailbox.Durability.{
  Operation, is_row, run, AllSpare, is_row-pending, is_row-raw, is_row-raw_pos, is_row-live,
  is_row-has_id,
}
use granttap_relay.Relay.Mailbox.Runs.{queue_survives}

module _ (raw id : Text) (e : ℕ) (test : Text → Bool) (mine : test raw ≡ true) where
  sends_row :
      (item : Item)
      → is_row raw id e item ≡ true
      → (test (raw_of item) ≡ true) × (text_eq raw (raw_of item) ≡ true)
  sends_row item h = rw (is_row-raw raw id e item h) (mine, text_eq_refl raw)

  send_reliable-sends :
      (capacity : ℕ) (rows : List Item)
      → length rows ≤ capacity
      → any (is_row raw id e) rows ≡ true
      → any (text_eq raw) (send_reliable test capacity rows) ≡ true
  unfolding send_reliable any
  send_reliable-sends capacity [] room h = ground arith
  send_reliable-sends zero (item ∷ rows) room h = absurd (omega arith)
  send_reliable-sends (suc left) (item ∷ rows) room h =
      ground
        (arith, sends_row item, send_reliable-sends left rows, send_reliable-sends (suc left) rows)

  send_rest-sends :
      (capacity : ℕ) (rows : List Item)
      → 0 < length raw
      → length rows ≤ capacity
      → any (is_row raw id e) rows ≡ true
      → any (text_eq raw) (send_rest test capacity rows).0 ≡ true
  unfolding send_rest any
  send_rest-sends capacity [] full room h = ground arith
  send_rest-sends zero (item ∷ rows) full room h = absurd (omega arith)
  send_rest-sends (suc left) (item ∷ rows) full room h = ground (
    arith,
    sends_row item,
    is_row-raw_pos raw id e item full,
    send_rest-sends left rows full,
    send_rest-sends (suc left) rows full,
  )

  flush_rows-sends :
      (role : Role) (capacity now : ℕ) (rows : List Item) (s : Storage)
      → now < e
      → 0 < length raw
      → length rows ≤ capacity
      → any (is_row raw id e) rows ≡ true
      → any (text_eq raw) (flush_rows test role capacity now rows s).1 ≡ true
  unfolding flush_rows any
  flush_rows-sends role capacity now [] s low full room h = h
  flush_rows-sends role capacity now (first ∷ rest) s low full room h = ground (
    arith,
    any_not_nil pending,
    present,
    send_reliable-sends capacity pending,
    send_rest-sends capacity pending full,
    length-filter-le (is_pending now) (first ∷ rest),
  )
    where
      pending : List Item
      pending = filter (is_pending now) (first ∷ rest)

      present : any (is_row raw id e) pending ≡ true
      present =
          any-filter_of_implies (is_row raw id e) (is_pending now) (first ∷ rest)
            (λ x. is_row-pending raw id e now x low)
          ∙ h

      any_not_nil : (rows : List Item) → any (is_row raw id e) rows ≡ true → 0 < length rows
      any_not_nil [] q = ground arith
      any_not_nil (x ∷ rows) q = omega arith

module _ (matches : Option Text → Text → Bool) (raw id : Text) (e : ℕ) (role : Role)
    (durable : is_durable_submission (some id) ≡ true) (long : 0 < length id)
    (full : 0 < length raw) (start : ℕ) (s : Storage) (ops : List (ℕ × Operation))
    (stored : (queue role raw id (some e) start s).1 ≡ QueueResult.stored)
    (spare : AllSpare role id e ops) where
  abbrev later : Storage
  later = run matches ops (queue role raw id (some e) start s).0

  -- After a durable submission was stored and any traffic that does not acknowledge it, a peer of
  -- the role that may read it, connects before its expiry and takes all frames is sent it.
  pub flush_delivers :
      (recipient : Option Text) (capacity now : ℕ)
      → matches recipient raw ≡ true
      → now < e
      → length (rows_of role later) ≤ capacity
      → any (text_eq raw) (flush_to (matches recipient) role capacity now later).1 ≡ true
  unfolding flush_to
  flush_delivers recipient capacity now mine low room =
      flush_rows-sends raw id e (matches recipient) mine role capacity now (rows_of role later)
        later low full room
        (queue_survives matches raw id e role durable long full start s ops stored spare)

  -- A sender that repeats it before its expiry is told that it is a duplicate, whatever the frame
  -- and the expiry of the repetition are, if these are acceptable, and nothing is stored again.
  pub queue_repeated :
      (raw' : Text) (expires_at : Option ℕ) (now : ℕ)
      → byte_length raw' ≤ max_queue_bytes
      → has_passed now expires_at ≡ false
      → now < e
      → queue role raw' id expires_at now later ≡ (later, QueueResult.duplicate)
  unfolding queue
  queue_repeated raw' expires_at now small fresh low = ground (
    arith,
    any_mono (is_row raw id e) (has_id id) (filter (is_live now) (rows_of role later))
        (is_row-has_id raw id e)
        (any-filter_of_implies (is_row raw id e) (is_live now) (rows_of role later)
            (λ x. is_row-live raw id e now x low)
          ∙ queue_survives matches raw id e role durable long full start s ops stored spare),
  )

-- An acknowledgement takes every row with its id out of the mailbox and no other row.
pub acknowledge_exact :
    (role : Role) (id : Text) (s : Storage)
    → (any (has_id id) (rows_of role (acknowledge role id s)) ≡ false)
      × (filter (λ item. not (has_id id item)) (rows_of role (acknowledge role id s))
          ≡ filter (λ item. not (has_id id item)) (rows_of role s))
unfolding acknowledge
acknowledge_exact role id s =
    rw (rows_of-put_or_delete role (filter (λ item. not (has_id id item)) (rows_of role s)) s) (
      any-filter-not (has_id id) (rows_of role s),
      filter_idem (λ item. not (has_id id item)) (rows_of role s),
    )
