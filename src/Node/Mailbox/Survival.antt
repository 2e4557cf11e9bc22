-- ===== src/Node/Mailbox/Survival.antt =====
-- src/node/store.js: a submission that was stored stays until its acknowledgement or its expiry, and
-- the mailbox stays within its limits.
use granttap_relay.Prelude.{
  ℕ, ◌<◌, ◌≡◌, refl, ◌∙◌, ◌≢◌, true, not, inl, inr, List, [], ◌∷◌, Option, none, some, arith, ltb,
  ==_iff, any, any-append, any-filter_of_implies, Text, text_eq_refl, byte_length, Bool-cases,
}
use granttap_relay.Relay.Policy.{QueueResult}
use granttap_relay.Relay.Submissions.{
  Item, legacy, entry, Role, Limits, Retained, submission_retention_limits, retain_submission,
  is_durable_submission,
}
use granttap_relay.Relay.Mailbox.{hold_limit, has_id, has_passed}
use granttap_relay.Relay.Mailbox.Durability.{is_row, is_row_other}
use granttap_relay.Relay.Mailbox.Survival.{any-retained}
use granttap_relay.Node.Mailbox.{
  Column, is_current, current, queued_row, write_retained, enqueue_live, enqueue, acknowledge,
  read_queue, Operation, enqueueing, acknowledging, reading, step, run,
}

abbrev pub Holds : Text → Text → ℕ → Column → Type 0
Holds raw id e none = ⊥
Holds raw id e (some rows) = any (is_row raw id e) rows ≡ true

-- The call comes before the expiry and does not acknowledge the row.
abbrev pub AllSpare : Text → ℕ → List (ℕ × Operation) → Type 0
AllSpare id e [] = Unit {0}
AllSpare id e ((now, acknowledging other) ∷ ops) = (now < e) × (other ≢ id) × AllSpare id e ops
AllSpare id e ((now, enqueueing _ _ _) ∷ ops) = (now < e) × AllSpare id e ops
AllSpare id e ((now, reading) ∷ ops) = (now < e) × AllSpare id e ops

module _ (raw id : Text) (e : ℕ) where
  is_row-current :
      (now : ℕ) (item : Item) → now < e → is_row raw id e item ≡ true → is_current now item ≡ true
  unfolding is_row
  is_row-current now (legacy _) low h = ground arith
  is_row-current now (entry row) low h = ground arith

  any-current :
      (now : ℕ) (rows : List Item)
      → now < e
      → any (is_row raw id e) rows ≡ true
      → any (is_row raw id e) (current now rows) ≡ true
  unfolding current
  any-current now rows low h =
      any-filter_of_implies (is_row raw id e) (is_current now) rows (λ x. is_row-current now x low)
      ∙ h

  acknowledge-Holds :
      (other : Text) (now : ℕ) (column : Column)
      → now < e
      → other ≢ id
      → Holds raw id e column
      → Holds raw id e (acknowledge other now column)
  unfolding acknowledge
  acknowledge-Holds other now (some rows) low ne h =
      any-filter_of_implies (is_row raw id e) (λ item. not (has_id other item)) (current now rows)
        (λ x. is_row_other raw id e other x ne)
      ∙ any-current now rows low h
  acknowledge-Holds other now none low ne h = absurd h

  read_queue-Holds :
      (now : ℕ) (column : Column)
      → now < e
      → Holds raw id e column
      → Holds raw id e (read_queue now column).0
  unfolding read_queue
  read_queue-Holds now (some rows) low h = any-current now rows low h
  read_queue-Holds now none low h = absurd h

  module _ (durable : is_durable_submission (some id) ≡ true) where
    write_retained-Holds :
        (max_bytes : ℕ) (live : List Item) (item : Item) (r : Retained)
        → retain_submission live item hold_limit max_bytes ≡ r
        → any (is_row raw id e) live ≡ true
        → Holds raw id e (write_retained live r).0
    unfolding write_retained
    write_retained-Holds max_bytes live item (Retained.full _) eq h = h
    write_retained-Holds max_bytes live item (Retained.kept rows) eq h =
        any-retained _ _ raw id e live rows item durable eq
          (ground (arith, any-append (is_row raw id e) live (item ∷ [])))

    enqueue_live-Holds :
        (limits : Limits) (raw' id' : Text) (expires_at : Option ℕ) (now : ℕ) (live : List Item)
        → any (is_row raw id e) live ≡ true
        → Holds raw id e (enqueue_live limits raw' id' expires_at now live).0
    unfolding enqueue_live
    enqueue_live-Holds limits raw' id' expires_at now live h =
        elim (Bool-cases (any (has_id id') live)) [
          | inl again ↦ rw (again, enqueue_live) h
          | inr fresh ↦
              rw (fresh, enqueue_live)
                (write_retained-Holds limits.queue_bytes live (queued_row raw' id' expires_at now) _
                  refl h)
        ]

    enqueue-Holds :
        (role : Role) (raw' id' : Text) (expires_at : Option ℕ) (now : ℕ) (column : Column)
        → now < e
        → Holds raw id e column
        → Holds raw id e (enqueue role raw' id' expires_at now column).0
    unfolding enqueue
    enqueue-Holds role raw' id' expires_at now none low h = absurd h
    enqueue-Holds role raw' id' expires_at now (some rows) low h =
        elim (Bool-cases
          (ltb (submission_retention_limits role (some id')).frame_bytes (byte_length raw'))) [
            | inl big ↦ rw (big, enqueue) h
            | inr small ↦ elim (Bool-cases (has_passed now expires_at)) [
              | inl over ↦ rw (small, over, enqueue) h
              | inr ahead ↦
                  rw (small, ahead, enqueue)
                    (enqueue_live-Holds (submission_retention_limits role (some id')) raw' id'
                      expires_at now (current now rows) (any-current now rows low h))
            ]
          ]

    run-Holds :
        (role : Role) (ops : List (ℕ × Operation)) (column : Column)
        → AllSpare id e ops
        → Holds raw id e column
        → Holds raw id e (run role ops column)
    unfolding run step
    run-Holds role [] column spare h = h
    run-Holds role ((now, enqueueing raw' id' x) ∷ ops) column spare h =
        run-Holds role ops (enqueue role raw' id' x now column).0 spare.1
          (enqueue-Holds role raw' id' x now column spare.0 h)
    run-Holds role ((now, acknowledging other) ∷ ops) column spare h =
        run-Holds role ops (acknowledge other now column) spare.2
          (acknowledge-Holds other now column spare.0 spare.1 h)
    run-Holds role ((now, reading) ∷ ops) column spare h =
        run-Holds role ops (read_queue now column).0 spare.1 (read_queue-Holds now column spare.0 h)

    queued_row-is_row : (now : ℕ) → is_row raw id e (queued_row raw id (some e) now) ≡ true
    unfolding is_row
    queued_row-is_row now = simp (text_eq_refl, (==_iff e e).1 refl)

    write_retained_stored :
        (max_bytes now : ℕ) (live : List Item) (r : Retained)
        → retain_submission live (queued_row raw id (some e) now) hold_limit max_bytes ≡ r
        → (write_retained live r).1 ≡ QueueResult.stored
        → Holds raw id e (write_retained live r).0
    unfolding write_retained any
    write_retained_stored max_bytes now live (Retained.full _) eq h = absurd (ground arith)
    write_retained_stored max_bytes now live (Retained.kept rows) eq h =
        any-retained _ _ raw id e live rows (queued_row raw id (some e) now) durable eq (
          ground (
            arith,
            any-append (is_row raw id e) live (queued_row raw id (some e) now ∷ []),
            queued_row-is_row now,
          ))

    enqueue_stored :
        (role : Role) (now : ℕ) (column : Column)
        → (enqueue role raw id (some e) now column).1 ≡ QueueResult.stored
        → Holds raw id e (enqueue role raw id (some e) now column).0
    unfolding enqueue enqueue_live
    enqueue_stored role now none h = ground arith
    enqueue_stored role now (some rows) h = ground (
      arith,
      write_retained_stored (submission_retention_limits role (some id)).queue_bytes now
          (current now rows)
          (retain_submission (current now rows) (queued_row raw id (some e) now) hold_limit
            (submission_retention_limits role (some id)).queue_bytes)
          refl,
    )

    -- A durable submission that the Node store answered "stored" is in the mailbox, as it was sent,
    -- after any later run of queueings, reads and acknowledgements on it, in any order, that comes
    -- before its expiry and does not acknowledge it.
    pub enqueue_survives :
        (role : Role) (now : ℕ) (column : Column) (ops : List (ℕ × Operation))
        → (enqueue role raw id (some e) now column).1 ≡ QueueResult.stored
        → AllSpare id e ops
        → Holds raw id e (run role ops (enqueue role raw id (some e) now column).0)
    enqueue_survives role now column ops h spare =
        run-Holds role ops (enqueue role raw id (some e) now column).0 spare
          (enqueue_stored role now column h)
