-- ===== src/Relay/Mailbox/Runs.antt =====
-- src/relay/room.js: sequences of mailbox operations.
use granttap_relay.Prelude.{
  ℕ, ◌<◌, ◌≡◌, refl, sym, ◌≢◌, subst, Bool, true, inl, inr, List, [], ◌∷◌, Option, none, some,
  arith, length, filter, any, any-append, Text, text_eq_refl, ==_iff,
}
use granttap_relay.Relay.Policy.{QueueResult}
use granttap_relay.Relay.Submissions.{
  Item, Role, Retained, retain_submission, is_durable_submission,
}
use granttap_relay.Relay.Mailbox.{
  Storage, read, rows_of, is_live, new_row, queue, acknowledge, flush_rows, flush_to, save_retained,
  hold_limit, max_queue_bytes,
}
use granttap_relay.Relay.Mailbox.Rows.{rows_of-write, read-write_ne, read-put_or_delete_ne}
use granttap_relay.Relay.Mailbox.Durability.{
  Operation, queueing, acknowledging, flushing, is_row, Holds, step, run, Spares, AllSpare,
}
use granttap_relay.Relay.Mailbox.Survival.{
  Role-cases, any-retained, queue-Holds, acknowledge-Holds, flush_to-Holds,
}

-- Every operation on one mailbox leaves the other alone.
read-queue_ne :
    (role other : Role) (raw id : Text) (expires_at : Option ℕ) (now : ℕ) (s : Storage)
    → other ≢ role
    → read other (queue role raw id expires_at now s).0 ≡ read other s
unfolding queue
read-queue_ne role other raw id expires_at now s ne = ground (
  arith,
  saved (
      retain_submission (filter (is_live now) (rows_of role s)) (new_row raw id expires_at now)
        hold_limit max_queue_bytes),
)
  where
    saved : (r : Retained) → read other (save_retained role s r).0 ≡ read other s
    saved (Retained.full _) = refl
    saved (Retained.kept rows) = read-write_ne role other (some rows) s ne

read-flush_rows_ne :
    (test : Text → Bool) (role other : Role) (capacity now : ℕ) (rows : List Item) (s : Storage)
    → other ≢ role
    → read other (flush_rows test role capacity now rows s).0 ≡ read other s
unfolding flush_rows
read-flush_rows_ne test role other capacity now [] s ne = refl
read-flush_rows_ne test role other capacity now (first ∷ rest) s ne = grind (
  arith,
  read-write_ne role other none s ne,
  λ (rows : List Item). read-put_or_delete_ne role other rows s ne,
)

-- The mailbox that a call works on.
abbrev pub touched : Operation → Role
touched (queueing r _ _ _) = r
touched (acknowledging r _) = r
touched (flushing r _ _) = r

module _ (matches : Option Text → Text → Bool) where
  -- Every operation on one mailbox leaves the other alone.
  pub step_other :
      (now : ℕ) (op : Operation) (other : Role) (s : Storage)
      → other ≢ touched op
      → read other (step matches (now, op) s) ≡ read other s
  unfolding step acknowledge flush_to
  step_other now (queueing r raw id x) other s ne = read-queue_ne r other raw id x now s ne
  step_other now (acknowledging r id) other s ne = read-put_or_delete_ne r other _ s ne
  step_other now (flushing r recipient capacity) other s ne =
      read-flush_rows_ne (matches recipient) r other capacity now (rows_of r s) s ne

  module _ (raw id : Text) (e : ℕ) (role : Role) (durable : is_durable_submission (some id) ≡ true)
      (long : 0 < length id) (full : 0 < length raw) where
    elsewhere :
        (now : ℕ) (op : Operation) (s : Storage)
        → role ≢ touched op
        → Holds role raw id e s
        → Holds role raw id e (step matches (now, op) s)
    elsewhere now op s ne h = rw (step_other now op role s ne) h

    pub step-Holds :
        (op : ℕ × Operation) (s : Storage)
        → Spares role id e op
        → Holds role raw id e s
        → Holds role raw id e (step matches op s)
    unfolding step
    step-Holds (now, queueing r raw' id' x) s low h = elim (Role-cases role r) [
      | inl same ↦
          subst (λ q. Holds role raw id e (queue q raw' id' x now s).0) same
            (queue-Holds raw id e role durable raw' id' x now s low h)
      | inr ne ↦ elsewhere now (queueing r raw' id' x) s ne h
    ]
    step-Holds (now, acknowledging r other) s (low, inl ne) h =
        elsewhere now (acknowledging r other) s (λ q. ne (sym q)) h
    step-Holds (now, acknowledging r other) s (low, inr ne) h = elim (Role-cases role r) [
      | inl same ↦
          subst (λ q. Holds role raw id e (acknowledge q other s)) same
            (acknowledge-Holds raw id e role durable other s ne h)
      | inr apart ↦ elsewhere now (acknowledging r other) s apart h
    ]
    step-Holds (now, flushing r recipient capacity) s low h = elim (Role-cases role r) [
      | inl same ↦
          subst (λ q. Holds role raw id e (flush_to (matches recipient) q capacity now s).0) same
            (flush_to-Holds raw id e role durable (matches recipient) capacity now s low long full
              h)
      | inr ne ↦ elsewhere now (flushing r recipient capacity) s ne h
    ]

    pub run-Holds :
        (ops : List (ℕ × Operation)) (s : Storage)
        → AllSpare role id e ops
        → Holds role raw id e s
        → Holds role raw id e (run matches ops s)
    unfolding run
    run-Holds [] s spare h = h
    run-Holds (op ∷ ops) s spare h =
        run-Holds ops (step matches op s) spare.1 (step-Holds op s spare.0 h)

    new_row-is_row : (now : ℕ) → is_row raw id e (new_row raw id (some e) now) ≡ true
    unfolding is_row
    new_row-is_row now = simp (text_eq_refl, (==_iff e e).1 refl)

    save_retained_stored :
        (now : ℕ) (s : Storage) (old : List Item) (r : Retained)
        → retain_submission old (new_row raw id (some e) now) hold_limit max_queue_bytes ≡ r
        → (save_retained role s r).1 ≡ QueueResult.stored
        → Holds role raw id e (save_retained role s r).0
    unfolding save_retained any
    save_retained_stored now s old (Retained.full _) eq h = absurd (ground arith)
    save_retained_stored now s old (Retained.kept rows) eq h =
        rw (rows_of-write role (some rows) s) (
          any-retained _ _ raw id e old rows (new_row raw id (some e) now) durable eq (
            ground (
              arith,
              any-append (is_row raw id e) old (new_row raw id (some e) now ∷ []),
              new_row-is_row now,
            )))

    -- The new row is in what was stored.
    queue_stored-Holds :
        (now : ℕ) (s : Storage)
        → (queue role raw id (some e) now s).1 ≡ QueueResult.stored
        → Holds role raw id e (queue role raw id (some e) now s).0
    unfolding queue
    queue_stored-Holds now s h = ground (
      arith,
      save_retained_stored now s (filter (is_live now) (rows_of role s))
          (retain_submission (filter (is_live now) (rows_of role s)) (new_row raw id (some e) now)
            hold_limit max_queue_bytes)
          refl,
    )

    -- A durable submission that the room answered `stored` is in the mailbox, as it was sent, after
    -- any later run of queueings, flushes and acknowledgements, in any order and for either role,
    -- that comes before its expiry and does not acknowledge it.
    pub queue_survives :
        (now : ℕ) (s : Storage) (ops : List (ℕ × Operation))
        → (queue role raw id (some e) now s).1 ≡ QueueResult.stored
        → AllSpare role id e ops
        → Holds role raw id e (run matches ops (queue role raw id (some e) now s).0)
    queue_survives now s ops h spare =
        run-Holds ops (queue role raw id (some e) now s).0 spare (queue_stored-Holds now s h)
