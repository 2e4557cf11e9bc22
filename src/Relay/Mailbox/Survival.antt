-- ===== src/Relay/Mailbox/Survival.antt =====
-- src/relay/room.js: each mailbox operation keeps a durable row that it does not acknowledge.
use granttap_relay.Prelude.{
  ℕ, ◌<◌, ◌≡◌, refl, ap, sym, ◌∙◌, ◌≢◌, subst, Bool, true, not, ◌⊎◌, inl, inr, List, [], ◌∷◌, ◌++◌,
  Option, some, arith, length, filter, any, any-append, any-filter_of_implies, Text,
}
use granttap_relay.Relay.Submissions.{
  Item, Role, machine, phone, Retained, retain_submission, is_durable, is_durable_submission,
}
use granttap_relay.Relay.Submissions.Retention.{retain_submission_durable}
use granttap_relay.Relay.Mailbox.{
  Storage, rows_of, has_id, is_live, is_pending, new_row, queue, acknowledge, send_rest, flush_rows,
  flush_to, save_retained, hold_limit, max_queue_bytes,
}
use granttap_relay.Relay.Mailbox.Rows.{rows_of-write, rows_of-put_or_delete}
use granttap_relay.Relay.Mailbox.Durability.{
  is_row, Holds, is_row-durable, is_row-live, is_row-pending, is_row_other, is_row-send_rest,
}

pub Role-cases : (a b : Role) → (a ≡ b) ⊎ (a ≢ b)
Role-cases machine machine = inl refl
Role-cases machine phone = inr (λ e. cc)
Role-cases phone machine = inr (λ e. cc)
Role-cases phone phone = inl refl

-- A row that was retained is the new one or one of the old, and the durable ones are all there.
pub any-retained :
    (max_count max_bytes : ℕ) (raw id : Text) (e : ℕ) (old rows : List Item) (item : Item)
    → is_durable_submission (some id) ≡ true
    → retain_submission old item max_count max_bytes ≡ Retained.kept rows
    → any (is_row raw id e) (old ++ item ∷ []) ≡ true
    → any (is_row raw id e) rows ≡ true
any-retained max_count max_bytes raw id e old rows item d kept h =
    sym (any-filter_of_implies (is_row raw id e) is_durable rows (λ x. is_row-durable raw id e x d))
    ∙ ap (any (is_row raw id e)) (retain_submission_durable old item max_count max_bytes rows kept)
    ∙ any-filter_of_implies (is_row raw id e) is_durable (old ++ item ∷ [])
        (λ x. is_row-durable raw id e x d)
    ∙ h

module _ (raw id : Text) (e : ℕ) (role : Role)
    (durable : is_durable_submission (some id) ≡ true) where
  pub save_retained-Holds :
      (s : Storage) (old : List Item) (item : Item) (r : Retained)
      → retain_submission old item hold_limit max_queue_bytes ≡ r
      → Holds role raw id e s
      → any (is_row raw id e) old ≡ true
      → Holds role raw id e (save_retained role s r).0
  unfolding save_retained
  save_retained-Holds s old item (Retained.full _) eq h old_has = h
  save_retained-Holds s old item (Retained.kept rows) eq h old_has =
      rw (rows_of-write role (some rows) s) (
        any-retained _ _ raw id e old rows item durable eq
          (ground (arith, any-append (is_row raw id e) old (item ∷ []))))

  pub queue-Holds :
      (raw' id' : Text) (expires_at : Option ℕ) (now : ℕ) (s : Storage)
      → now < e
      → Holds role raw id e s
      → Holds role raw id e (queue role raw' id' expires_at now s).0
  unfolding queue
  queue-Holds raw' id' expires_at now s low h = ground (
    arith,
    save_retained-Holds s (filter (is_live now) (rows_of role s)) (new_row raw' id' expires_at now)
        (retain_submission (filter (is_live now) (rows_of role s)) (new_row raw' id' expires_at now)
          hold_limit max_queue_bytes)
        refl h
        (any-filter_of_implies (is_row raw id e) (is_live now) (rows_of role s)
            (λ x. is_row-live raw id e now x low)
          ∙ h),
  )

  pub acknowledge-Holds :
      (other : Text) (s : Storage)
      → other ≢ id
      → Holds role raw id e s
      → Holds role raw id e (acknowledge role other s)
  unfolding acknowledge
  acknowledge-Holds other s ne h =
      rw (rows_of-put_or_delete role (filter (λ item. not (has_id other item)) (rows_of role s)) s)
        (any-filter_of_implies (is_row raw id e) (λ item. not (has_id other item)) (rows_of role s)
            (λ x. is_row_other raw id e other x ne)
          ∙ h)

  flush_rows-Holds :
      (test : Text → Bool) (capacity now : ℕ) (rows : List Item) (s : Storage)
      → now < e
      → 0 < length id
      → 0 < length raw
      → any (is_row raw id e) rows ≡ true
      → rows_of role s ≡ rows
      → Holds role raw id e (flush_rows test role capacity now rows s).0
  unfolding flush_rows any
  flush_rows-Holds test capacity now [] s low long full h same = ground arith
  flush_rows-Holds test capacity now (first ∷ queue) s low long full h same = ground (
    arith,
    any_not_nil (filter (is_pending now) (first ∷ queue)),
    pending,
    subst (λ rows. any (is_row raw id e) rows ≡ true) (sym same) h,
    rows_of-put_or_delete role (send_rest test capacity (filter (is_pending now) (first ∷ queue))).1
        s,
    is_row-send_rest raw id e test capacity (filter (is_pending now) (first ∷ queue)) long full,
  )
    where
      pending : any (is_row raw id e) (filter (is_pending now) (first ∷ queue)) ≡ true
      pending =
          any-filter_of_implies (is_row raw id e) (is_pending now) (first ∷ queue)
            (λ x. is_row-pending raw id e now x low)
          ∙ h

      any_not_nil : (rows : List Item) → any (is_row raw id e) rows ≡ true → 0 < length rows
      any_not_nil [] q = ground arith
      any_not_nil (x ∷ rows) q = omega arith

  pub flush_to-Holds :
      (test : Text → Bool) (capacity now : ℕ) (s : Storage)
      → now < e
      → 0 < length id
      → 0 < length raw
      → Holds role raw id e s
      → Holds role raw id e (flush_to test role capacity now s).0
  unfolding flush_to
  flush_to-Holds test capacity now s low long full h =
      flush_rows-Holds test capacity now (rows_of role s) s low long full h refl
