-- ===== src/Relay/Mailbox/Invariant.antt =====
-- src/relay/room.js: the bounds of both mailboxes and the distinctness of delivery ids.
use granttap_relay.Prelude.{
  ℕ, ◌≤◌, ◌≡◌, refl, ap, sym, subst, Bool, false, not, ◌&&◌, inl, inr, List, [], ◌∷◌, ◌++◌, Option,
  none, some, arith, ltb, leb, length, filter, any, all, any-append, sum_by, Text, text_eq,
  text_eq_comm, text_eq→eq, byte_length, Bool-cases, Option-cases,
}
use granttap_relay.Relay.Submissions.{
  Item, Role, machine, phone, Retained, retain_submission, row_bytes, delivery_id,
}
use granttap_relay.Relay.Submissions.Bounds.{drop_transient}
use granttap_relay.Relay.Submissions.Retention.{retain_submission-Outcome}
use granttap_relay.Relay.Mailbox.{
  Storage, rows_of, has_id, is_live, is_pending, is_reliable, has_passed, new_row, queue,
  acknowledge, send_rest, flush_rows, flush_to, save_retained, hold_limit, max_queue_bytes,
}
use granttap_relay.Relay.Mailbox.Rows.{rows_of-write, rows_of-put_or_delete}
use granttap_relay.Relay.Mailbox.Durability.{
  Operation, queueing, acknowledging, flushing, step, run,
}
use granttap_relay.Relay.Mailbox.Survival.{Role-cases}
use granttap_relay.Relay.Mailbox.Runs.{touched, step_other}
use granttap_relay.Relay.Mailbox.Thinning.{
  Thins, Thins-trans, Thins-filter, Thins-drop_transient, Thins-send_rest, length-Thins,
  sum_by-Thins, any-Thins, same_id, Distinct, Thins-Distinct,
}

-- What holds of the rows of one mailbox.
pub record IsBounded (rows : List Item) : Type 0 where
  pub count : length rows ≤ hold_limit
  pub bytes : sum_by row_bytes rows ≤ max_queue_bytes
  pub distinct : Distinct rows

pub record IsValid (s : Storage) : Type 0 where
  pub machine_rows : IsBounded (rows_of machine s)
  pub phone_rows : IsBounded (rows_of phone s)

Thins-IsBounded : {xs ys : List Item} → Thins xs ys → IsBounded ys → IsBounded xs
Thins-IsBounded r b = record {
  count = omega (arith, length-Thins r, b.count);
  bytes = omega (arith, sum_by-Thins r, b.bytes);
  distinct = Thins-Distinct r b.distinct;
}

[]-IsBounded : IsBounded []
unfolding sum_by
[]-IsBounded = record { count = omega arith; bytes = omega arith; distinct = tt }

-- An empty delivery id is no id to the test for duplicates.
abbrev Fresh : Text → List Item → Type 0
Fresh id rows = (ltb 0 (length id) && any (has_id id) rows) ≡ false

same_id_new :
    (x : Item) (raw id : Text) (expires_at : Option ℕ) (now : ℕ)
    → (ltb 0 (length id) && has_id id x) ≡ false
    → same_id x (new_row raw id expires_at now) ≡ false
same_id_new x raw id expires_at now h = elim (Option-cases (delivery_id x)) [
  | inl e ↦ rw (e, same_id) refl
  | inr (d, e) ↦
      rw (e, same_id)
        (elim (Bool-cases (text_eq id d)) [
          | inl same ↦
              ground (arith, text_eq_comm id d, ap (λ t. ltb 0 (length t)) (text_eq→eq id d same))
          | inr other ↦ ground arith
        ])
]

Distinct-append :
    (rows : List Item) (raw id : Text) (expires_at : Option ℕ) (now : ℕ)
    → Fresh id rows
    → Distinct rows
    → Distinct (rows ++ new_row raw id expires_at now ∷ [])
unfolding any
Distinct-append [] raw id expires_at now h d = (refl, tt)
Distinct-append (x ∷ rows) raw id expires_at now h d = (
  ground (
    arith,
    any-append (same_id x) rows (new_row raw id expires_at now ∷ []),
    same_id_new x raw id expires_at now,
  ),
  Distinct-append rows raw id expires_at now (ground arith) d.1,
)

Fresh-Thins : (id : Text) {xs ys : List Item} → Thins xs ys → Fresh id ys → Fresh id xs
Fresh-Thins id r h = ground (arith, any-Thins (has_id id) r)

-- The rows that `queue` writes.
retained-IsBounded :
    (old rows : List Item) (raw id : Text) (expires_at : Option ℕ) (now : ℕ)
    → retain_submission old (new_row raw id expires_at now) hold_limit max_queue_bytes
      ≡ Retained.kept rows
    → Fresh id old
    → Distinct old
    → IsBounded rows
retained-IsBounded old rows raw id expires_at now kept fresh d =
    elim (retain_submission-Outcome old (new_row raw id expires_at now) hold_limit
      max_queue_bytes).1 [
        | inl (k, result, fits, _) ↦
            let same : rows ≡ drop_transient k old ++ new_row raw id expires_at now ∷ [] = cc in
            rw same (record {
              count = fits.0;
              bytes = fits.1;
              distinct =
                  Distinct-append (drop_transient k old) raw id expires_at now
                    (Fresh-Thins id (Thins-drop_transient k old) fresh)
                    (Thins-Distinct (Thins-drop_transient k old) d);
            })
        | inr (result, _) ↦ absurd (ground arith)
      ]

save_retained-IsBounded :
    (role : Role) (s : Storage) (old : List Item) (raw id : Text) (expires_at : Option ℕ) (now : ℕ)
    → Fresh id old
    → Distinct old
    → IsBounded (rows_of role s)
    → (r : Retained)
    → retain_submission old (new_row raw id expires_at now) hold_limit max_queue_bytes ≡ r
    → IsBounded (rows_of role (save_retained role s r).0)
unfolding save_retained
save_retained-IsBounded role s old raw id expires_at now fresh d b (Retained.full _) e = b
save_retained-IsBounded role s old raw id expires_at now fresh d b (Retained.kept rows) e =
    rw (rows_of-write role (some rows) s)
      (retained-IsBounded old rows raw id expires_at now e fresh d)

queue-IsBounded :
    (role : Role) (raw id : Text) (expires_at : Option ℕ) (now : ℕ) (s : Storage)
    → IsBounded (rows_of role s)
    → IsBounded (rows_of role (queue role raw id expires_at now s).0)
unfolding queue
queue-IsBounded role raw id expires_at now s b =
    elim (Bool-cases (ltb max_queue_bytes (byte_length raw))) [
      | inl e ↦ rw (e, queue) b
      | inr small ↦ elim (Bool-cases (has_passed now expires_at)) [
        | inl e ↦ rw (small, e, queue) b
        | inr open_still ↦ elim (Bool-cases (ltb 0 (length id) && any (has_id id) live)) [
          | inl e ↦ rw (small, open_still, e, queue) b
          | inr fresh ↦
              rw (small, open_still, fresh, queue)
                (save_retained-IsBounded role s live raw id expires_at now fresh
                  (Thins-Distinct (Thins-filter (is_live now) (rows_of role s)) b.distinct) b _
                  refl)
        ]
      ]
    ]
  where
    live : List Item
    live = filter (is_live now) (rows_of role s)

flush_rows-IsBounded :
    (test : Text → Bool) (role : Role) (capacity now : ℕ) (rows : List Item) (s : Storage)
    → rows_of role s ≡ rows
    → IsBounded rows
    → IsBounded (rows_of role (flush_rows test role capacity now rows s).0)
unfolding flush_rows
flush_rows-IsBounded test role capacity now [] s same b = rw same b
flush_rows-IsBounded test role capacity now (first ∷ rest) s same b =
    elim (Bool-cases (leb (length pending) 0)) [
      | inl e ↦ rw (e, flush_rows) (rw (rows_of-write role none s) []-IsBounded)
      | inr some_left ↦ elim (Bool-cases (all is_reliable pending)) [
        | inl e ↦ rw (some_left, e, flush_rows) (rw same b)
        | inr e ↦
            rw (some_left, e, flush_rows)
              (rw (rows_of-put_or_delete role (send_rest test capacity pending).1 s) (
                Thins-IsBounded
                  (Thins-trans (Thins-send_rest test capacity pending)
                    (Thins-filter (is_pending now) (first ∷ rest)))
                  b))
      ]
    ]
  where
    pending : List Item
    pending = filter (is_pending now) (first ∷ rest)

module _ (matches : Option Text → Text → Bool) where
  own-IsBounded :
      (now : ℕ) (op : Operation) (s : Storage)
      → IsBounded (rows_of (touched op) s)
      → IsBounded (rows_of (touched op) (step matches (now, op) s))
  unfolding step acknowledge flush_to
  own-IsBounded now (queueing r raw id x) s b = queue-IsBounded r raw id x now s b
  own-IsBounded now (acknowledging r id) s b =
      rw (rows_of-put_or_delete r (filter (λ item. not (has_id id item)) (rows_of r s)) s)
        (Thins-IsBounded (Thins-filter (λ item. not (has_id id item)) (rows_of r s)) b)
  own-IsBounded now (flushing r recipient capacity) s b =
      flush_rows-IsBounded (matches recipient) r capacity now (rows_of r s) s refl b

  role-IsBounded :
      (now : ℕ) (op : Operation) (role : Role) (s : Storage)
      → IsBounded (rows_of role s)
      → IsBounded (rows_of role (step matches (now, op) s))
  role-IsBounded now op role s b = elim (Role-cases role (touched op)) [
    | inl e ↦
        subst (λ q. IsBounded (rows_of q (step matches (now, op) s))) (sym e)
          (own-IsBounded now op s (subst (λ q. IsBounded (rows_of q s)) e b))
    | inr ne ↦ rw (step_other matches now op role s ne) b
  ]

  -- No run of queueings, acknowledgements and flushes from a valid storage takes a mailbox over 100
  -- rows or 1,800,000 bytes, or gives two of its rows one delivery id.
  pub run-IsValid :
      (ops : List (ℕ × Operation)) (s : Storage) → IsValid s → IsValid (run matches ops s)
  unfolding run
  run-IsValid [] s v = v
  run-IsValid ((now, op) ∷ ops) s v = run-IsValid ops (step matches (now, op) s) (record {
    machine_rows = role-IsBounded now op machine s v.machine_rows;
    phone_rows = role-IsBounded now op phone s v.phone_rows;
  })
