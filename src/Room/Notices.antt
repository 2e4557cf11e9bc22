-- ===== src/Room/Notices.antt =====
-- src/relay/room.js: what stands in the mailboxes when a socket is told that its submission is stored.
use granttap_relay.Prelude.{
  ℕ, ◌≡◌, refl, ◌∙◌, Bool, true, List, [], ◌∷◌, ◌++◌, Option, some, arith, any, any-append, filter,
  Text, text_eq_refl, inl, inr,
}
use granttap_relay.Relay.Submissions.{Item, Role, Retained, retain_submission}
use granttap_relay.Relay.Submissions.Retention.{retain_submission-Outcome}
use granttap_relay.Relay.Submissions.Bounds.{drop_transient}
use granttap_relay.Relay.Policy.{QueueOutcome, queue_outcome}
use granttap_relay.Relay.Mailbox.{
  Storage, rows_of, has_id, is_live, new_row, queue, save_retained, hold_limit, max_queue_bytes,
}
use granttap_relay.Relay.Mailbox.Rows.{rows_of-write}

new_row-has_id :
    (raw id : Text) (expires_at : Option ℕ) (now : ℕ)
    → has_id id (new_row raw id expires_at now) ≡ true
new_row-has_id raw id expires_at now = text_eq_refl id

any-filter :
    (p q : Item → Bool) (rows : List Item) → any p (filter q rows) ≡ true → any p rows ≡ true
unfolding any filter
any-filter p q [] h = h
any-filter p q (x ∷ rows) h = ground (arith, any-filter p q rows)

saved-has_id :
    (role : Role) (raw id : Text) (expires_at : Option ℕ) (now : ℕ) (s : Storage) (old : List Item)
    (r : Retained)
    → retain_submission old (new_row raw id expires_at now) hold_limit max_queue_bytes ≡ r
    → queue_outcome (save_retained role s r).1 (some id) ≡ QueueOutcome.forward
    → any (has_id id) (rows_of role (save_retained role s r).0) ≡ true
unfolding save_retained queue_outcome any
saved-has_id role raw id expires_at now s old (Retained.full _) e h = absurd (ground arith)
saved-has_id role raw id expires_at now s old (Retained.kept rows) e h =
    rw (rows_of-write role (some rows) s)
      (elim (retain_submission-Outcome old (new_row raw id expires_at now) hold_limit
        max_queue_bytes).1 [
          | inl (k, result, fits, _) ↦
              let same : rows ≡ drop_transient k old ++ new_row raw id expires_at now ∷ [] = cc in
              rw same (
                any-append (has_id id) (drop_transient k old) (new_row raw id expires_at now ∷ [])
                ∙ ground (arith, new_row-has_id raw id expires_at now))
          | inr (result, _) ↦ absurd (ground arith)
        ])

-- An answer of the mailbox on which the frame goes on leaves a row with its delivery id there.
pub queue-forwarded :
    (role : Role) (raw id : Text) (expires_at : Option ℕ) (now : ℕ) (s : Storage)
    → queue_outcome (queue role raw id expires_at now s).1 (some id) ≡ QueueOutcome.forward
    → any (has_id id) (rows_of role (queue role raw id expires_at now s).0) ≡ true
unfolding queue queue_outcome
queue-forwarded role raw id expires_at now s h = ground (
  arith,
  any-filter (has_id id) (is_live now) (rows_of role s),
  saved-has_id role raw id expires_at now s (filter (is_live now) (rows_of role s)) _ refl,
)
