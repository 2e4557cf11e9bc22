-- ===== src/Relay/Mailbox/Durability.antt =====
-- src/relay/room.js: a submission that was stored stays in its mailbox, through any traffic, until
-- its acknowledgement or its expiry.
use granttap_relay.Prelude.{
  ℕ, zero, suc, ◌<◌, ◌≡◌, refl, ◌≢◌, subst, Bool, true, false, not, ◌&&◌, ◌⊎◌, inl, inr, List, [],
  ◌∷◌, Option, none, some, arith, ◌==◌, length, any, Text, text_eq, text_eq→eq, Option-cases,
}
use granttap_relay.Relay.Submissions.{
  Item, legacy, entry, delivery_id, raw_of, Role, is_durable, is_durable_submission,
}
use granttap_relay.Relay.Mailbox.{
  Storage, rows_of, has_id, is_live, is_pending, is_reliable, queue, acknowledge, send_rest,
  flush_to,
}

pub data Operation : Type 0 where
  queueing : Role → Text → Text → Option ℕ → Operation
  acknowledging : Role → Text → Operation
  flushing : Role → Option Text → ℕ → Operation

abbrev is_expiry : ℕ → Option ℕ → Bool
is_expiry e none = false
is_expiry e (some expiry) = expiry == e

-- The row with this ciphertext, delivery id and expiry.
unfoldable pub is_row : Text → Text → ℕ → Item → Bool
is_row raw id e (legacy _) = false
is_row raw id e (entry row) =
    text_eq row.raw raw && (has_id id (entry row) && is_expiry e row.expires_at)

abbrev pub Holds : Role → Text → Text → ℕ → Storage → Type 0
Holds role raw id e s = any (is_row raw id e) (rows_of role s) ≡ true

module _ (matches : Option Text → Text → Bool) where
  unfoldable pub step : ℕ × Operation → Storage → Storage
  step (now, queueing role raw id expires_at) s = (queue role raw id expires_at now s).0
  step (now, acknowledging role id) s = acknowledge role id s
  step (now, flushing role recipient capacity) s =
      (flush_to (matches recipient) role capacity now s).0

  unfoldable pub run : List (ℕ × Operation) → Storage → Storage
  run [] s = s
  run (op ∷ ops) s = run ops (step op s)

-- The call comes before the expiry and does not acknowledge the row.
abbrev pub Spares : Role → Text → ℕ → ℕ × Operation → Type 0
Spares role id e (now, acknowledging r i) = (now < e) × ((r ≢ role) ⊎ (i ≢ id))
Spares role id e (now, queueing _ _ _ _) = now < e
Spares role id e (now, flushing _ _ _) = now < e

abbrev pub AllSpare : Role → Text → ℕ → List (ℕ × Operation) → Type 0
AllSpare role id e [] = Unit {0}
AllSpare role id e (op ∷ ops) = Spares role id e op × AllSpare role id e ops

module _ (raw id : Text) (e : ℕ) where
  pub is_row-has_id : (item : Item) → is_row raw id e item ≡ true → has_id id item ≡ true
  unfolding is_row
  is_row-has_id (legacy _) h = ground arith
  is_row-has_id (entry row) h = ground arith

  pub is_row-durable :
      (item : Item)
      → is_durable_submission (some id) ≡ true
      → is_row raw id e item ≡ true
      → is_durable item ≡ true
  is_row-durable item d h = elim (Option-cases (delivery_id item)) [
    | inl absent ↦ absurd (ground (arith, is_row-has_id item h))
    | inr (own, has) ↦ rw has (subst (λ i. is_durable_submission (some i) ≡ true) (same own has) d)
  ]
    where
      same : (own : Text) → delivery_id item ≡ some own → id ≡ own
      same own has = ground (arith, is_row-has_id item h, text_eq→eq own id)

  pub is_row-live :
      (now : ℕ) (item : Item) → now < e → is_row raw id e item ≡ true → is_live now item ≡ true
  unfolding is_row
  is_row-live now (legacy _) low h = refl
  is_row-live now (entry row) low h = ground arith

  pub is_row-pending :
      (now : ℕ) (item : Item) → now < e → is_row raw id e item ≡ true → is_pending now item ≡ true
  unfolding is_row
  is_row-pending now (legacy _) low h = refl
  is_row-pending now (entry row) low h = ground arith

  pub is_row_other :
      (other : Text) (item : Item)
      → other ≢ id
      → is_row raw id e item ≡ true
      → not (has_id other item) ≡ true
  is_row_other other item ne h = elim (Option-cases (delivery_id item)) [
    | inl absent ↦ rw (absent, not)
    | inr (own, has) ↦ ground (arith, is_row-has_id item h, text_eq→eq own id, text_eq→eq own other)
  ]

  pub is_row-reliable :
      (item : Item) → 0 < length id → is_row raw id e item ≡ true → is_reliable item ≡ true
  is_row-reliable item long h = elim (Option-cases (delivery_id item)) [
    | inl absent ↦ absurd (ground (arith, is_row-has_id item h))
    | inr (own, has) ↦
        let same : id ≡ own = ground (arith, is_row-has_id item h, text_eq→eq own id) in
        rw (has, is_reliable) (ground (arith, subst (λ i. 0 < length i) same long))
  ]

  pub is_row-raw : (item : Item) → is_row raw id e item ≡ true → raw_of item ≡ raw
  unfolding is_row
  is_row-raw (legacy _) h = ground arith
  is_row-raw (entry row) h = ground (arith, text_eq→eq row.raw raw)

  pub is_row-raw_pos :
      (item : Item) → 0 < length raw → is_row raw id e item ≡ true → 0 < length (raw_of item)
  is_row-raw_pos item full h = rw (is_row-raw item h) full

  -- What a flush takes out of storage is never a row with a delivery id.
  pub is_row-send_rest :
      (test : Text → Bool) (capacity : ℕ) (rows : List Item)
      → 0 < length id
      → 0 < length raw
      → any (is_row raw id e) rows ≡ true
      → any (is_row raw id e) (send_rest test capacity rows).1 ≡ true
  unfolding send_rest any
  is_row-send_rest test capacity [] long full h = h
  is_row-send_rest test zero (item ∷ rows) long full h = ground (
    arith,
    is_row-reliable item long,
    is_row-raw_pos item full,
    is_row-send_rest test zero rows long full,
  )
  is_row-send_rest test (suc left) (item ∷ rows) long full h = ground (
    arith,
    is_row-reliable item long,
    is_row-raw_pos item full,
    is_row-send_rest test (suc left) rows long full,
    is_row-send_rest test left rows long full,
  )
