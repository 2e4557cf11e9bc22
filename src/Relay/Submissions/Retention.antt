-- ===== src/Relay/Submissions/Retention.antt =====
-- src/relay/submissionReceipts.js: what `retainSubmission` promises the mailboxes.
use granttap_relay.Prelude.{
  ℕ, zero, suc, ◌+◌, ◌-◌, ◌<◌, ◌≡◌, refl, subst, get_or, true, false, ◌⊎◌, inl, inr, List, [], ◌∷◌,
  ◌++◌, Option, none, some, arith, length, sum_by, filter, filter-append, length-append,
  sum_by-append, Bool-cases, Option-cases,
}
use granttap_relay.Relay.Submissions.{
  Item, Retained, kept, full, is_durable, row_bytes, over, splice_removable, evict,
  retain_submission,
}
use granttap_relay.Relay.Submissions.Bounds.{
  drop_transient, Fits, splice_removable-Splices, splice_removable-none, filter-drop_transient,
}

module _ (queue : List Item) (incoming : Item) (max_count max_bytes : ℕ) where
  -- The mailbox after `k` removals, with the new row at its end.
  abbrev pub after : ℕ → List Item → List Item
  after k rows = drop_transient k rows ++ incoming ∷ []

  -- Either removals were made, oldest first and never of a durable submission, until the rows fit
  -- and no longer, or the durable submissions alone leave no place and the queue stays.
  abbrev pub Outcome : List Item → Option Retained → Type 0
  Outcome rows r =
      ((k : ℕ) × (r ≡ some (kept (after k rows)))
        × Fits max_count max_bytes (after k rows)
        × ((k ≡ 0) ⊎ (¬ Fits max_count max_bytes (after (k - 1) rows))))
      ⊎ ((r ≡ some (full queue))
          × (¬ Fits max_count max_bytes (filter is_durable rows ++ incoming ∷ [])))

  over-false :
      (rows : List Item)
      → over max_count max_bytes (length rows + 1) (sum_by row_bytes (rows ++ incoming ∷ []))
        ≡ false
      → Fits max_count max_bytes (rows ++ incoming ∷ [])
  over-false rows h = ground (arith, length-append rows (incoming ∷ []))

  over-true :
      (rows : List Item)
      → over max_count max_bytes (length rows + 1) (sum_by row_bytes (rows ++ incoming ∷ [])) ≡ true
      → ¬ Fits max_count max_bytes (rows ++ incoming ∷ [])
  over-true rows h f = ground (arith, length-append rows (incoming ∷ []))

  -- One removal more.
  Outcome-splice :
      (rows : List Item) (x : Item) (rest : List Item) (r : Option Retained)
      → splice_removable rows ≡ some (x, rest)
      → ¬ Fits max_count max_bytes (rows ++ incoming ∷ [])
      → Outcome rest r
      → Outcome rows r
  unfolding drop_transient
  Outcome-splice rows x rest r e tight (inl (zero, result, fits, least)) =
      inl (1, rw (e, drop_transient) result, rw (e, drop_transient) fits, inr tight)
  Outcome-splice rows x rest r e tight (inl (suc k, result, fits, inl none_made)) =
      absurd (omega arith)
  Outcome-splice rows x rest r e tight (inl (suc k, result, fits, inr least)) = inl (
    suc (suc k),
    rw (e, drop_transient) result,
    rw (e, drop_transient) fits,
    inr (rw down (fewer (rw up at least))),
  )
    where
      fewer :
          ¬ Fits max_count max_bytes (after k rest)
          → ¬ Fits max_count max_bytes (after (suc k) rows)
      fewer q = rw (e, drop_transient) q

      down : suc (suc k) - 1 ≡ suc k
      down = omega arith

      up : suc k - 1 ≡ k
      up = omega arith
  Outcome-splice rows x rest r e tight (inr (result, crowded)) =
      inr (result, rw (← (splice_removable-Splices rows x rest e).2) crowded)

  sum_by-splice :
      (rows : List Item) (x : Item) (rest : List Item)
      → splice_removable rows ≡ some (x, rest)
      → sum_by row_bytes (rows ++ incoming ∷ []) - row_bytes x
        ≡ sum_by row_bytes (rest ++ incoming ∷ [])
  sum_by-splice rows x rest e = omega (
    arith,
    (splice_removable-Splices rows x rest e).1,
    sum_by-append row_bytes rows (incoming ∷ []),
    sum_by-append row_bytes rest (incoming ∷ []),
  )

  evict-Outcome :
      (fuel : ℕ) (rows : List Item)
      → length rows < fuel
      → Outcome rows (
          evict fuel queue incoming max_count max_bytes rows
            (sum_by row_bytes (rows ++ incoming ∷ [])))
  unfolding evict drop_transient
  evict-Outcome zero rows h = absurd (omega arith)
  evict-Outcome (suc fuel) rows h =
      elim (Bool-cases (over max_count max_bytes (length rows + 1) bytes)) [
        | inl e ↦ elim (Option-cases (splice_removable rows)) [
          | inl none_left ↦
              rw (e, none_left, evict)
                (inr (refl, rw (splice_removable-none rows none_left) (over-true rows e)))
          | inr ((x, rest), spliced) ↦
              rw (e, spliced, sum_by-splice rows x rest spliced, evict)
                (Outcome-splice rows x rest _ spliced (over-true rows e) (
                  evict-Outcome fuel rest
                    (omega (arith, (splice_removable-Splices rows x rest spliced).0))))
        ]
        | inr e ↦ rw (e, evict) (inl (0, refl, over-false rows e, inl refl))
      ]
    where
      bytes : ℕ
      bytes = sum_by row_bytes (rows ++ incoming ∷ [])

  first_try : Option Retained
  first_try =
      evict (length queue + 1) queue incoming max_count max_bytes queue
        (sum_by row_bytes (queue ++ incoming ∷ []))

  retained_total : (r : Option Retained) → Outcome queue r → r ≡ some (get_or r (full queue))
  retained_total none o = absurd (ground arith)
  retained_total (some r) o = refl

  -- The fuel of the eviction loop suffices. It stores the new row behind the old ones after a
  -- number of removals, oldest first and never of a durable submission, that bring the mailbox
  -- within its limits where one removal less does not, or it refuses and leaves the mailbox alone, and then the durable submissions
  -- together with the new row exceed a limit.
  pub retain_submission-Outcome :
      (evict
          (length queue + 1)
          queue
          incoming
          max_count
          max_bytes
          queue
          (sum_by row_bytes (queue ++ incoming ∷ []))
        ≡ some (retain_submission queue incoming max_count max_bytes))
      × Outcome queue (some (retain_submission queue incoming max_count max_bytes))
  unfolding retain_submission first_try
  retain_submission-Outcome =
      let o : Outcome queue first_try = evict-Outcome (length queue + 1) queue (omega arith) in
      let e : first_try ≡ some (get_or first_try (full queue)) = retained_total first_try o in
      (e, subst (Outcome queue) e o)

  -- No stored durable submission is given up, and their order stays.
  pub retain_submission_durable :
      (rows : List Item)
      → retain_submission queue incoming max_count max_bytes ≡ kept rows
      → filter is_durable rows ≡ filter is_durable (queue ++ incoming ∷ [])
  retain_submission_durable rows e = elim retain_submission-Outcome.1 [
    | inl (k, result, _, _) ↦
        let same : rows ≡ after k queue = cc in
        rw (
          same,
          filter-append is_durable (drop_transient k queue),
          filter-append is_durable queue,
          filter-drop_transient k queue,
        )
    | inr (result, _) ↦ absurd (ground arith)
  ]

  -- What is stored lies within both limits.
  pub retain_submission-Fits :
      (rows : List Item)
      → retain_submission queue incoming max_count max_bytes ≡ kept rows
      → Fits max_count max_bytes rows
  retain_submission-Fits rows e = elim retain_submission-Outcome.1 [
    | inl (k, result, fits, _) ↦ let same : rows ≡ after k queue = cc in rw same fits
    | inr (result, _) ↦ absurd (ground arith)
  ]
