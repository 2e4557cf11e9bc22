-- ===== src/Relay/Submissions/Bounds.antt =====
-- src/relay/submissionReceipts.js: what one removal does to the rows, and the rows that are left
-- after a number of removals.
use granttap_relay.Prelude.{
  ℕ, zero, suc, ◌+◌, ◌≤◌, ◌≡◌, refl, ◌∙◌, inl, inr, List, [], ◌∷◌, none, some, arith, length,
  sum_by, filter, Bool-cases, Option-cases,
}
use granttap_relay.Relay.Submissions.{Item, is_durable, row_bytes, splice_removable}

-- The oldest `k` rows that are no durable submission, taken out.
unfoldable pub drop_transient : ℕ → List Item → List Item
drop_transient zero rows = rows
drop_transient (suc k) rows = elim (splice_removable rows) [
  | none ↦ rows
  | some (_, rest) ↦ drop_transient k rest
]

abbrev pub Fits : ℕ → ℕ → List Item → Type 0
Fits max_count max_bytes rows = (length rows ≤ max_count) × (sum_by row_bytes rows ≤ max_bytes)

abbrev pub Splices : List Item → Item → List Item → Type 0
Splices rows x rest =
    (length rows ≡ length rest + 1)
    × (sum_by row_bytes rows ≡ row_bytes x + sum_by row_bytes rest)
    × (filter is_durable rest ≡ filter is_durable rows)

pub splice_removable-Splices :
    (rows : List Item) (x : Item) (rest : List Item)
    → splice_removable rows ≡ some (x, rest)
    → Splices rows x rest
unfolding splice_removable sum_by filter
splice_removable-Splices [] x rest h = ground arith
splice_removable-Splices (y ∷ rows) x rest h = elim (Bool-cases (is_durable y)) [
  | inl durable ↦ elim (Option-cases (splice_removable rows)) [
    | inl e ↦ absurd (ground arith)
    | inr ((z, tail), e) ↦ ground (arith, splice_removable-Splices rows z tail e)
  ]
  | inr transient ↦ ground arith
]

pub splice_removable-none :
    (rows : List Item) → splice_removable rows ≡ none → filter is_durable rows ≡ rows
unfolding splice_removable filter
splice_removable-none [] h = refl
splice_removable-none (y ∷ rows) h = ground (arith, splice_removable-none rows)

-- Durable submissions stay, in their order.
pub filter-drop_transient :
    (k : ℕ) (rows : List Item) → filter is_durable (drop_transient k rows) ≡ filter is_durable rows
unfolding drop_transient
filter-drop_transient zero rows = refl
filter-drop_transient (suc k) rows = elim (Option-cases (splice_removable rows)) [
  | inl e ↦ rw (e, drop_transient)
  | inr ((x, rest), e) ↦
      rw (e, drop_transient)
        (filter-drop_transient k rest ∙ (splice_removable-Splices rows x rest e).2)
]
