-- ===== src/Relay/Mailbox/Thinning.antt =====
-- Rows taken out of a list, in whatever way an operation of a mailbox does it.
use granttap_relay.Prelude.{
  ℕ, zero, suc, ◌≤◌, ◌≡◌, Bool, false, ◌&&◌, inl, inr, List, [], ◌∷◌, none, some, arith, ltb,
  if◌then◌else◌, length, filter, any, sum_by, Text, Bool-cases, Option-cases,
}
use granttap_relay.Relay.Submissions.{
  Item, row_bytes, is_durable, splice_removable, delivery_id, raw_of,
}
use granttap_relay.Relay.Submissions.Bounds.{drop_transient}
use granttap_relay.Relay.Mailbox.{has_id, is_reliable, send_rest}

-- `Thins xs ys`: `xs` is `ys` without some rows, in the same order.
pub data Thins : List Item → List Item → Type 0 where
  done : Thins [] []
  keep : (x : Item) {xs ys : List Item} → Thins xs ys → Thins (x ∷ xs) (x ∷ ys)
  skip : (x : Item) {xs ys : List Item} → Thins xs ys → Thins xs (x ∷ ys)

pub Thins-refl : (xs : List Item) → Thins xs xs
Thins-refl [] = done
Thins-refl (x ∷ xs) = keep x (Thins-refl xs)

pub Thins-trans : {xs ys zs : List Item} → Thins xs ys → Thins ys zs → Thins xs zs
Thins-trans r done = r
Thins-trans (keep x r) (keep _ q) = keep x (Thins-trans r q)
Thins-trans (skip x r) (keep _ q) = skip x (Thins-trans r q)
Thins-trans r (skip x q) = skip x (Thins-trans r q)

pub Thins-filter : (p : Item → Bool) (xs : List Item) → Thins (filter p xs) xs
unfolding filter
Thins-filter p [] = done
Thins-filter p (x ∷ xs) = elim (Bool-cases (p x)) [
  | inl e ↦ rw e (keep x (Thins-filter p xs))
  | inr e ↦ rw e (skip x (Thins-filter p xs))
]

pub Thins-splice :
    (rows : List Item) (x : Item) (rest : List Item)
    → splice_removable rows ≡ some (x, rest)
    → Thins rest rows
unfolding splice_removable
Thins-splice [] x rest h = absurd (ground arith)
Thins-splice (y ∷ rows) x rest h = elim (Bool-cases (is_durable y)) [
  | inl durable ↦ elim (Option-cases (splice_removable rows)) [
    | inl e ↦ absurd (ground arith)
    | inr ((z, tail), e) ↦
        let same : rest ≡ y ∷ tail = ground arith in rw same (keep y (Thins-splice rows z tail e))
  ]
  | inr transient ↦ let same : rest ≡ rows = ground arith in rw same (skip y (Thins-refl rows))
]

pub Thins-drop_transient : (k : ℕ) (rows : List Item) → Thins (drop_transient k rows) rows
unfolding drop_transient
Thins-drop_transient zero rows = Thins-refl rows
Thins-drop_transient (suc k) rows = elim (Option-cases (splice_removable rows)) [
  | inl e ↦ rw (e, drop_transient) (Thins-refl rows)
  | inr ((x, rest), e) ↦
      rw (e, drop_transient)
        (Thins-trans (Thins-drop_transient k rest) (Thins-splice rows x rest e))
]

pub Thins-send_rest :
    (test : Text → Bool) (capacity : ℕ) (rows : List Item)
    → Thins (send_rest test capacity rows).1 rows
unfolding send_rest
Thins-send_rest test capacity [] = done
Thins-send_rest test capacity (item ∷ rows) = elim (Bool-cases (ltb 0 (length (raw_of item)))) [
  | inr empty ↦ rw (empty, send_rest) (skip item (Thins-send_rest test capacity rows))
  | inl has ↦ elim (Bool-cases (test (raw_of item))) [
    | inr other ↦ rw (has, other, send_rest) (keep item (Thins-send_rest test capacity rows))
    | inl mine ↦ rw (has, mine, send_rest) (sent (λ c. Thins-send_rest test c rows) capacity)
  ]
]
  where
    sent :
        ((c : ℕ) → Thins (send_rest test c rows).1 rows)
        → (c : ℕ)
        → Thins
            (elim c as (λ _. List Text × List Item) [
              | zero ↦ ([], item ∷ rows)
              | suc left ↦ (
                raw_of item ∷ (send_rest test left rows).0,
                if is_reliable item
                    then item ∷ (send_rest test left rows).1
                    else (send_rest test left rows).1,
              )
            ]).1
            (item ∷ rows)
    sent later zero = Thins-refl (item ∷ rows)
    sent later (suc left) = elim (Bool-cases (is_reliable item)) [
      | inl stays ↦ rw stays (keep item (later left))
      | inr goes ↦ rw goes (skip item (later left))
    ]

pub length-Thins : {xs ys : List Item} → Thins xs ys → length xs ≤ length ys
length-Thins done = omega arith
length-Thins (keep x r) = omega (arith, length-Thins r)
length-Thins (skip x r) = omega (arith, length-Thins r)

pub sum_by-Thins : {xs ys : List Item} → Thins xs ys → sum_by row_bytes xs ≤ sum_by row_bytes ys
unfolding sum_by
sum_by-Thins done = omega arith
sum_by-Thins (keep x r) = omega (arith, sum_by-Thins r)
sum_by-Thins (skip x r) = omega (arith, sum_by-Thins r)

pub any-Thins :
    (p : Item → Bool) {xs ys : List Item} → Thins xs ys → any p ys ≡ false → any p xs ≡ false
unfolding any
any-Thins p done h = h
any-Thins p (keep x r) h = ground (arith, any-Thins p r)
any-Thins p (skip x r) h = any-Thins p r (ground arith)

-- Two rows with one delivery id.
abbrev pub same_id : Item → Item → Bool
same_id x y = elim (delivery_id x) [ none ↦ false | some d ↦ ltb 0 (length d) && has_id d y ]

abbrev pub Distinct : List Item → Type 0
Distinct [] = Unit {0}
Distinct (x ∷ xs) = (any (same_id x) xs ≡ false) × Distinct xs

pub Thins-Distinct : {xs ys : List Item} → Thins xs ys → Distinct ys → Distinct xs
Thins-Distinct done d = d
Thins-Distinct (keep x r) d = (any-Thins (same_id x) r d.0, Thins-Distinct r d.1)
Thins-Distinct (skip x r) d = Thins-Distinct r d.1
