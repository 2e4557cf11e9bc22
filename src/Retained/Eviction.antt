-- ===== src/Retained/Eviction.antt =====
-- src/retainedState/policy.js: what is retained fits into the room's limits.
use granttap_relay.Prelude.{
  ℕ, ◌+◌, ◌-◌, ◌≤◌, ◌≡◌, refl, subst, ◌∙◌, Bool, true, not, ◌&&◌, ◌||◌, List, [], ◌∷◌, ◌++◌, map,
  arith, leb, length, length-filter-le, filter, sum_by, any, all, Text, text_eq, text_eq_refl,
  text_eq→eq, Bool-cases, inl, inr,
}
use granttap_relay.Relay.Json.{Json}
use granttap_relay.Sockets.Presence.{Seen}
use granttap_relay.Retained.{
  StateRow, Group, state_room_bytes, state_room_slots, is_live, in_group, group_of, bytes_of,
  make_group, firsts, place, sort_groups, eviction_groups, evict_groups, retain_row, is_refused,
  is_stale, state_row, retain_state, last_seen, same_slot,
}

pub record Fits (rows : List StateRow) : Type 0 where
  pub slots : length rows ≤ state_room_slots
  pub bytes : bytes_of rows ≤ state_room_bytes

-- Whether the row belongs to one of the groups.
abbrev is_grouped : List Group → StateRow → Bool
is_grouped groups row = any (λ g. in_group g.id row) groups

bytes-filter :
    (test : StateRow → Bool) (rows : List StateRow)
    → bytes_of (filter test rows) + bytes_of (filter (λ row. not (test row)) rows) ≡ bytes_of rows
unfolding filter sum_by
bytes-filter test [] = refl
bytes-filter test (row ∷ rows) = ground (arith, bytes-filter test rows)

grouped-rest :
    (g : Group) (groups : List Group) (rows : List StateRow)
    → all (is_grouped (g ∷ groups)) rows ≡ true
    → all (is_grouped groups) (filter (λ row. not (in_group g.id row)) rows) ≡ true
unfolding all filter any
grouped-rest g groups [] h = refl
grouped-rest g groups (row ∷ rows) h = ground (arith, grouped-rest g groups rows)

evict_groups-Fits :
    (groups : List Group) (rows : List StateRow) (total : ℕ)
    → total ≡ bytes_of rows
    → all (is_grouped groups) rows ≡ true
    → Fits (evict_groups groups rows total)
unfolding evict_groups all any sum_by
evict_groups-Fits [] [] total e h = record { slots = omega arith; bytes = omega arith }
evict_groups-Fits [] (row ∷ rows) total e h = absurd (ground arith)
evict_groups-Fits (g ∷ groups) rows total e h =
    elim (Bool-cases (leb (length rows) state_room_slots && leb total state_room_bytes)) [
      | inl fits ↦ rw (fits, evict_groups) (record { slots = ground arith; bytes = ground arith })
      | inr over ↦
          rw (over, evict_groups)
            (evict_groups-Fits groups (filter (λ row. not (in_group g.id row)) rows)
              (total - bytes_of (filter (in_group g.id) rows))
              (omega (arith, bytes-filter (in_group g.id) rows, e)) (grouped-rest g groups rows h))
    ]

any-place :
    (row : StateRow) (g : Group) (groups : List Group)
    → is_grouped (place g groups) row ≡ is_grouped (g ∷ groups) row
unfolding place any
any-place row g [] = refl
any-place row g (h ∷ groups) = ground (arith, any-place row g groups)

any-sort_groups :
    (row : StateRow) (groups : List Group)
    → is_grouped (sort_groups groups) row ≡ is_grouped groups row
unfolding sort_groups any
any-sort_groups row [] = refl
any-sort_groups row (g ∷ groups) =
    ground (arith, any-place row g (sort_groups groups), any-sort_groups row groups)

all-implies :
    (p q : StateRow → Bool) (rows : List StateRow)
    → ((x : StateRow) → p x ≡ true → q x ≡ true)
    → all p rows ≡ true
    → all q rows ≡ true
unfolding all
all-implies p q [] keeps h = refl
all-implies p q (x ∷ rows) keeps h = ground (arith, keeps x, all-implies p q rows keeps)

abbrev shares : StateRow → StateRow → Bool
shares x first = in_group (group_of first) x

-- A row whose group's first row is dropped for standing behind `r` is in the group of `r`.
covered :
    (r x : StateRow) (rest : List StateRow)
    → any (shares x) rest ≡ true
    → any (shares x) (r ∷ filter (λ other. not (in_group (group_of r) other)) rest) ≡ true
unfolding any filter
covered r x [] h = absurd (ground arith)
covered r x (f ∷ rest) h = elim (Bool-cases (in_group (group_of r) f)) [
  | inr apart ↦ ground (arith, covered r x rest)
  | inl same ↦ elim (Bool-cases (shares x f)) [
    | inl own ↦
        let e : group_of x ≡ group_of r =
          text_eq→eq (group_of x) (group_of f) own ∙ text_eq→eq (group_of f) (group_of r) same in
        ground (arith, subst (λ t. text_eq (group_of x) t ≡ true) e (text_eq_refl (group_of x)))
    | inr other ↦ ground (arith, covered r x rest)
  ]
]

firsts-cover : (rows : List StateRow) → all (λ x. any (shares x) (firsts rows)) rows ≡ true
unfolding firsts all any
firsts-cover [] = refl
firsts-cover (r ∷ rows) = ground (
  arith,
  text_eq_refl (group_of r),
  all-implies (λ x. any (shares x) (firsts rows))
      (λ x. any (shares x) (r ∷ filter (λ other. not (in_group (group_of r) other)) (firsts rows)))
      rows (λ x. covered r x (firsts rows)) (firsts-cover rows),
)

any-make_group :
    (seen_of : Text → ℕ) (all_rows rows : List StateRow) (x : StateRow)
    → is_grouped (map (make_group seen_of all_rows) rows) x ≡ any (shares x) rows
unfolding any make_group
any-make_group seen_of all_rows [] x = refl
any-make_group seen_of all_rows (f ∷ rows) x =
    ground (arith, any-make_group seen_of all_rows rows x)

eviction_groups-cover :
    (seen_of : Text → ℕ) (rows : List StateRow)
    → all (is_grouped (eviction_groups seen_of rows)) rows ≡ true
unfolding eviction_groups
eviction_groups-cover seen_of rows =
    all-implies (λ x. any (shares x) (firsts rows)) (is_grouped (eviction_groups seen_of rows)) rows
      (λ x h.
        any-sort_groups x (map (make_group seen_of rows) (firsts rows))
        ∙ any-make_group seen_of rows (firsts rows) x
        ∙ h)
      (firsts-cover rows)

live-Fits : (now : ℕ) (rows : List StateRow) → Fits rows → Fits (filter (is_live now) rows)
live-Fits now rows f = record {
  slots = omega (arith, length-filter-le (is_live now) rows, f.slots);
  bytes = omega (arith, bytes-filter (is_live now) rows, f.bytes);
}

-- What is retained of states that fit into 512 slots and 16 MiB fits into them, whatever state is
-- sent: the eviction of whole groups always ends within the limits.
pub retain_state-Fits :
    (rows : List StateRow) (e : Json) (raw : Text) (now : ℕ) (activity : List Seen)
    → Fits rows
    → Fits (retain_state rows e raw now activity)
unfolding retain_state retain_row
retain_state-Fits rows e raw now activity f =
    elim (Bool-cases
      (is_refused e raw now || is_stale (state_row e raw now) (filter (is_live now) rows))) [
        | inl refused ↦ rw (refused, retain_state) (live-Fits now rows f)
        | inr fresh ↦
            rw (fresh, retain_state)
              (evict_groups-Fits (eviction_groups (last_seen now activity) next) next
                (bytes_of next) refl (eviction_groups-cover (last_seen now activity) next))
      ]
  where
    next : List StateRow
    next =
        filter (λ old. not (same_slot (state_row e raw now) old)) (filter (is_live now) rows)
        ++ state_row e raw now ∷ []
