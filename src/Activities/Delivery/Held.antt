-- ===== src/Activities/Delivery/Held.antt =====
-- src/taskActivities/registry/worker.js: what keeps the time at which an activity was delivered last.
use granttap_relay.Prelude.{
  ℕ, ◌+◌, ◌<◌, ◌≤◌, ◌≡◌, ◌⊎◌, subst, sym, true, false, List, [], ◌∷◌, ◌++◌, some, arith, filter,
  find, is_some, leb, length, Text, text_eq, text_eq→eq, Bool-cases, inl, inr,
}
use granttap_relay.Activities.{activity_limit}
use granttap_relay.Activities.Registries.{
  Enrollment, Activity, has_id, is_live, fresh, renewed, marked, replace, remove_first, mark_first,
  register_live,
}

-- The first row of the activity was delivered at `first` and lives for ten seconds more.
abbrev pub IsKept : ℕ → Activity → Type 0
IsKept first row = (row.last_delivered_at ≡ first) × (first + 10_000 ≤ row.enrollment.expires_at)

abbrev pub IsHeld : ℕ → Text → List Activity → Type 0
IsHeld first id rows = (row : Activity) × (find (has_id id) rows ≡ some row) × IsKept first row

-- The first row of a list is that of the activity, or it does not matter.
abbrev Cases : ℕ → Text → Activity → List Activity → Type 0
Cases first id x rows =
    ((has_id id x ≡ true) × IsKept first x) ⊎ ((has_id id x ≡ false) × IsHeld first id rows)

held-Cases :
    (first : ℕ) (id : Text) (x : Activity) (rows : List Activity)
    → IsHeld first id (x ∷ rows)
    → Cases first id x rows
unfolding find
held-Cases first id x rows (row, at, kept) = elim (Bool-cases (has_id id x)) [
  | inl e ↦ let this : row ≡ x = ground arith in inl (e, subst (IsKept first) this kept)
  | inr e ↦ inr (e, (row, ground arith, kept))
]

pub here :
    (first : ℕ) (id : Text) (x : Activity) (rows : List Activity)
    → has_id id x ≡ true
    → IsKept first x
    → IsHeld first id (x ∷ rows)
unfolding find
here first id x rows e kept = (x, simp e, kept)

pub there :
    (first : ℕ) (id : Text) (x : Activity) (rows : List Activity)
    → has_id id x ≡ false
    → IsHeld first id rows
    → IsHeld first id (x ∷ rows)
unfolding find
there first id x rows e (row, at, kept) = (row, simp e at, kept)

nothing_held : (first : ℕ) (id : Text) → IsHeld first id [] → ⊥
unfolding find
nothing_held first id (row, at, kept) = ground arith

other_row :
    (id other : Text) (x : Activity)
    → text_eq id other ≡ false
    → has_id id x ≡ true
    → has_id other x ≡ false
other_row id other x differ e =
    subst (λ i. text_eq i other ≡ false) (sym (text_eq→eq x.enrollment.activity_id id e)) differ

pub filter-IsHeld :
    (first now : ℕ) (id : Text) (rows : List Activity)
    → now < first + 10_000
    → IsHeld first id rows
    → IsHeld first id (filter (is_live now) rows)
unfolding filter
filter-IsHeld first now id [] soon h = absurd (nothing_held first id h)
filter-IsHeld first now id (x ∷ rows) soon h = elim (held-Cases first id x rows h) [
  | inl (e, kept) ↦
      let lives : is_live now x ≡ true = ground (arith, kept.1) in
      rw lives (here first id x (filter (is_live now) rows) e kept)
  | inr (e, rest) ↦ elim (Bool-cases (is_live now x)) [
    | inl lives ↦
        rw lives (
          there first id x (filter (is_live now) rows) e
            (filter-IsHeld first now id rows soon rest))
    | inr dead ↦ rw dead (filter-IsHeld first now id rows soon rest)
  ]
]

pub remove_first-IsHeld :
    (first : ℕ) (id other : Text) (rows : List Activity)
    → text_eq id other ≡ false
    → IsHeld first id rows
    → IsHeld first id (remove_first other rows)
unfolding remove_first
remove_first-IsHeld first id other [] differ h = h
remove_first-IsHeld first id other (x ∷ rows) differ h = elim (held-Cases first id x rows h) [
  | inl (e, kept) ↦
      rw (other_row id other x differ e) (here first id x (remove_first other rows) e kept)
  | inr (e, rest) ↦ elim (Bool-cases (has_id other x)) [
    | inl same ↦ rw same rest
    | inr fails ↦ rw fails (
        there first id x (remove_first other rows) e
          (remove_first-IsHeld first id other rows differ rest))
  ]
]

pub mark_first-IsHeld :
    (first now : ℕ) (id other delivery_id : Text) (rows : List Activity)
    → text_eq id other ≡ false
    → IsHeld first id rows
    → IsHeld first id (mark_first other delivery_id now rows)
unfolding mark_first
mark_first-IsHeld first now id other delivery_id [] differ h = h
mark_first-IsHeld first now id other delivery_id (x ∷ rows) differ h =
    elim (held-Cases first id x rows h) [
      | inl (e, kept) ↦
          rw (other_row id other x differ e)
            (here first id x (mark_first other delivery_id now rows) e kept)
      | inr (e, rest) ↦ elim (Bool-cases (has_id other x)) [
        | inl same ↦ rw same (there first id (marked delivery_id now x) rows e rest)
        | inr fails ↦ rw fails (
            there first id x (mark_first other delivery_id now rows) e
              (mark_first-IsHeld first now id other delivery_id rows differ rest))
      ]
    ]

-- A registration of the activity itself lives as long.
abbrev pub Lasts : ℕ → Text → Enrollment → Type 0
Lasts first id e = (text_eq id e.activity_id ≡ false) ⊎ (first + 10_000 ≤ e.expires_at)

replace-IsHeld :
    (first : ℕ) (id : Text) (e : Enrollment) (rows : List Activity)
    → Lasts first id e
    → IsHeld first id rows
    → IsHeld first id (replace e rows)
unfolding replace
replace-IsHeld first id e [] lasts h = h
replace-IsHeld first id e (x ∷ rows) lasts h = elim (held-Cases first id x rows h) [
  | inl (same, kept) ↦ elim (Bool-cases (has_id e.activity_id x)) [
    | inr other ↦ rw other (here first id x (replace e rows) same kept)
    | inl taken ↦ elim lasts [
      | inl differ ↦ absurd (ground (arith, other_row id e.activity_id x differ same))
      | inr life ↦
          let renamed : text_eq e.activity_id id ≡ true =
            subst (λ i. text_eq i id ≡ true)
              (text_eq→eq x.enrollment.activity_id e.activity_id taken) same in
          rw taken (here first id (renewed e x) rows renamed (kept.0, life))
    ]
  ]
  | inr (apart, rest) ↦ elim (Bool-cases (has_id e.activity_id x)) [
    | inl taken ↦
        let named : text_eq e.activity_id id ≡ false =
          subst (λ i. text_eq i id ≡ false)
            (text_eq→eq x.enrollment.activity_id e.activity_id taken) apart in
        rw taken (there first id (renewed e x) rows named rest)
    | inr other ↦
        rw other
          (there first id x (replace e rows) apart (replace-IsHeld first id e rows lasts rest))
  ]
]

find-append :
    (id : Text) (rows : List Activity) (e : Enrollment) (row : Activity)
    → find (has_id id) rows ≡ some row
    → find (has_id id) (rows ++ fresh e ∷ []) ≡ some row
unfolding find
find-append id [] e row h = absurd (ground arith)
find-append id (x ∷ rows) e row h = ground (arith, find-append id rows e row)

pub register_live-IsHeld :
    (first : ℕ) (id : Text) (e : Enrollment) (rows : List Activity)
    → Lasts first id e
    → IsHeld first id rows
    → IsHeld first id (register_live e rows).0
register_live-IsHeld first id e rows lasts h =
    elim (Bool-cases (is_some (find (has_id e.activity_id) rows))) [
      | inl has ↦ rw has (replace-IsHeld first id e rows lasts h)
      | inr lacks ↦ elim (Bool-cases (leb activity_limit (length rows))) [
        | inl full ↦ rw (lacks, full) h
        | inr room_left ↦ rw (lacks, room_left) (h.0, find-append id rows e h.0 h.1, h.2)
      ]
    ]
