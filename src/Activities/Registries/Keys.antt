-- ===== src/Activities/Registries/Keys.antt =====
-- src/taskActivities/registry/sqlite.js: the rows that a registration, a removal and a delivery leave are as distinct as before.
use granttap_relay.Prelude.{
  ℕ, ◌≡◌, refl, subst, Bool, true, false, not, ◌&&◌, List, [], ◌∷◌, ◌++◌, arith, leb, is_some,
  length, filter, filter-all, all, all-filter, all-append, find, Text, text_eq→eq, text_eq_comm,
  Bool-cases, inl, inr,
}
use granttap_relay.Activities.{activity_limit}
use granttap_relay.Activities.Registries.{
  Enrollment, Activity, has_id, is_live, fresh, replace, remove_first, mark_first, register_live,
}
use granttap_relay.Activities.Registries.Rows.{mark_all, Distinct}

pub Distinct-filter :
    (p : Activity → Bool) (rows : List Activity) → Distinct rows → Distinct (filter p rows)
unfolding filter
Distinct-filter p [] d = d
Distinct-filter p (x ∷ xs) d = elim (Bool-cases (p x)) [
  | inl e ↦ rw e (
    all-filter (λ other. not (has_id x.enrollment.activity_id other)) p xs d.0,
    Distinct-filter p xs d.1,
  )
  | inr e ↦ rw e (Distinct-filter p xs d.1)
]

-- Nothing in `rows` has the id.
abbrev Lacks : Text → List Activity → Type 0
Lacks id rows = all (λ other. not (has_id id other)) rows ≡ true

Lacks-remove :
    (id : Text) (rows : List Activity)
    → Lacks id rows
    → filter (λ row. not (has_id id row)) rows ≡ rows
Lacks-remove id rows h = filter-all (λ row. not (has_id id row)) rows h

Lacks-mark :
    (id delivery_id : Text) (now : ℕ) (rows : List Activity)
    → Lacks id rows
    → mark_all id delivery_id now rows ≡ rows
unfolding mark_all all
Lacks-mark id delivery_id now [] h = refl
Lacks-mark id delivery_id now (row ∷ rows) h = ground (arith, Lacks-mark id delivery_id now rows)

pub remove_first-filter :
    (id : Text) (rows : List Activity)
    → Distinct rows
    → remove_first id rows ≡ filter (λ row. not (has_id id row)) rows
unfolding remove_first filter
remove_first-filter id [] d = refl
remove_first-filter id (row ∷ rows) d = elim (Bool-cases (has_id id row)) [
  | inl e ↦
      let same : row.enrollment.activity_id ≡ id = text_eq→eq row.enrollment.activity_id id e in
      simp (e, Lacks-remove id rows (subst (λ i. Lacks i rows) same d.0))
  | inr e ↦ simp (e, remove_first-filter id rows d.1)
]

pub mark_first-mark_all :
    (id delivery_id : Text) (now : ℕ) (rows : List Activity)
    → Distinct rows
    → all (is_live now) rows ≡ true
    → mark_first id delivery_id now rows ≡ mark_all id delivery_id now rows
unfolding mark_first mark_all all
mark_first-mark_all id delivery_id now [] d live = refl
mark_first-mark_all id delivery_id now (row ∷ rows) d live = elim (Bool-cases (has_id id row)) [
  | inl e ↦
      let same : row.enrollment.activity_id ≡ id = text_eq→eq row.enrollment.activity_id id e in
      let lives : is_live now row ≡ true = ground arith in
      simp (e, lives, Lacks-mark id delivery_id now rows (subst (λ i. Lacks i rows) same d.0))
  | inr e ↦ simp (e, mark_first-mark_all id delivery_id now rows d.1 (ground arith))
]

pub mark_all-filter :
    (id delivery_id : Text) (now : ℕ) (rows : List Activity)
    → filter (is_live now) (mark_all id delivery_id now rows)
      ≡ mark_all id delivery_id now (filter (is_live now) rows)
unfolding mark_all filter
mark_all-filter id delivery_id now [] = refl
mark_all-filter id delivery_id now (row ∷ rows) =
    ground (arith, mark_all-filter id delivery_id now rows)

-- The ids stay.
mark_all-Lacks :
    (id delivery_id key : Text) (now : ℕ) (rows : List Activity)
    → Lacks key rows
    → Lacks key (mark_all id delivery_id now rows)
unfolding mark_all all
mark_all-Lacks id delivery_id key now [] h = h
mark_all-Lacks id delivery_id key now (row ∷ rows) h =
    ground (arith, mark_all-Lacks id delivery_id key now rows)

pub mark_all-Distinct :
    (id delivery_id : Text) (now : ℕ) (rows : List Activity)
    → Distinct rows
    → Distinct (mark_all id delivery_id now rows)
unfolding mark_all
mark_all-Distinct id delivery_id now [] d = d
mark_all-Distinct id delivery_id now (row ∷ rows) d =
    elim (Bool-cases (has_id id row && is_live now row)) [
      | inl e ↦ rw e (
        mark_all-Lacks id delivery_id row.enrollment.activity_id now rows d.0,
        mark_all-Distinct id delivery_id now rows d.1,
      )
      | inr e ↦ rw e (
        mark_all-Lacks id delivery_id row.enrollment.activity_id now rows d.0,
        mark_all-Distinct id delivery_id now rows d.1,
      )
    ]

replace-Lacks :
    (e : Enrollment) (key : Text) (rows : List Activity)
    → Lacks key rows
    → Lacks key (replace e rows)
unfolding replace all
replace-Lacks e key [] h = h
replace-Lacks e key (row ∷ rows) h =
    ground (arith, replace-Lacks e key rows, text_eq→eq row.enrollment.activity_id e.activity_id)

replace-Distinct :
    (e : Enrollment) (rows : List Activity) → Distinct rows → Distinct (replace e rows)
unfolding replace
replace-Distinct e [] d = d
replace-Distinct e (row ∷ rows) d = elim (Bool-cases (has_id e.activity_id row)) [
  | inl same ↦ rw same (
    subst (λ i. Lacks i rows) (text_eq→eq row.enrollment.activity_id e.activity_id same) d.0,
    d.1,
  )
  | inr other ↦
      rw other (replace-Lacks e row.enrollment.activity_id rows d.0, replace-Distinct e rows d.1)
]

append-Distinct :
    (e : Enrollment) (rows : List Activity)
    → is_some (find (has_id e.activity_id) rows) ≡ false
    → Distinct rows
    → Distinct (rows ++ fresh e ∷ [])
unfolding find all
append-Distinct e [] none_yet d = (refl, tt)
append-Distinct e (row ∷ rows) none_yet d = (
  ground (
    arith,
    all-append (λ other. not (has_id row.enrollment.activity_id other)) rows (fresh e ∷ []),
    text_eq_comm row.enrollment.activity_id e.activity_id,
  ),
  append-Distinct e rows (ground arith) d.1,
)

pub register_live-Distinct :
    (e : Enrollment) (rows : List Activity) → Distinct rows → Distinct (register_live e rows).0
register_live-Distinct e rows d = elim (Bool-cases (is_some (find (has_id e.activity_id) rows))) [
  | inl has ↦ rw has (replace-Distinct e rows d)
  | inr lacks ↦ elim (Bool-cases (leb activity_limit (length rows))) [
    | inl full ↦ rw (lacks, full) d
    | inr room_left ↦ rw (lacks, room_left) (append-Distinct e rows lacks d)
  ]
]
