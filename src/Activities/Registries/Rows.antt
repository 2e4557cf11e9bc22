-- ===== src/Activities/Registries/Rows.antt =====
-- src/taskActivities/registry/sqlite.js: what the statements do to the rows of one room.
use granttap_relay.Prelude.{
  ℕ, ◌≡◌, refl, true, not, ◌&&◌, List, [], ◌∷◌, ◌++◌, arith, if◌then◌else◌, is_some, length, filter,
  all, find, Text, text_eq,
}
use granttap_relay.Activities.Registries.{
  Enrollment, Activity, has_id, is_live, fresh, marked, replace, Table, in_room, is_row, purge,
  upsert, update_delivered, selected,
}

-- The rows of a room in the table
unfoldable pub rows_in : Text → Table → List Activity
rows_in room [] = []
rows_in room (row ∷ table) =
    if in_room room row then row.1 ∷ rows_in room table else rows_in room table

module _ (room : Text) where
  pub rows_in-purge :
      (now : ℕ) (table : Table)
      → rows_in room (purge now table) ≡ filter (is_live now) (rows_in room table)
  unfolding rows_in filter
  rows_in-purge now [] = refl
  rows_in-purge now (row ∷ table) = ground (arith, rows_in-purge now table)

  pub rows_in-find :
      (id : Text) (table : Table)
      → selected (find (is_row room id) table) ≡ find (has_id id) (rows_in room table)
  unfolding rows_in find
  rows_in-find id [] = refl
  rows_in-find id (row ∷ table) = ground (arith, rows_in-find id table)

  pub rows_in-length :
      (table : Table) → length (filter (in_room room) table) ≡ length (rows_in room table)
  unfolding rows_in filter
  rows_in-length [] = refl
  rows_in-length (row ∷ table) = ground (arith, rows_in-length table)

  pub rows_in-upsert :
      (e : Enrollment) (table : Table)
      → text_eq room room ≡ true
      → rows_in room (upsert room e table) ≡ (
          if is_some (find (has_id e.activity_id) (rows_in room table))
          then replace e (rows_in room table)
          else rows_in room table ++ fresh e ∷ [])
  unfolding rows_in upsert find replace
  rows_in-upsert e [] same = ground arith
  rows_in-upsert e (row ∷ table) same = ground (arith, rows_in-upsert e table)

  pub rows_in-remove :
      (id : Text) (table : Table)
      → rows_in room (filter (λ row. not (is_row room id row)) table)
        ≡ filter (λ row. not (has_id id row)) (rows_in room table)
  unfolding rows_in filter
  rows_in-remove id [] = refl
  rows_in-remove id (row ∷ table) = ground (arith, rows_in-remove id table)

unfoldable pub mark_all : Text → Text → ℕ → List Activity → List Activity
mark_all id delivery_id now [] = []
mark_all id delivery_id now (row ∷ rows) =
    if has_id id row && is_live now row
    then marked delivery_id now row ∷ mark_all id delivery_id now rows
    else row ∷ mark_all id delivery_id now rows

pub rows_in-mark :
    (room id delivery_id : Text) (now : ℕ) (table : Table)
    → rows_in room (update_delivered room id delivery_id now table)
      ≡ mark_all id delivery_id now (rows_in room table)
unfolding rows_in update_delivered mark_all
rows_in-mark room id delivery_id now [] = refl
rows_in-mark room id delivery_id now (row ∷ table) =
    ground (arith, rows_in-mark room id delivery_id now table)

-- Each id stands in one row.
abbrev pub Distinct : List Activity → Type 0
Distinct [] = Unit {0}
Distinct (row ∷ rows) =
    (all (λ other. not (has_id row.enrollment.activity_id other)) rows ≡ true) × Distinct rows
