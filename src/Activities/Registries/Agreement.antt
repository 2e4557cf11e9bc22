-- ===== src/Activities/Registries/Agreement.antt =====
-- src/taskActivities/registry/sqlite.js: the two registries answer alike.
use granttap_relay.Prelude.{
  ℕ, ◌≤◌, ◌≡◌, refl, ap, sym, ◌∙◌, subst, Bool, not, List, [], ◌∷◌, Option, none, some, arith, leb,
  is_some, length, filter, filter_idem, filter_comm, all-filter_self, find, Text, text_eq_refl,
  Bool-cases, inl, inr,
}
use granttap_relay.Activities.{activity_limit, valid_activity_registration}
use granttap_relay.Activities.Registries.{
  Enrollment, Activity, enrollment_of, has_id, is_live, Call, registering, getting, removing,
  delivering, Answer, done, found, register_live, Table, is_row, purge, selected, register_table,
  worker_call, sqlite_call,
}
use granttap_relay.Activities.Registries.Rows.{
  rows_in, rows_in-purge, rows_in-find, rows_in-length, rows_in-upsert, rows_in-remove,
  rows_in-mark, mark_all, Distinct,
}
use granttap_relay.Activities.Registries.Keys.{
  Distinct-filter, remove_first-filter, mark_first-mark_all, mark_all-filter, mark_all-Distinct,
  register_live-Distinct,
}

-- What lives at a time is the same in both, and each id stands in one row of the Worker's.
pub record Agree (room : Text) (now : ℕ) (table : Table) (saved : List Activity) : Type 0 where
  pub rows : filter (is_live now) (rows_in room table) ≡ filter (is_live now) saved
  pub distinct : Distinct saved

-- The times of the calls never go back.
abbrev pub InOrder : ℕ → List (ℕ × Call) → Type 0
InOrder now [] = Unit {0}
InOrder now (call ∷ calls) = (now ≤ call.0) × InOrder call.0 calls

filter_later :
    (now later : ℕ) (rows : List Activity)
    → now ≤ later
    → filter (is_live later) (filter (is_live now) rows) ≡ filter (is_live later) rows
unfolding filter
filter_later now later [] h = refl
filter_later now later (row ∷ rows) h = ground (arith, filter_later now later rows)

is_some-selected : (o : Option (Text × Activity)) → is_some (selected o) ≡ is_some o
is_some-selected none = refl
is_some-selected (some row) = refl

module _ (room : Text) where
  Agree-later :
      (now later : ℕ) (table : Table) (saved : List Activity)
      → now ≤ later
      → Agree room now table saved
      → Agree room later table saved
  Agree-later now later table saved h a = record {
    rows =
        sym (filter_later now later (rows_in room table) h)
        ∙ (ap (filter (is_live later)) a.rows ∙ filter_later now later saved h);
    distinct = a.distinct;
  }

  module _ (round_trips : Text → Bool) where
    abbrev Same : ℕ → Table × Answer → List Activity × Answer → Type 0
    Same now t w = (t.1 ≡ w.1) × Agree room now t.0 w.0

    live_idem :
        (now : ℕ) (saved : List Activity)
        → filter (is_live now) (filter (is_live now) saved) ≡ filter (is_live now) saved
    live_idem now saved = filter_idem (is_live now) saved

    purged :
        (now : ℕ) (table : Table) (saved : List Activity)
        → Agree room now table saved
        → rows_in room (purge now table) ≡ filter (is_live now) saved
    purged now table saved a = rows_in-purge room now table ∙ a.rows

    register_table-agrees :
        (e : Enrollment) (table : Table)
        → ((register_table room e table).1 ≡ (register_live e (rows_in room table)).1)
          × (rows_in room (register_table room e table).0
              ≡ (register_live e (rows_in room table)).0)
    register_table-agrees e table =
        let known : is_some (find (is_row room e.activity_id) table)
            ≡ is_some (find (has_id e.activity_id) (rows_in room table)) =
          sym (is_some-selected (find (is_row room e.activity_id) table))
          ∙ ap is_some (rows_in-find room e.activity_id table) in
        let put = rows_in-upsert room e table (text_eq_refl room) in
        elim (Bool-cases (is_some (find (has_id e.activity_id) (rows_in room table)))) [
          | inl has ↦ rw (known, has) (refl, put ∙ rw has refl)
          | inr lacks ↦ elim (Bool-cases (leb activity_limit (length (rows_in room table)))) [
            | inl full ↦ rw (known, lacks, rows_in-length room table, full) (refl, refl)
            | inr space ↦
                rw (known, lacks, rows_in-length room table, space) (refl, put ∙ rw lacks refl)
          ]
        ]

    call-agrees :
        (now : ℕ) (call : Call) (table : Table) (saved : List Activity)
        → Agree room now table saved
        → Same now
            (sqlite_call round_trips room (now, call) table)
            (worker_call round_trips (now, call) saved)
    unfolding sqlite_call worker_call
    call-agrees now (registering body) table saved a =
        elim (Bool-cases (valid_activity_registration round_trips body now)) [
          | inr invalid ↦ simp invalid (refl, a)
          | inl valid ↦
              let live = purged now table saved a in
              let r =
                subst
                  (λ rows.
                    ((register_table room (enrollment_of body) (purge now table)).1
                      ≡ (register_live (enrollment_of body) rows).1)
                    × (rows_in room (register_table room (enrollment_of body) (purge now table)).0
                        ≡ (register_live (enrollment_of body) rows).0))
                  live (register_table-agrees (enrollment_of body) (purge now table)) in
              simp valid (
                ap done r.0,
                record {
                  rows = ap (filter (is_live now)) r.1;
                  distinct =
                      register_live-Distinct (enrollment_of body) (filter (is_live now) saved)
                        (Distinct-filter (is_live now) saved a.distinct);
                },
              )
        ]
    call-agrees now (getting id) table saved a = (
      ap found (
          rows_in-find room id (purge now table)
          ∙ ap (find (has_id id)) (purged now table saved a)),
      record {
        rows = ap (filter (is_live now)) (purged now table saved a);
        distinct = Distinct-filter (is_live now) saved a.distinct;
      },
    )
    call-agrees now (removing id) table saved a =
        let live : List Activity = filter (is_live now) saved in
        let d : Distinct live = Distinct-filter (is_live now) saved a.distinct in
        let gone = λ (row : Activity). not (has_id id row) in
        (
          refl,
          record {
            rows =
                ap (filter (is_live now)) (rows_in-remove room id table)
                ∙ (filter_comm (is_live now) gone (rows_in room table)
                    ∙ (ap (filter gone) (a.rows ∙ sym (live_idem now saved))
                        ∙ (filter_comm gone (is_live now) live
                            ∙ ap (filter (is_live now)) (sym (remove_first-filter id live d)))));
            distinct = rw (remove_first-filter id live d) (Distinct-filter gone live d);
          },
        )
    call-agrees now (delivering id delivery_id) table saved a =
        let live : List Activity = filter (is_live now) saved in
        let d : Distinct live = Distinct-filter (is_live now) saved a.distinct in
        let marks =
          mark_first-mark_all id delivery_id now live d (all-filter_self (is_live now) saved) in
        (
          refl,
          record {
            rows =
                ap (filter (is_live now)) (rows_in-mark room id delivery_id now table)
                ∙ (mark_all-filter id delivery_id now (rows_in room table)
                    ∙ (ap (mark_all id delivery_id now) (a.rows ∙ sym (live_idem now saved))
                        ∙ (sym (mark_all-filter id delivery_id now live)
                            ∙ ap (filter (is_live now)) (sym marks))));
            distinct = rw marks (mark_all-Distinct id delivery_id now live d);
          },
        )

    unfoldable pub worker_run : List (ℕ × Call) → List Activity → List Answer
    unfolding worker_call
    worker_run [] saved = []
    worker_run (call ∷ calls) saved =
        (worker_call round_trips call saved).1
        ∷ worker_run calls (worker_call round_trips call saved).0

    unfoldable pub sqlite_run : List (ℕ × Call) → Table → List Answer
    unfolding sqlite_call
    sqlite_run [] table = []
    sqlite_run (call ∷ calls) table =
        (sqlite_call round_trips room call table).1
        ∷ sqlite_run calls (sqlite_call round_trips room call table).0

    -- The registry of a Worker's room and the table of a Node relay that agree on what lives give the
    -- same answers to any registrations, lookups, removals and deliveries whose times never go back.
    pub worker_run-sqlite_run :
        (calls : List (ℕ × Call)) (now : ℕ) (table : Table) (saved : List Activity)
        → InOrder now calls
        → Agree room now table saved
        → sqlite_run calls table ≡ worker_run calls saved
    unfolding worker_run sqlite_run
    worker_run-sqlite_run [] now table saved order a = refl
    worker_run-sqlite_run ((at, call) ∷ calls) now table saved order a =
        let step = call-agrees at call table saved (Agree-later now at table saved order.0 a) in
        ap (λ answer. answer ∷ sqlite_run calls (sqlite_call round_trips room (at, call) table).0)
          step.0
        ∙ ap (λ answers. (worker_call round_trips (at, call) saved).1 ∷ answers)
            (worker_run-sqlite_run calls at (sqlite_call round_trips room (at, call) table).0
              (worker_call round_trips (at, call) saved).0 order.1 step.1)
