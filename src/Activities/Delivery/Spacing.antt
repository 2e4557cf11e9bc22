-- ===== src/Activities/Delivery/Spacing.antt =====
-- src/taskActivities/delivery/endpoint.js over src/taskActivities/registry/worker.js: updates of one
-- activity keep their distance, whatever the registry of a Worker's room is asked in between.
use granttap_relay.Prelude.{
  ℕ, ◌+◌, ◌<◌, ◌≡◌, refl, subst, sym, Bool, true, false, not, ◌||◌, List, [], ◌∷◌, Option, none,
  some, arith, filter, all-filter, all-filter_self, filter-all, all, find, leb, Text, text_eq,
  text_eq→eq, Bool-cases, inl, inr,
}
use granttap_relay.Activities.Registries.{
  Activity, has_id, is_live, marked, mark_first, found, worker_call,
}
use granttap_relay.Activities.Delivery.{
  Update, ok, is_same_delivery, is_too_early, settle, deliver_to, deliver,
}
use granttap_relay.Activities.Delivery.Held.{IsHeld, here, there, filter-IsHeld}
use granttap_relay.Activities.Delivery.Events.{
  Event, called, updating, lives_on, spares, on_worker, step, pushes, run_pushes, call-IsHeld,
  deliver_to-IsHeld, deliver_to-quiet,
}

module _ (round_trips : Text → Bool) where
  dated :
      (first : ℕ) (id other : Text) (rows : List Activity)
      → text_eq id other ≡ true
      → IsHeld first id rows
      → (r : Activity) → find (has_id other) rows ≡ some r
      → r.last_delivered_at ≡ first
  dated first id other rows same (row, at, kept) r found_it =
      let here : find (has_id id) rows ≡ some r =
        subst (λ i. find (has_id i) rows ≡ some r) (sym (text_eq→eq id other same)) found_it in
      let this : row ≡ r = ground arith in subst (λ x. x.last_delivered_at ≡ first) this kept.0

  step-IsHeld :
      (first : ℕ) (id : Text) (event : ℕ × Event) (saved : List Activity)
      → 0 < first
      → spares first id event ≡ true
      → IsHeld first id saved
      → IsHeld first id (step round_trips event saved)
  unfolding step deliver worker_call
  step-IsHeld first id (now, called call) saved pos h held =
      call-IsHeld round_trips first now id call saved (ground arith) (ground arith) held
  step-IsHeld first id (now, updating configured sent update) saved pos h held =
      let soon : now < first + 10_000 = ground arith in
      let live = filter-IsHeld first now id saved soon held in
      let rows : List Activity = filter (is_live now) saved in
      deliver_to-IsHeld round_trips first now id configured sent update rows
        (find (has_id update.activity_id) rows) soon pos
        (elim (Bool-cases (text_eq id update.activity_id)) [
          | inr differ ↦ inl differ
          | inl same ↦ inr (ground arith, dated first id update.activity_id rows same live)
        ])
        live

  pushes_none :
      (first : ℕ) (id : Text) (event : ℕ × Event) (saved : List Activity)
      → 0 < first
      → spares first id event ≡ true
      → IsHeld first id saved
      → pushes round_trips id event saved ≡ false
  unfolding pushes deliver worker_call
  pushes_none first id (now, called call) saved pos h held = refl
  pushes_none first id (now, updating configured sent update) saved pos h held =
      elim (Bool-cases (text_eq id update.activity_id)) [
        | inr differ ↦ rw differ refl
        | inl same ↦
            let soon : now < first + 10_000 = ground arith in
            let rows : List Activity = filter (is_live now) saved in
            rw same (
              deliver_to-quiet round_trips first now configured sent update rows
                (find (has_id update.activity_id) rows) soon pos (ground arith)
                (dated first id update.activity_id rows same
                  (filter-IsHeld first now id saved soon held)))
      ]

  run_pushes_none :
      (first : ℕ) (id : Text) (events : List (ℕ × Event)) (saved : List Activity)
      → 0 < first
      → all (spares first id) events ≡ true
      → IsHeld first id saved
      → run_pushes round_trips id events saved ≡ false
  unfolding run_pushes all
  run_pushes_none first id [] saved pos h held = refl
  run_pushes_none first id (event ∷ events) saved pos h held =
      rw (pushes_none first id event saved pos (ground arith) held) (
        run_pushes_none first id events (step round_trips event saved) pos (ground arith)
          (step-IsHeld first id event saved pos (ground arith) held))

  -- The first delivery
  marked-IsHeld :
      (now : ℕ) (id delivery_id : Text) (rows : List Activity) (row : Activity)
      → lives_on now id rows ≡ true
      → find (has_id id) rows ≡ some row
      → IsHeld now id (mark_first id delivery_id now rows)
  unfolding mark_first find all
  marked-IsHeld now id delivery_id [] row lives at = absurd (ground arith)
  marked-IsHeld now id delivery_id (x ∷ rows) row lives at = elim (Bool-cases (has_id id x)) [
    | inl e ↦ rw e (here now id (marked delivery_id now x) rows e (refl, ground arith))
    | inr e ↦ rw e (
        there now id x (mark_first id delivery_id now rows) e
          (marked-IsHeld now id delivery_id rows row (ground arith) (ground arith)))
  ]

  delivered-IsHeld :
      (now : ℕ) (configured : Bool) (update : Update) (rows : List Activity) (row : Option Activity)
      → lives_on now update.activity_id rows ≡ true
      → filter (is_live now) rows ≡ rows
      → find (has_id update.activity_id) rows ≡ row
      → update.ends ≡ false
      → (deliver_to (worker_call round_trips) now configured ok update rows (found row)).2 ≡ true
      → IsHeld now update.activity_id
          (deliver_to (worker_call round_trips) now configured ok update rows (found row)).0
  unfolding deliver_to settle worker_call
  delivered-IsHeld now configured update rows none lives live at goes_on pushed =
      absurd (ground arith)
  delivered-IsHeld now configured update rows (some r) lives live at goes_on pushed =
      elim (Bool-cases (is_same_delivery r.last_delivery_id update.delivery_id)) [
        | inl repeated ↦ absurd (ground arith)
        | inr new ↦ elim (Bool-cases configured) [
          | inr silent ↦ absurd (ground arith)
          | inl speaks ↦ elim (Bool-cases (is_too_early update r now)) [
            | inl early ↦ absurd (ground arith)
            | inr late ↦
                rw (new, speaks, late, goes_on, live)
                  (marked-IsHeld now update.activity_id update.delivery_id rows r lives at)
          ]
        ]
      ]

  -- An update that goes on to the push service and is accepted, at a time that is not 0, is followed by no
  -- other update of its activity that goes there within ten seconds, whatever is registered, renewed,
  -- read, removed, delivered and updated in the room in between, and in whatever order. The registration
  -- of the activity lives for these ten seconds and is only renewed for as long; it is not removed or
  -- marked as delivered by other means, and no update ends the activity.
  pub deliver_spaced :
      (first : ℕ) (configured : Bool) (update : Update) (events : List (ℕ × Event))
      (saved : List Activity)
      → 0 < first
      → lives_on first update.activity_id saved ≡ true
      → update.ends ≡ false
      → (on_worker round_trips first configured ok update saved).2 ≡ true
      → all (spares first update.activity_id) events ≡ true
      → run_pushes round_trips update.activity_id events
          (on_worker round_trips first configured ok update saved).0
        ≡ false
  unfolding deliver worker_call
  deliver_spaced first configured update events saved pos lives goes_on pushed h =
      let rows : List Activity = filter (is_live first) saved in
      run_pushes_none first update.activity_id events
        (on_worker round_trips first configured ok update saved).0 pos h
        (delivered-IsHeld first configured update rows (find (has_id update.activity_id) rows)
          (all-filter
            (λ row.
              not (has_id update.activity_id row) || leb (first + 10_000) row.enrollment.expires_at)
            (is_live first) saved lives)
          (filter-all (is_live first) rows (all-filter_self (is_live first) saved)) refl goes_on
          pushed)
