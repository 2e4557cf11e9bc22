-- ===== src/Activities/Delivery/Events.antt =====
-- src/taskActivities/delivery/endpoint.js over src/taskActivities/registry/worker.js: what happens to the
-- registry of a Worker's room within ten seconds, and what of an activity stays.
use granttap_relay.Prelude.{
  ℕ, ◌+◌, ◌<◌, ◌≡◌, ◌⊎◌, refl, Bool, true, false, not, ◌&&◌, ◌||◌, List, [], ◌∷◌, Option, none,
  some, arith, filter, all, leb, ltb, Text, text_eq, Bool-cases, inl, inr,
}
use granttap_relay.Activities.{valid_activity_registration}
use granttap_relay.Activities.Registries.{
  Enrollment, Activity, enrollment_of, has_id, is_live, Call, registering, getting, removing,
  delivering, found, worker_call,
}
use granttap_relay.Activities.Delivery.{
  Update, Reply, Sent, ok, gone, failed, threw, is_same_delivery, is_too_early, has_token, settle,
  deliver_to, deliver,
}
use granttap_relay.Activities.Delivery.Held.{
  IsHeld, Lasts, filter-IsHeld, remove_first-IsHeld, mark_first-IsHeld, register_live-IsHeld,
}

-- What happens to a registry: a call of its own, or an update that a machine sends.
pub data Event : Type 0 where
  called : Call → Event
  updating : Bool → Sent → Update → Event

-- The registration of the activity lives for ten seconds more.
abbrev pub lives_on : ℕ → Text → List Activity → Bool
lives_on first id rows =
    all (λ row. not (has_id id row) || leb (first + 10_000) row.enrollment.expires_at) rows

-- A call that neither removes the activity nor marks it, and if it registers it again, then for as long.
abbrev pub spares_call : ℕ → Text → Call → Bool
spares_call first id (registering body) =
    not (text_eq id (enrollment_of body).activity_id)
    || leb (first + 10_000) (enrollment_of body).expires_at
spares_call first id (getting other) = true
spares_call first id (removing other) = not (text_eq id other)
spares_call first id (delivering other delivery_id) = not (text_eq id other)

-- An event within the ten seconds that does not end the activity
abbrev pub spares : ℕ → Text → ℕ × Event → Bool
spares first id (now, called call) = ltb now (first + 10_000) && spares_call first id call
spares first id (now, updating configured sent update) =
    ltb now (first + 10_000) && (not (text_eq id update.activity_id) || not update.ends)

spares_call-Lasts :
    (first : ℕ) (id : Text) (e : Enrollment)
    → (not (text_eq id e.activity_id) || leb (first + 10_000) e.expires_at) ≡ true
    → Lasts first id e
spares_call-Lasts first id e h = elim (Bool-cases (text_eq id e.activity_id)) [
  | inr differ ↦ inl differ
  | inl same ↦ inr (ground arith)
]

module _ (round_trips : Text → Bool) where
  abbrev pub on_worker : ℕ → Bool → Sent → Update → List Activity → List Activity × Reply × Bool
  on_worker now configured sent update saved =
      deliver (worker_call round_trips) now configured sent update saved

  unfoldable pub step : ℕ × Event → List Activity → List Activity
  unfolding worker_call deliver
  step (now, called call) saved = (worker_call round_trips (now, call) saved).0
  step (now, updating configured sent update) saved = (on_worker now configured sent update saved).0

  -- Whether the event sends an update of the activity to the push service.
  unfoldable pub pushes : Text → ℕ × Event → List Activity → Bool
  unfolding deliver worker_call text_eq
  pushes id (now, called call) saved = false
  pushes id (now, updating configured sent update) saved =
      text_eq id update.activity_id && (on_worker now configured sent update saved).2

  unfoldable pub run_pushes : Text → List (ℕ × Event) → List Activity → Bool
  unfolding step pushes
  run_pushes id [] saved = false
  run_pushes id (event ∷ events) saved =
      pushes id event saved || run_pushes id events (step event saved)

  pub call-IsHeld :
      (first now : ℕ) (id : Text) (call : Call) (saved : List Activity)
      → now < first + 10_000
      → spares_call first id call ≡ true
      → IsHeld first id saved
      → IsHeld first id (worker_call round_trips (now, call) saved).0
  unfolding worker_call
  call-IsHeld first now id (getting other) saved soon h held =
      filter-IsHeld first now id saved soon held
  call-IsHeld first now id (removing other) saved soon h held =
      remove_first-IsHeld first id other (filter (is_live now) saved) (ground arith)
        (filter-IsHeld first now id saved soon held)
  call-IsHeld first now id (delivering other delivery_id) saved soon h held =
      mark_first-IsHeld first now id other delivery_id (filter (is_live now) saved) (ground arith)
        (filter-IsHeld first now id saved soon held)
  call-IsHeld first now id (registering body) saved soon h held =
      elim (Bool-cases (valid_activity_registration round_trips body now)) [
        | inr invalid ↦ rw invalid held
        | inl valid ↦ rw valid (
            register_live-IsHeld first id (enrollment_of body) (filter (is_live now) saved)
              (spares_call-Lasts first id (enrollment_of body) h)
              (filter-IsHeld first now id saved soon held))
      ]

  -- An update of another activity
  pub settle-IsHeld :
      (first now : ℕ) (id : Text) (update : Update) (route : Activity) (sent : Sent)
      (rows : List Activity)
      → now < first + 10_000
      → text_eq id update.activity_id ≡ false
      → IsHeld first id rows
      → IsHeld first id (settle (worker_call round_trips) now update route sent rows).0
  unfolding settle
  settle-IsHeld first now id update route threw rows soon differ held = held
  settle-IsHeld first now id update route failed rows soon differ held = held
  settle-IsHeld first now id update route gone rows soon differ held =
      let looked = (worker_call round_trips (now, getting update.activity_id) rows).0 in
      let kept : IsHeld first id looked =
        call-IsHeld first now id (getting update.activity_id) rows soon refl held in
      elim (Bool-cases (
        has_token (worker_call round_trips) route.enrollment.token
          (worker_call round_trips (now, getting update.activity_id) rows).1)) [
            | inr other ↦ rw other kept
            | inl current ↦ rw current (
                call-IsHeld first now id (removing update.activity_id) looked soon (ground arith)
                  kept)
          ]
  settle-IsHeld first now id update route ok rows soon differ held =
      let rest =
        (worker_call round_trips (now, delivering update.activity_id update.delivery_id) rows).0 in
      let kept : IsHeld first id rest =
        call-IsHeld first now id (delivering update.activity_id update.delivery_id) rows soon
          (ground arith) held in
      elim (Bool-cases update.ends) [
        | inr goes_on ↦ rw goes_on kept
        | inl ends ↦
            rw ends
              (call-IsHeld first now id (removing update.activity_id) rest soon (ground arith) kept)
      ]

  -- Either the update is of another activity, or it is one more of this activity, which was delivered
  -- at `first`.
  abbrev pub Spaced : ℕ → Text → Update → Option Activity → Type 0
  Spaced first id update row =
      (text_eq id update.activity_id ≡ false)
      ⊎ ((update.ends ≡ false) × ((r : Activity) → row ≡ some r → r.last_delivered_at ≡ first))

  pub deliver_to-IsHeld :
      (first now : ℕ) (id : Text) (configured : Bool) (sent : Sent) (update : Update)
      (rows : List Activity) (row : Option Activity)
      → now < first + 10_000
      → 0 < first
      → Spaced first id update row
      → IsHeld first id rows
      → IsHeld first id
          (deliver_to (worker_call round_trips) now configured sent update rows (found row)).0
  unfolding deliver_to
  deliver_to-IsHeld first now id configured sent update rows none soon pos which held = held
  deliver_to-IsHeld first now id configured sent update rows (some r) soon pos which held =
      elim (Bool-cases (is_same_delivery r.last_delivery_id update.delivery_id)) [
        | inl repeated ↦ rw repeated held
        | inr new ↦ elim (Bool-cases configured) [
          | inr silent ↦ rw (new, silent) held
          | inl speaks ↦ elim (Bool-cases (is_too_early update r now)) [
            | inl early ↦ rw (new, speaks, early) held
            | inr late ↦ elim which [
              | inl differ ↦
                  rw (new, speaks, late)
                    (settle-IsHeld first now id update r sent rows soon differ held)
              | inr (goes_on, at) ↦ absurd (ground (arith, at r refl))
            ]
          ]
        ]
      ]

  pub deliver_to-quiet :
      (first now : ℕ) (configured : Bool) (sent : Sent) (update : Update) (rows : List Activity)
      (row : Option Activity)
      → now < first + 10_000
      → 0 < first
      → update.ends ≡ false
      → ((r : Activity) → row ≡ some r → r.last_delivered_at ≡ first)
      → (deliver_to (worker_call round_trips) now configured sent update rows (found row)).2 ≡ false
  unfolding deliver_to
  deliver_to-quiet first now configured sent update rows none soon pos goes_on at = refl
  deliver_to-quiet first now configured sent update rows (some r) soon pos goes_on at =
      ground (arith, at r refl)
