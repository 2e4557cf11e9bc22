-- ===== src/Jobs/Worker/Agreement.antt =====
-- src/taskDispatch/worker.js and src/taskDispatch/node.js: the two queues answer a claim, a finish
-- and a cancellation alike and keep the same jobs.
use granttap_relay.Prelude.{
  ℕ, ◌≡◌, refl, ap, sym, subst, ◌∙◌, Bool, true, false, List, [], ◌∷◌, none, some, arith, all, find,
  Text, text_eq, text_eq→eq, Bool-cases, Option-cases, inl, inr,
}
use granttap_relay.Relay.Json.{Json, array, text_value}
use granttap_relay.Jobs.Policy.{
  Job, Proof, claim_job, claim_current, expire_job, retire_job, cancel_job, cancel_current,
  finish_job, finish_held, finish_as, finished, Transition, moved, refused,
}
use granttap_relay.Jobs.Store.{Action, claim, finish, cancel, Answer, act, get_job, save}
use granttap_relay.Jobs.Store
use granttap_relay.Jobs.Worker.Alarms.{write_task_job-job}
use granttap_relay.Jobs.Ciphertext.{StoredRow, write_task_job}
use granttap_relay.Jobs.Worker.{
  Room, jobs_of, get_row, text_lt, put_row, with_job, plain_text, save_moved, transition,
}

text_lt_asym : (a b : Text) → text_lt a b ≡ true → text_lt b a ≡ false
unfolding text_lt
text_lt_asym [] [] h = ground arith
text_lt_asym [] (b ∷ t) h = refl
text_lt_asym (a ∷ s) [] h = ground arith
text_lt_asym (a ∷ s) (b ∷ t) h = ground (arith, text_lt_asym s t)

abbrev pub IsSorted : List StoredRow → Type 0
IsSorted [] = Unit {0}
IsSorted (row ∷ rows) = (all (λ other. text_lt row.job.id other.job.id) rows ≡ true) × IsSorted rows

-- A row's key decides where it stands.
same_row :
    (rows : List StoredRow) (id : Text) (row : StoredRow)
    → get_row rows id ≡ some row
    → text_eq row.job.id id ≡ true
unfolding find
same_row [] id row h = absurd (ground arith)
same_row (first ∷ rows) id row h = elim (Bool-cases (text_eq first.job.id id)) [
  | inl e ↦ let this : first ≡ row = ground arith in subst (λ r. text_eq r.job.id id ≡ true) this e
  | inr e ↦ same_row rows id row (ground arith)
]

before_found :
    (rows : List StoredRow) (id low : Text) (row : StoredRow)
    → all (λ other. text_lt low other.job.id) rows ≡ true
    → get_row rows id ≡ some row
    → text_lt id low ≡ false
unfolding find all
before_found [] id low row h found = absurd (ground arith)
before_found (first ∷ rows) id low row h found = elim (Bool-cases (text_eq first.job.id id)) [
  | inl e ↦
      let same : first.job.id ≡ id = text_eq→eq first.job.id id e in
      text_lt_asym low id (subst (λ t. text_lt low t ≡ true) same (ground arith))
  | inr e ↦ before_found rows id low row (ground arith) (ground arith)
]

get_row-none :
    (rows : List StoredRow) (id : Text) → get_row rows id ≡ none → get_job (jobs_of rows) id ≡ none
unfolding find
get_row-none [] id h = refl
get_row-none (row ∷ rows) id h = ground (arith, get_row-none rows id)

get_row-some :
    (rows : List StoredRow) (id : Text) (row : StoredRow)
    → get_row rows id ≡ some row
    → get_job (jobs_of rows) id ≡ some row.job
unfolding find
get_row-some [] id row h = absurd (ground arith)
get_row-some (first ∷ rows) id row h = elim (Bool-cases (text_eq first.job.id id)) [
  | inl e ↦ let this : first ≡ row = ground arith in rw e (ap (λ r. some r.job) this)
  | inr e ↦ rw e (get_row-some rows id row (ground arith))
]

put_row-save :
    (rows : List StoredRow) (row new : StoredRow)
    → IsSorted rows
    → get_row rows new.job.id ≡ some row
    → jobs_of (put_row new rows) ≡ save new.job (jobs_of rows)
unfolding put_row save find
put_row-save [] row new sorted found = absurd (ground arith)
put_row-save (first ∷ rows) row new sorted found =
    elim (Bool-cases (text_eq first.job.id new.job.id)) [
      | inl e ↦ simp e
      | inr e ↦
          let later : get_row rows new.job.id ≡ some row = ground arith in
          simp (
            e,
            before_found rows new.job.id first.job.id row sorted.0 later,
            put_row-save rows row new sorted.1 later,
          )
    ]

abbrev pub is_list : Json → Bool
is_list (array items) = true
is_list _ = false

text_value-plain : (token : Json) → is_list token ≡ false → text_value token ≡ plain_text token
unfolding text_value
text_value-plain (array items) h = absurd (ground arith)
text_value-plain _ h = refl

module _ (sha256 : Text → Text) (json_bytes : Json → ℕ) where
  act-id :
      (action : Action) (row next : Job) (proof : Proof) (now : ℕ) (hash : Text)
      → act json_bytes action row proof now hash ≡ moved next
      → next.id ≡ row.id
  unfolding act claim_job claim_current expire_job retire_job cancel_job cancel_current finish_job
      finish_held finish_as finished
  act-id claim row next proof now hash h = ground arith
  act-id cancel row next proof now hash h = ground arith
  act-id finish row next proof now hash h = ground arith

  moved-agrees :
      (room : Room) (row : StoredRow) (r : Transition)
      → IsSorted room.rows
      → get_row room.rows row.job.id ≡ some row
      → ((next : Job) → r ≡ moved next → next.id ≡ row.job.id)
      → Store.save_moved (jobs_of room.rows) r
        ≡ (jobs_of (save_moved sha256 room row r).0.rows, (save_moved sha256 room row r).1)
  moved-agrees room row (refused status) sorted found same = refl
  moved-agrees room row (moved next) sorted found same =
      let written : StoredRow = (write_task_job sha256 (with_job row next) room.boxes).0 in
      let kept : written.job ≡ next = write_task_job-job sha256 (with_job row next) room.boxes in
      let at : get_row room.rows written.job.id ≡ some row =
        subst (λ i. get_row room.rows i ≡ some row) (sym (ap (λ j. j.id) kept ∙ same next refl))
          found in
      ap (λ jobs. (jobs, record { status = 200; job = some next }))
        (sym (
          put_row-save room.rows row written sorted at ∙ ap (λ j. save j (jobs_of room.rows)) kept))

  -- On rows in the order of their keys, a claim, a finish or a cancellation in a Worker's room gives
  -- the answer that a Node relay gives over the same jobs, and leaves the same jobs, if the token of the
  -- request is not a list: of a list with one token in it, Node takes the digest and a Worker does not.
  pub transition-agrees :
      (id : Text) (action : Action) (proof : Proof) (now : ℕ) (room : Room)
      → is_list proof.token ≡ false
      → IsSorted room.rows
      → Store.transition sha256 json_bytes id action proof now (jobs_of room.rows) ≡ (
        jobs_of (transition sha256 json_bytes id action proof now room).0.rows,
        (transition sha256 json_bytes id action proof now room).1,
      )
  unfolding transition Store.transition
  transition-agrees id action proof now room plain sorted =
      let hash : Text = sha256 (plain_text proof.token) in
      elim (Option-cases (get_row room.rows id)) [
        | inl e ↦ rw (e, get_row-none room.rows id e, transition, Store.transition) refl
        | inr (row, e) ↦
            let named : row.job.id ≡ id = text_eq→eq row.job.id id (same_row room.rows id row e) in
            rw
              (
                e,
                get_row-some room.rows id row e,
                text_value-plain proof.token plain,
                transition,
                Store.transition,
              )
              (moved-agrees room row (act json_bytes action row.job proof now hash) sorted
                (subst (λ i. get_row room.rows i ≡ some row) (sym named) e)
                (λ next. act-id action row.job next proof now hash))
      ]
