-- ===== src/Jobs/Due.antt =====
-- src/taskDispatch/node.js: `due`, the next job that a recipient is offered, and `rows` and
-- `listActive`. `ORDER BY not_before,updated_at LIMIT 1` is the first row that no other precedes.
use granttap_relay.Prelude.{
  ℕ, ◌≤◌, ◌<◌, ◌≡◌, subst, Bool, true, false, not, ◌&&◌, inl, inr, List, [], ◌∷◌, Option, none,
  some, arith, ltb, leb, ◌==◌, if◌then◌else◌, filter, any, all, all-filter_self, Text, text_eq,
  text_eq→eq, Bool-cases, Option-cases,
}
use granttap_relay.Jobs.Policy.{Job, is_queued}
use granttap_relay.Jobs.Store.{expire_queued, is_active}

abbrev pub is_due : Text → ℕ → List Text → Job → Bool
is_due recipient now excluded job =
    is_queued job.state
    && text_eq job.envelope.recipient_key_id recipient
    && leb job.not_before now
    && ltb now job.expires_at
    && not (any (text_eq job.id) excluded)

abbrev pub precedes : Job → Job → Bool
precedes a b =
    if a.not_before == b.not_before
    then leb a.updated_at b.updated_at
    else ltb a.not_before b.not_before

unfoldable pub first_of : List Job → Option Job
first_of [] = none
first_of (job ∷ jobs) = elim (first_of jobs) [
  | none ↦ some job
  | some other ↦ if precedes job other then some job else some other
]

-- The jobs as they are stored afterwards, and the offer.
unfoldable pub due : Text → ℕ → List Text → List Job → List Job × Option Job
unfolding expire_queued filter any text_eq first_of
due recipient now excluded jobs = (
  expire_queued now jobs,
  first_of (filter (is_due recipient now excluded) (expire_queued now jobs)),
)

unfoldable pub list_active : ℕ → List Job → List Job × List Job
unfolding expire_queued filter
list_active now jobs = (expire_queued now jobs, filter is_active (expire_queued now jobs))

abbrev pub FirstCase : (Job → Bool) → Option Job → Type 0
FirstCase p none = Unit {0}
FirstCase p (some job) = p job ≡ true

FirstCase-all : (p : Job → Bool) (jobs : List Job) → all p jobs ≡ true → FirstCase p (first_of jobs)
unfolding first_of all
FirstCase-all p [] h = tt
FirstCase-all p (job ∷ jobs) h = elim (Option-cases (first_of jobs)) [
  | inl e ↦ rw (e, first_of) (ground arith)
  | inr (other, e) ↦
      let rest : p other ≡ true = subst (FirstCase p) e (FirstCase-all p jobs (ground arith)) in
      elim (Bool-cases (precedes job other)) [
        | inl f ↦ rw (e, f, first_of) (ground arith)
        | inr f ↦ rw (e, f, first_of) rest
      ]
]

-- A job that is offered to a recipient is queued for it, ready, not expired and not excluded.
pub due-some :
    (recipient : Text) (now : ℕ) (excluded : List Text) (jobs : List Job) (job : Job)
    → (due recipient now excluded jobs).1 ≡ some job
    → (is_queued job.state ≡ true)
      × (job.envelope.recipient_key_id ≡ recipient)
      × (job.not_before ≤ now)
      × (now < job.expires_at)
      × (any (text_eq job.id) excluded ≡ false)
unfolding due
due-some recipient now excluded jobs job h =
    let ready : is_due recipient now excluded job ≡ true =
      subst (FirstCase (is_due recipient now excluded)) h (
        FirstCase-all (is_due recipient now excluded)
          (filter (is_due recipient now excluded) (expire_queued now jobs))
          (all-filter_self (is_due recipient now excluded) (expire_queued now jobs))) in
    ground (arith, text_eq→eq job.envelope.recipient_key_id recipient)
