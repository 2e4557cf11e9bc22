-- ===== src/Wakes/Spacing.antt =====
-- src/relay/wakeDelivery.js: pushes of one room are a minute apart, over restarts too.
use granttap_relay.Prelude.{
  ℕ, ◌+◌, ◌≤◌, ◌≡◌, refl, Bool, false, List, [], ◌∷◌, Option, none, some, arith, leb, if◌then◌else◌,
  Option-cases, Bool-cases, inl, inr, Text, text_eq, any, ◌||◌, get_or, subst,
}
use granttap_relay.Wakes.{
  WakeState, PendingWake, add_time, max_attempts, is_later, live_keys, default_ttl_ms,
  wake_interval_ms, claimed, due, settle, SendResult, accepted, failed, stopped, send_due,
  finish_due, request, noted, Event, requesting, draining, step, run, claim_of, Sent,
}

-- While a push is pending, it is planned no sooner than a minute after the last.
abbrev pub Planned : WakeState → Option PendingWake → Option ℕ → Option ℕ → Type 0
Planned s (some p) (some sent) (some next) = sent + wake_interval_ms ≤ next
Planned s (some p) (some sent) none = ⊥
Planned s (some p) none next = Unit {0}
Planned s none sent next = Unit {0}

abbrev pub IsPlanned : WakeState → Type 0
IsPlanned s = Planned s s.pending s.last_sent_at s.next_at

-- No send is earlier than a minute after `last`, and the next no earlier than a minute after it.
abbrev pub Spaced : Option ℕ → List ℕ → Type 0
Spaced last [] = Unit {0}
Spaced none (at ∷ rest) = Spaced (some at) rest
Spaced (some t) (at ∷ rest) = (t + wake_interval_ms ≤ at) × Spaced (some at) rest

noted-IsPlanned :
    (key : Text) (expires_at now : ℕ) (s : WakeState) → IsPlanned (noted key expires_at now s)
unfolding noted
noted-IsPlanned key expires_at now s = elim (Option-cases s.last_sent_at) [
  | inl e ↦ rw e tt
  | inr (t, e) ↦ rw e (omega arith)
]

abbrev pub Before : Option ℕ → ℕ → Type 0
Before none at = Unit {0}
Before (some t) at = t + wake_interval_ms ≤ at

-- The time of the last push changes with a push only, and a push keeps its distance.
abbrev pub Follows : Option ℕ → Option ℕ → Option ℕ → Type 0
Follows last none last' = last' ≡ last
Follows last (some at) last' = Before last at × (last' ≡ some at)

abbrev when : ℕ → Bool → Option ℕ
when now sent = if sent then some now else none

abbrev Good : WakeState → ℕ → WakeState × Bool → Type 0
Good s now r = IsPlanned r.0 × Follows s.last_sent_at (when now r.1) r.0.last_sent_at

settled :
    (now : ℕ) (result : SendResult) (s : WakeState) (p : PendingWake)
    (before : Before s.last_sent_at now)
    → Good s now (
        finish_due result s (
          claimed
            (claim_of now s p)
            (record { expires_at = p.expires_at; attempts = p.attempts + 1 })))
unfolding settle
settled now accepted s p before = (tt, (before, refl))
settled now failed s p before = elim (Bool-cases (leb max_attempts (p.attempts + 1))) [
  | inl e ↦ rw e (tt, (before, refl))
  | inr e ↦ rw e (omega arith, (before, refl))
]
settled now stopped s p before = (omega arith, (before, refl))

abbrev state : List (Text × ℕ) → Option PendingWake → Option ℕ → Option ℕ → WakeState
state recent pending next last = record {
  recent = recent;
  pending = pending;
  next_at = next;
  last_sent_at = last;
}

-- A push is due only at its planned time.
send_due-pending :
    (now : ℕ) (result : SendResult) (recent : List (Text × ℕ)) (p : PendingWake)
    (next last : Option ℕ)
    → IsPlanned (state recent (some p) next last)
    → (is_later next now ≡ false → Before last now)
    → Good
        (state recent (some p) next last)
        now
        (send_due now result (state recent (some p) next last))
unfolding send_due due
send_due-pending now result recent p next last h early =
    elim (Bool-cases (leb p.expires_at now || leb max_attempts p.attempts)) [
      | inl e ↦ rw (e, send_due, due) (tt, refl)
      | inr e ↦ elim (Bool-cases (is_later next now)) [
        | inl later ↦ rw (e, later, send_due, due) (h, refl)
        | inr on_time ↦
            rw (e, on_time, send_due, due)
              (settled now result (state recent (some p) next last) p (early on_time))
      ]
    ]

send_due-cases :
    (now : ℕ) (result : SendResult) (recent : List (Text × ℕ)) (pending : Option PendingWake)
    (next last : Option ℕ)
    → IsPlanned (state recent pending next last)
    → Good
        (state recent pending next last)
        now
        (send_due now result (state recent pending next last))
unfolding send_due due
send_due-cases now result recent none next last h = (tt, refl)
send_due-cases now result recent (some p) next none h =
    send_due-pending now result recent p next none h (λ _. tt)
send_due-cases now result recent (some p) none (some t) h = absurd h
send_due-cases now result recent (some p) (some at) (some t) h =
    send_due-pending now result recent p (some at) (some t) h (λ e. ground arith)

send_due-Good :
    (now : ℕ) (result : SendResult) (s : WakeState)
    → IsPlanned s
    → Good s now (send_due now result s)
send_due-Good now result s h =
    send_due-cases now result s.recent s.pending s.next_at s.last_sent_at h

abbrev GoodStep : WakeState → Sent → Type 0
GoodStep s r = IsPlanned r.0 × Follows s.last_sent_at r.1 r.0.last_sent_at

step-GoodStep : (e : ℕ × Event) (s : WakeState) → IsPlanned s → GoodStep s (step e s)
unfolding step request
step-GoodStep (now, draining result) s h = send_due-Good now result s h
step-GoodStep (now, requesting key expires_at later result) s h =
    elim (Bool-cases (leb (get_or expires_at (now + default_ttl_ms)) now)) [
      | inl e ↦ rw (e, step, request) (h, refl)
      | inr e ↦ elim (Bool-cases (any (λ item. text_eq item.0 key) (live_keys now s.recent))) [
        | inl known ↦ rw (e, known, step, request) (send_due-Good later result s h)
        | inr new ↦
            rw (e, new, step, request)
              (send_due-Good later result
                (noted key (get_or expires_at (now + default_ttl_ms)) now s)
                (noted-IsPlanned key (get_or expires_at (now + default_ttl_ms)) now s))
      ]
    ]

Spaced-add_time :
    (last sent last' : Option ℕ) (times : List ℕ)
    → Follows last sent last'
    → Spaced last' times
    → Spaced last (add_time sent times)
Spaced-add_time last none last' times same h = subst (λ l. Spaced l times) same h
Spaced-add_time none (some at) last' times (before, same) h = subst (λ l. Spaced l times) same h
Spaced-add_time (some t) (some at) last' times (before, same) h =
    (before, subst (λ l. Spaced l times) same h)

-- From a state in which the pending push is planned no sooner than a minute after the last, two
-- pushes of a room are at least a minute apart, whatever is requested, retried or stopped midway, and
-- in whatever order.
pub run-Spaced :
    (events : List (ℕ × Event)) (s : WakeState)
    → IsPlanned s
    → Spaced s.last_sent_at (run events s).1
unfolding run
run-Spaced [] s h = tt
run-Spaced (e ∷ events) s h =
    let good : GoodStep s (step e s) = step-GoodStep e s h in
    Spaced-add_time s.last_sent_at (step e s).1 (step e s).0.last_sent_at
      (run events (step e s).0).1 good.1 (run-Spaced events (step e s).0 good.0)
