-- ===== src/Tests/TaskUpdates.antt =====
-- src/taskActivities at concrete inputs.
use granttap_relay.Prelude.{
  ℕ, ◌≡◌, refl, Bool, true, false, List, [], ◌∷◌, none, arith, Text, codes, text_eq, all, find,
  filter,
}
use granttap_relay.Relay.Json.{get, object, end}
use granttap_relay.Activities.Registries.{
  Activity, Enrollment, enrollment_of, Call, registering, getting, removing, delivering, Table,
  worker_call,
}
use granttap_relay.Activities.Registries.Rows.{rows_in}
use granttap_relay.Activities.Registries.Agreement.{
  Agree, worker_run, sqlite_run, InOrder, worker_run-sqlite_run,
}
use granttap_relay.Activities.Delivery.{Update, ok, gone, deliver}
use granttap_relay.Activities.Delivery.Events.{
  Event, called, updating, lives_on, spares, on_worker, run_pushes,
}
use granttap_relay.Activities.Delivery.Spacing.{deliver_spaced}

program : Unit {0}
unfolding text_eq all find filter rows_in deliver worker_call enrollment_of get
program = tt

abbrev any_base64 : Text → Bool
any_base64 text = true

abbrev enrollment : Enrollment
enrollment = record {
  activity_id = codes "a";
  token = codes "t";
  environment = codes "sandbox";
  bundle_id = codes "b";
  expires_at = 100_000;
  nonce = [];
  box = [];
}

abbrev activity : Activity
activity = record { enrollment = enrollment; last_delivery_id = none; last_delivered_at = 0 }

abbrev room : Text
room = codes "r"

abbrev calls : List (ℕ × Call)
calls =
    (5, getting (codes "a"))
    ∷ (6, delivering (codes "a") (codes "d"))
    ∷ (7, getting (codes "a"))
    ∷ (8, removing (codes "a"))
    ∷ (9, getting (codes "a"))
    ∷ []

in_order : InOrder 1 calls
in_order = (omega arith, (omega arith, (omega arith, (omega arith, (omega arith, tt)))))

abbrev table : Table
table = (room, activity) ∷ (codes "other", activity) ∷ []

agrees : Agree room 1 table (activity ∷ [])
unfolding program
agrees = record { rows = refl; distinct = (refl, tt) }

worker_run-sqlite_run_example :
    sqlite_run room any_base64 calls table ≡ worker_run room any_base64 calls (activity ∷ [])
worker_run-sqlite_run_example =
    worker_run-sqlite_run room any_base64 calls 1 table (activity ∷ []) in_order agrees

abbrev update : Update
update = record { activity_id = codes "a"; delivery_id = codes "d"; ends = false }

abbrev next_update : Update
next_update = record { activity_id = codes "a"; delivery_id = codes "e"; ends = false }

lives_long : lives_on 50 (codes "a") (activity ∷ []) ≡ true
unfolding program
lives_long = refl

pushed : (on_worker any_base64 50 true ok update (activity ∷ [])).2 ≡ true
unfolding program
pushed = refl

-- The next update, a renewal that is refused and a removal of another activity
abbrev between : List (ℕ × Event)
between =
    (60, updating true ok next_update)
    ∷ (70, called (registering (object end)))
    ∷ (80, called (removing (codes "b")))
    ∷ (90, updating true gone (record next_update { activity_id = codes "c"; ends = true }))
    ∷ []

all_spare : all (spares 50 (codes "a")) between ≡ true
unfolding program
all_spare = refl

deliver_spaced_example :
    run_pushes any_base64
      (codes "a")
      between
      (on_worker any_base64 50 true ok update (activity ∷ [])).0
    ≡ false
deliver_spaced_example =
    deliver_spaced any_base64 50 true update between (activity ∷ []) (omega arith) lives_long refl
      pushed all_spare
