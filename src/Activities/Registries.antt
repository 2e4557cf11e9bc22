-- ===== src/Activities/Registries.antt =====
-- src/taskActivities/registry: the registrations of a room in a Worker's storage (worker.js) and in
-- the table of a Node relay (sqlite.js), whose rows have their room beside them. The order of ids,
-- `localeCompare` or SQLite's, is left out of both listings.
pub mod Rows
pub mod Keys
pub mod Agreement
use granttap_relay.Prelude.{
  ℕ, ◌+◌, Bool, true, false, not, ◌&&◌, List, [], ◌∷◌, ◌++◌, map, Option, none, some, ltb, leb,
  if◌then◌else◌, is_some, length, filter, find, Text, codes, text_eq,
}
use granttap_relay.Relay.Json.{Json, integer, string, get}
use granttap_relay.Activities.{activity_limit, valid_activity_registration}

-- `privateRecord`
pub record Enrollment : Type 0 where
  pub activity_id : Text
  pub token : Text
  pub environment : Text
  pub bundle_id : Text
  pub expires_at : ℕ
  pub nonce : Text
  pub box : Text

pub record Activity : Type 0 where
  pub enrollment : Enrollment
  pub last_delivery_id : Option Text
  pub last_delivered_at : ℕ

abbrev text_of : Json → Text
text_of (string s) = s
text_of _ = []

abbrev number_of : Json → ℕ
number_of (integer n) = n
number_of _ = 0

-- `toLowerCase` on hexadecimal digits
abbrev to_lower : ℕ → ℕ
to_lower c = if leb b'A' c && leb c b'Z' then c + 32 else c

unfoldable pub enrollment_of : Json → Enrollment
enrollment_of body = record {
  activity_id = text_of (get body (codes "activityId"));
  token = map to_lower (text_of (get body (codes "token")));
  environment = text_of (get body (codes "environment"));
  bundle_id = text_of (get body (codes "bundleId"));
  expires_at = number_of (get body (codes "expiresAt"));
  nonce = text_of (get body (codes "nonce"));
  box = text_of (get body (codes "box"));
}

abbrev pub has_id : Text → Activity → Bool
has_id id row = text_eq row.enrollment.activity_id id

abbrev pub is_live : ℕ → Activity → Bool
is_live now row = ltb now row.enrollment.expires_at

abbrev pub fresh : Enrollment → Activity
fresh e = record { enrollment = e; last_delivery_id = none; last_delivered_at = 0 }

-- The row with the new enrollment keeps what was delivered.
abbrev pub renewed : Enrollment → Activity → Activity
renewed e row = record row { enrollment = e }

abbrev pub marked : Text → ℕ → Activity → Activity
marked delivery_id now row = record row {
  last_delivery_id = some delivery_id;
  last_delivered_at = now;
}

-- The calls of a registry, but `list`, with their times.
pub data Call : Type 0 where
  registering : Json → Call
  getting : Text → Call
  removing : Text → Call
  delivering : Text → Text → Call

pub data Answer : Type 0 where
  done : Bool → Answer
  found : Option Activity → Answer

-- The first row with the id of `e` is replaced.
unfoldable pub replace : Enrollment → List Activity → List Activity
replace e [] = []
replace e (row ∷ rows) =
    if has_id e.activity_id row then renewed e row ∷ rows else row ∷ replace e rows

-- `findIndex` and `splice`
unfoldable pub remove_first : Text → List Activity → List Activity
remove_first id [] = []
remove_first id (row ∷ rows) = if has_id id row then rows else row ∷ remove_first id rows

unfoldable pub mark_first : Text → Text → ℕ → List Activity → List Activity
mark_first id delivery_id now [] = []
mark_first id delivery_id now (row ∷ rows) =
    if has_id id row
    then marked delivery_id now row ∷ rows
    else row ∷ mark_first id delivery_id now rows

-- `WorkerTaskActivities`, on the rows that storage holds
abbrev pub register_live : Enrollment → List Activity → List Activity × Bool
register_live e rows =
    if is_some (find (has_id e.activity_id) rows)
    then (replace e rows, true)
    else if leb activity_limit (length rows)
    then (rows, false)
    else (rows ++ fresh e ∷ [], true)

-- `SqliteTaskActivities`, on the table
abbrev pub Table : Type 0
Table = List (Text × Activity)

abbrev pub in_room : Text → Text × Activity → Bool
in_room room row = text_eq row.0 room

abbrev pub is_row : Text → Text → Text × Activity → Bool
is_row room id row = in_room room row && has_id id row.1

abbrev pub purge : ℕ → Table → Table
purge now table = filter (λ row. is_live now row.1) table

-- `INSERT ... ON CONFLICT(room,activity_id) DO UPDATE`
unfoldable pub upsert : Text → Enrollment → Table → Table
upsert room e [] = (room, fresh e) ∷ []
upsert room e (row ∷ table) =
    if is_row room e.activity_id row
    then (row.0, renewed e row.1) ∷ table
    else row ∷ upsert room e table

unfoldable pub update_delivered : Text → Text → Text → ℕ → Table → Table
update_delivered room id delivery_id now [] = []
update_delivered room id delivery_id now (row ∷ table) =
    if is_row room id row && is_live now row.1
    then (row.0, marked delivery_id now row.1) ∷ update_delivered room id delivery_id now table
    else row ∷ update_delivered room id delivery_id now table

abbrev pub selected : Option (Text × Activity) → Option Activity
selected none = none
selected (some row) = some row.1

abbrev pub register_table : Text → Enrollment → Table → Table × Bool
register_table room e table =
    if not (is_some (find (is_row room e.activity_id) table))
      && leb activity_limit (length (filter (in_room room) table))
    then (table, false)
    else (upsert room e table, true)

module _ (round_trips : Text → Bool) where
  unfoldable pub worker_call : ℕ × Call → List Activity → List Activity × Answer
  unfolding valid_activity_registration enrollment_of filter find replace remove_first mark_first
  worker_call (now, registering body) saved =
      if not (valid_activity_registration round_trips body now)
      then (saved, done false)
      else (let after = register_live (enrollment_of body) (filter (is_live now) saved) in
          (after.0, done after.1))
  worker_call (now, getting id) saved =
      (filter (is_live now) saved, found (find (has_id id) (filter (is_live now) saved)))
  worker_call (now, removing id) saved = (remove_first id (filter (is_live now) saved), done true)
  worker_call (now, delivering id delivery_id) saved =
      (mark_first id delivery_id now (filter (is_live now) saved), done true)

  unfoldable pub sqlite_call : Text → ℕ × Call → Table → Table × Answer
  unfolding valid_activity_registration enrollment_of filter find upsert update_delivered
  sqlite_call room (now, registering body) table =
      if not (valid_activity_registration round_trips body now)
      then (table, done false)
      else (let after = register_table room (enrollment_of body) (purge now table) in
          (after.0, done after.1))
  sqlite_call room (now, getting id) table =
      (purge now table, found (selected (find (is_row room id) (purge now table))))
  sqlite_call room (now, removing id) table =
      (filter (λ row. not (is_row room id row)) table, done true)
  sqlite_call room (now, delivering id delivery_id) table =
      (update_delivered room id delivery_id now table, done true)
