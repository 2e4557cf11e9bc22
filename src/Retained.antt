-- ===== src/Retained.antt =====
-- src/retainedState/policy.js: the latest states of a machine that its phones read after a restart.
-- The envelope's fields stand in a row; the JSON text of a row is kept as it came. A row's identity is
-- its recipient and key, which is the primary key of both stores. Keys and groups are texts: a list of
-- one text, which the regular expressions of the source let pass, is not modelled here.
pub mod Eviction
use granttap_relay.Prelude.{
  ℕ, zero, suc, ◌+◌, ◌-◌, ◌*◌, Bool, true, false, not, ◌&&◌, ◌||◌, List, [], ◌∷◌, ◌++◌, map, Option,
  none, some, ltb, leb, ◌==◌, if◌then◌else◌, get_or, is_some, length, filter, any, find, sum_by,
  max, Text, codes, text_eq, byte_length, is_hex_text,
}
use granttap_relay.Relay.Json.{Json, integer, string, get, truthy, to_text, at_most}
use granttap_relay.Relay.Validation.{valid_retained_state, state_ttl_ms}
use granttap_relay.Sockets.Presence.{Seen}

abbrev pub state_room_bytes : ℕ
state_room_bytes = 16 * 1_024 * 1_024

abbrev pub state_room_slots : ℕ
state_room_slots = 512

abbrev pub state_frame_bytes : ℕ
state_frame_bytes = 1_800_000

pub record StateRow : Type 0 where
  pub recipient : Text
  pub key : Text
  pub revision : ℕ
  pub priority : ℕ
  pub group_id : Option Text
  pub expires_at : ℕ
  pub saved_at : ℕ
  pub bytes : ℕ
  pub raw : Text

abbrev pub is_live : ℕ → StateRow → Bool
is_live now row = ltb now row.expires_at

abbrev pub same_slot : StateRow → StateRow → Bool
same_slot a b = text_eq b.recipient a.recipient && text_eq b.key a.key

-- `${row.recipient}:${row.groupId ?? row.key}`
abbrev pub group_of : StateRow → Text
group_of row = row.recipient ++ b':' ∷ get_or row.group_id row.key

abbrev pub in_group : Text → StateRow → Bool
in_group id row = text_eq (group_of row) id

abbrev pub bytes_of : List StateRow → ℕ
bytes_of rows = sum_by (λ row. row.bytes) rows

pub record Group : Type 0 where
  pub id : Text
  pub priority : ℕ
  pub saved_at : ℕ
  pub seen : ℕ

-- The last entry of a phone counts, as in the Map that the source builds.
unfoldable pub last_entry : ℕ → List Seen → Text → Option ℕ
last_entry now [] recipient = none
last_entry now (s ∷ activity) recipient = elim (last_entry now activity recipient) [
  | some at ↦ some at
  | none ↦
      if text_eq s.role (codes "phone")
        && text_eq s.id recipient
        && ltb now (s.last_seen_at + state_ttl_ms)
      then some s.last_seen_at
      else none
]

unfoldable pub last_seen : ℕ → List Seen → Text → ℕ
unfolding last_entry
last_seen now activity recipient = get_or (last_entry now activity recipient) 0

abbrev is_body : StateRow → Bool
is_body row = not (row.priority == 0)

abbrev max_of : (StateRow → ℕ) → List StateRow → ℕ
max_of f [] = 0
max_of f (row ∷ rows) = max (f row) (max_of f rows)

-- Whether the last row has a group decides the priority of a group without a body.
abbrev last_has_group : List StateRow → Bool
last_has_group [] = false
last_has_group (row ∷ []) = is_some row.group_id
last_has_group (row ∷ next ∷ rows) = last_has_group (next ∷ rows)

abbrev is_nil : List StateRow → Bool
is_nil [] = true
is_nil (row ∷ rows) = false

unfoldable pub make_group : (Text → ℕ) → List StateRow → StateRow → Group
unfolding filter
make_group seen_of rows first =
    let members = filter (in_group (group_of first)) rows in
    let bodies = filter is_body members in
    record {
      id = group_of first;
      priority =
          if not (is_nil bodies)
          then max_of (λ row. row.priority) bodies
          else if last_has_group members
          then 2
          else 4;
      saved_at = max_of (λ row. row.saved_at) (if is_nil bodies then members else bodies);
      seen = seen_of first.recipient;
    }

-- The first row of each group, in order.
unfoldable pub firsts : List StateRow → List StateRow
unfolding filter
firsts [] = []
firsts (row ∷ rows) = row ∷ filter (λ other. not (in_group (group_of row) other)) (firsts rows)

-- The comparison of the sort: what is not essential goes first, then what was seen least recently,
-- the highest priority number and the oldest.
unfoldable pub goes_first : Group → Group → Bool
goes_first a b =
    if not (a.priority == 1) && b.priority == 1
    then true
    else if a.priority == 1 && not (b.priority == 1)
    then false
    else if not (a.seen == b.seen)
    then ltb a.seen b.seen
    else if not (a.priority == b.priority)
    then ltb b.priority a.priority
    else leb a.saved_at b.saved_at

unfoldable pub place : Group → List Group → List Group
place g [] = g ∷ []
place g (h ∷ groups) = if goes_first g h then g ∷ h ∷ groups else h ∷ place g groups

unfoldable pub sort_groups : List Group → List Group
unfolding place goes_first
sort_groups [] = []
sort_groups (g ∷ groups) = place g (sort_groups groups)

unfoldable pub eviction_groups : (Text → ℕ) → List StateRow → List Group
unfolding sort_groups make_group firsts
eviction_groups seen_of rows = sort_groups (map (make_group seen_of rows) (firsts rows))

unfoldable pub evict_groups : List Group → List StateRow → ℕ → List StateRow
unfolding filter sum_by
evict_groups [] rows total = rows
evict_groups (g ∷ groups) rows total =
    if leb (length rows) state_room_slots && leb total state_room_bytes
    then rows
    else evict_groups groups (filter (λ row. not (in_group g.id row)) rows)
        (total - bytes_of (filter (in_group g.id) rows))

unfoldable pub retain_row : (Text → ℕ) → List StateRow → StateRow → List StateRow
unfolding evict_groups eviction_groups filter
retain_row seen_of live row =
    let rows = filter (λ old. not (same_slot row old)) live ++ row ∷ [] in
    evict_groups (eviction_groups seen_of rows) rows (bytes_of rows)

-- A row as new as the one that is sent stays.
abbrev pub is_stale : StateRow → List StateRow → Bool
is_stale row live = elim (find (same_slot row) live) [
  | none ↦ false
  | some old ↦ leb row.revision old.revision
]

abbrev number_of : Json → ℕ
number_of (integer n) = n
number_of _ = 0

abbrev text_of : Json → Text
text_of (string s) = s
text_of _ = []

abbrev pub state_row : Json → Text → ℕ → StateRow
state_row e raw now = record {
  recipient = text_of (get e (codes "recipientKeyId"));
  key = text_of (get e (codes "stateKey"));
  revision = number_of (get e (codes "stateRevision"));
  priority = number_of (get e (codes "statePriority"));
  group_id = to_text (get e (codes "stateGroup"));
  expires_at = number_of (get e (codes "expiresAt"));
  saved_at = now;
  bytes = byte_length raw;
  raw = raw;
}

-- A state outside a group that is no body cannot crowd the cache.
abbrev pub is_refused : Json → Text → ℕ → Bool
is_refused e raw now =
    not (truthy (get e (codes "stateKey")))
    || not (valid_retained_state e now)
    || at_most (get e (codes "expiresAt")) now
    || not (number_of (get e (codes "statePriority")) == 1)
      && not (truthy (get e (codes "stateGroup")))
    || ltb state_frame_bytes (byte_length raw)

unfoldable pub retain_state : List StateRow → Json → Text → ℕ → List Seen → List StateRow
unfolding retain_row find valid_retained_state last_seen
retain_state rows e raw now activity =
    let live = filter (is_live now) rows in
    if is_refused e raw now || is_stale (state_row e raw now) live
    then live
    else retain_row (last_seen now activity) live (state_row e raw now)

-- What a phone is sent, in the order of priority and then of revision.
abbrev reads_first : StateRow → StateRow → Bool
reads_first a b =
    if a.priority == b.priority then leb a.revision b.revision else ltb a.priority b.priority

unfoldable pub place_row : StateRow → List StateRow → List StateRow
place_row row [] = row ∷ []
place_row row (other ∷ rows) =
    if reads_first row other then row ∷ other ∷ rows else other ∷ place_row row rows

unfoldable pub sort_rows : List StateRow → List StateRow
unfolding place_row
sort_rows [] = []
sort_rows (row ∷ rows) = place_row row (sort_rows rows)

unfoldable pub replay_state : List StateRow → Text → ℕ → List StateRow
unfolding sort_rows filter is_hex_text
replay_state rows recipient now =
    if is_hex_text 64 64 recipient
    then sort_rows (filter (λ row. text_eq row.recipient recipient && ltb now row.expires_at) rows)
    else []
