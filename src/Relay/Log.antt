-- ===== src/Relay/Log.antt =====
-- src/relay/relayLog.js: which lines are written and what stands in them. The fields of a call are
-- values that JSON can express, or missing. The `|` that joins the parts of a key occurs in none of them, so a key is its parts.
pub mod Privacy
use granttap_relay.Prelude.{
  ℕ, ◌+◌, ◌-◌, Bool, true, false, not, ◌&&◌, ◌||◌, List, [], ◌∷◌, ◌++◌, map, Option, none, some,
  ltb, leb, ◌==◌, if◌then◌else◌, get_or, length, filter, find, all, drop, take, Text, codes,
  text_eq, is_digit, is_hex_text,
}
use granttap_relay.Relay.Json.{
  Json, undefined, boolean, array, nil, cons, integer, string, is_text, string_and, is_safe_integer,
}

pub record Fields : Type 0 where
  pub room : Json
  pub role : Json
  pub code : Json
  pub status : Json
  pub retry_after : Json
  pub reason : Json

pub record Entry : Type 0 where
  pub room : Text
  pub role : Text
  pub code : Option ℕ
  pub status : Option ℕ
  pub retry_after : Option ℕ
  pub reason : Json

abbrev is_letter : ℕ → Bool
is_letter c = leb b'a' c && leb c b'z'

abbrev is_token_char : ℕ → Bool
is_token_char c = is_letter c || is_digit c || c == b'-'

-- `TOKEN`
unfoldable pub is_token : Text → Bool
unfolding all
is_token [] = false
is_token (c ∷ text) = is_letter c && all is_token_char text && leb (length text) 47

unfoldable pub room_tag : Json → Text
unfolding is_hex_text
room_tag (string room) = if is_hex_text 16 64 room then take 8 room else codes "-"
room_tag _ = codes "-"

unfoldable pub role_tag : Json → Text
unfolding text_eq
role_tag role =
    if is_text role (codes "machine")
    then codes "machine"
    else if is_text role (codes "phone")
    then codes "phone"
    else codes "-"

abbrev number_field : Json → Option ℕ
number_field (integer n) = if is_safe_integer (integer n) then some n else none
number_field _ = none

-- `String(value ?? "")` as far as a token may come of it: of a string, a boolean or a list of one of
-- these. Any other value gives a text that is no token.
unfoldable pub token_text : Json → Text
token_text (string s) = s
token_text (boolean true) = codes "true"
token_text (boolean false) = codes "false"
token_text (array (cons x nil)) = token_text x
token_text _ = []

-- The value itself is kept, `undefined` is a reason that is left out.
abbrev pub reason_field : Json → Json
reason_field reason = if is_token (token_text reason) then reason else undefined

unfoldable pub sanitize_log_fields : Fields → Entry
unfolding room_tag role_tag is_token token_text
sanitize_log_fields f = record {
  room = room_tag f.room;
  role = role_tag f.role;
  code = number_field f.code;
  status = number_field f.status;
  retry_after = number_field f.retry_after;
  reason = reason_field f.reason;
}

pub record Key : Type 0 where
  pub event : Text
  pub room : Text
  pub role : Text
  pub reason : Text
  pub number : Option ℕ

abbrev first_number : Option ℕ → Option ℕ → Option ℕ
first_number none status = status
first_number (some code) status = some code

abbrev pub key_of : Text → Entry → Key
key_of event e = record {
  event = event;
  room = e.room;
  role = e.role;
  reason = token_text e.reason;
  number = first_number e.code e.status;
}

abbrev same_number : Option ℕ → Option ℕ → Bool
same_number none none = true
same_number (some a) (some b) = a == b
same_number _ _ = false

abbrev pub same_key : Key → Key → Bool
same_key a b =
    text_eq a.event b.event
    && text_eq a.room b.room
    && text_eq a.role b.role
    && text_eq a.reason b.reason
    && same_number a.number b.number

pub record Seen : Type 0 where
  pub key : Key
  pub at : ℕ
  pub suppressed : ℕ

-- `secondStartedAt` is -Infinity, here `none`, at first.
pub record LogState : Type 0 where
  pub seen : List Seen
  pub second_started_at : Option ℕ
  pub second_lines : ℕ

pub record Options : Type 0 where
  pub interval_ms : ℕ
  pub max_per_second : ℕ
  pub max_keys : ℕ

pub record Line : Type 0 where
  pub at : ℕ
  pub event : Text
  pub entry : Entry
  pub suppressed : ℕ

abbrev pub plain : ℕ → ℕ
plain c = if c == b'.' || c == b'_' then b'-' else c

abbrev pub has_key : Key → Seen → Bool
has_key key s = same_key s.key key

-- `previous.suppressed += 1`
unfoldable pub suppress : Key → List Seen → List Seen
unfolding text_eq
suppress key [] = []
suppress key (s ∷ seen) =
    if has_key key s
    then record s { suppressed = s.suppressed + 1 } ∷ seen
    else s ∷ suppress key seen

abbrev pub is_recent : ℕ → ℕ → Option Seen → Bool
is_recent interval now none = false
is_recent interval now (some s) = ltb (now - s.at) interval

abbrev suppressed_of : Option Seen → ℕ
suppressed_of none = 0
suppressed_of (some s) = s.suppressed

abbrev is_new_second : ℕ → Option ℕ → Bool
is_new_second now none = true
is_new_second now (some start) = leb 1_000 (now - start)

abbrev pub in_second : ℕ → LogState → LogState
in_second now s =
    if is_new_second now s.second_started_at
    then record s { second_started_at = some now; second_lines = 0 }
    else s

abbrev cut : ℕ → List Seen → List Seen
cut max_keys seen = if ltb max_keys (length seen) then drop 1 seen else seen

unfoldable pub write_line : Options → Text → Entry → ℕ → LogState → LogState × Option Line
unfolding token_text suppress filter find text_eq
write_line o event entry now s =
    let key = key_of event entry in
    let previous = find (has_key key) s.seen in
    if leb o.max_per_second s.second_lines
    then (record s { seen = suppress key s.seen }, none)
    else (
      record s {
        second_lines = s.second_lines + 1;
        seen = cut o.max_keys (
            filter (λ other. not (has_key key other)) s.seen
            ++ record { key = key; at = now; suppressed = 0 } ∷ []);
      },
      some (record { at = now; event = event; entry = entry; suppressed = suppressed_of previous }),
    )

-- `log`: the new state, and the line that is written.
unfoldable pub log : Options → Text → Fields → ℕ → LogState → LogState × Option Line
unfolding token_text sanitize_log_fields write_line suppress find is_token text_eq
log o event fields now s =
    let entry = sanitize_log_fields fields in
    let key = key_of event entry in
    if not (is_token (map plain event))
    then (s, none)
    else if is_recent o.interval_ms now (find (has_key key) s.seen)
    then (record s { seen = suppress key s.seen }, none)
    else write_line o event entry now (in_second now s)
