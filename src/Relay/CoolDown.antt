-- ===== src/Relay/CoolDown.antt =====
-- src/relay/coolDown.js: the reconnect cool-downs, a map in insertion order with the time of the
-- call as an argument, and the identities that are its keys.
pub mod Bounds
pub mod Backoff
use granttap_relay.Prelude.{
  ℕ, zero, suc, ◌+◌, ◌-◌, ◌*◌, ◌/◌, ◌%◌, ◌^◌, ◌≤◌, ◌≡◌, refl, Bool, true, false, not, ◌&&◌, ◌||◌,
  List, [], ◌∷◌, ◌++◌, Option, none, some, min, ltb, leb, if◌then◌else◌, length, filter, find, Text,
  codes, text_eq, take,
}
use Prim.Native.Nat.{bit_xor}

pub record Entry : Type 0 where
  pub strikes : ℕ
  pub until : ℕ
  pub admission_only : Bool

pub record Registry : Type 0 where
  pub base_ms : ℕ
  pub max_ms : ℕ
  pub reset_ms : ℕ
  pub max_entries : ℕ
  pub entries : List (Text × Entry)

abbrev pub sweep_per_strike : ℕ
sweep_per_strike = 8

-- `new CoolDownRegistry({ maxEntries })` with the other options left at their defaults
abbrev pub new_registry : ℕ → Registry
new_registry max_entries = record {
  base_ms = 5_000;
  max_ms = 5 * 60_000;
  reset_ms = 15 * 60_000;
  max_entries = max_entries;
  entries = [];
}

-- `entries.get(key)`
unfoldable pub entry_of : Text → List (Text × Entry) → Option Entry
entry_of key [] = none
entry_of key ((k, entry) ∷ rest) = if text_eq k key then some entry else entry_of key rest

-- `entries.delete(key)`: a map holds a key once.
unfoldable pub delete : Text → List (Text × Entry) → List (Text × Entry)
unfolding filter
delete key entries = filter (λ e. not (text_eq e.0 key)) entries

-- `now - until > resetMs`; a time that lies ahead is no reset.
abbrev pub has_reset : ℕ → ℕ → Entry → Bool
has_reset reset_ms now entry = ltb reset_ms (now - entry.until)

-- The loop of `sweep` over the entries from one on: `size` is the size of the map.
unfoldable pub sweep_from : ℕ → ℕ → ℕ → ℕ → ℕ → List (Text × Entry) → List (Text × Entry)
sweep_from max_entries reset_ms now size checked [] = []
sweep_from max_entries reset_ms now size checked ((key, entry) ∷ rest) =
    elim (leb size max_entries && leb sweep_per_strike checked) [
      | true ↦ (key, entry) ∷ rest
      | false ↦ elim (ltb max_entries size || has_reset reset_ms now entry) [
        | true ↦ sweep_from max_entries reset_ms now (size - 1) (checked + 1) rest
        | false ↦ (key, entry) ∷ sweep_from max_entries reset_ms now size (checked + 1) rest
      ]
    ]

unfoldable pub sweep : Registry → ℕ → Registry
unfolding sweep_from
sweep r now = record r {
  entries = sweep_from r.max_entries r.reset_ms now (length r.entries) 0 r.entries;
}

abbrev pub is_fresh : ℕ → ℕ → Option Entry → Bool
is_fresh reset_ms now none = true
is_fresh reset_ms now (some entry) = has_reset reset_ms now entry

abbrev pub strikes_of : Option Entry → ℕ
strikes_of none = 0
strikes_of (some entry) = entry.strikes

abbrev pub admission_only_of : Option Entry → Bool
admission_only_of none = false
admission_only_of (some entry) = entry.admission_only

unfoldable pub backoff_ms : Registry → ℕ → ℕ
backoff_ms r strikes = min r.max_ms (r.base_ms * 2 ^ min (strikes - 1) 30)

-- The entry that a strike writes.
unfoldable pub struck : Registry → Text → Bool → ℕ → Entry
unfolding entry_of backoff_ms
struck r key admission now =
    let previous = entry_of key r.entries in
    let fresh = is_fresh r.reset_ms now previous in
    let strikes = if fresh then 1 else strikes_of previous + 1 in
    record {
      strikes = strikes;
      until = now + backoff_ms r strikes;
      admission_only = admission && (fresh || admission_only_of previous);
    }

-- The registry after one policy close, and the back-off that it was given.
unfoldable pub strike : Registry → Text → Bool → ℕ → Registry × ℕ
unfolding struck delete sweep
strike r key admission now = (
  sweep (record r { entries = delete key r.entries ++ (key, struck r key admission now) ∷ [] }) now,
  backoff_ms r (struck r key admission now).strikes,
)

-- What is left of the cool-down of an identity, `none` where it has none.
unfoldable pub remaining : Registry → Option Text → Bool → ℕ → Registry × ℕ
unfolding entry_of delete
remaining r none admitted now = (r, 0)
remaining r (some key) admitted now = elim (entry_of key r.entries) [
  | none ↦ (r, 0)
  | some entry ↦
      if ltb 0 (length key)
      then if admitted && entry.admission_only
        then (record r { entries = delete key r.entries }, 0)
        else if has_reset r.reset_ms now entry
        then (record r { entries = delete key r.entries }, 0)
        else (r, entry.until - now)
      else (r, 0)
]

-- `Math.imul(a, b) >>> 0`
abbrev imul : ℕ → ℕ → ℕ
imul a b = a * b % 2 ^ 32

unfoldable pub fnv : ℕ → ℕ → Text → ℕ
fnv multiplier state [] = state
fnv multiplier state (c ∷ text) = fnv multiplier (imul (bit_xor state c) multiplier) text

abbrev hex_digit : ℕ → ℕ
hex_digit d = if ltb d 10 then d + b'0' else d + 87

-- `value.toString(16).padStart(width, "0")` of a number below 16 ^ width
unfoldable pub hex : ℕ → ℕ → Text
hex zero value = []
hex (suc width) value = hex width (value / 16) ++ hex_digit (value % 16) ∷ []

unfoldable pub digest : Text → Text
unfolding fnv hex
digest value = hex 8 (fnv 0x01000193 0x811c9dc5 value) ++ hex 8 (fnv 0x811c9dc5 0x01000193 value)

unfoldable pub upgrade_identity : Option Text → Option Text → Option Text
upgrade_identity (some room) (some key) =
    if ltb 0 (length key) then some (take 16 room ++ codes "|k|" ++ take 32 key) else none
upgrade_identity (some room) none = none
upgrade_identity none key = none

-- `role` is undefined, or a word that is not empty.
unfoldable pub socket_identity : Option Text → Option Text → Option Text → Option Text → Option Text
unfolding upgrade_identity digest
socket_identity room key role sender = elim (upgrade_identity room key) [
  | some identity ↦ some identity
  | none ↦ by_sender room role sender
]
  where
    by_sender : Option Text → Option Text → Option Text → Option Text
    by_sender (some r) (some word) (some id) =
        some (take 16 r ++ codes "|s|" ++ word ++ codes "|" ++ digest id)
    by_sender _ _ _ = none
