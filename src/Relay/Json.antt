-- ===== src/Relay/Json.antt =====
-- The values that `JSON.parse` returns, and what the relay's code asks of them. A number that is no
-- integer is one opaque value: the code compares integers only, after `Number.isSafeInteger`.
use granttap_relay.Prelude.{
  ℕ, Bool, true, false, ◌&&◌, [], Option, none, some, ltb, leb, if◌then◌else◌, length, Text,
  text_eq,
}

mutual
  pub data Json : Type 0 where
    undefined : Json
    null : Json
    boolean : Bool → Json
    integer : ℕ → Json
    -- `negative n` is -(n + 1).
    negative : ℕ → Json
    fraction : Json
    string : Text → Json
    array : Items → Json
    object : Fields → Json

  pub data Items : Type 0 where
    nil : Items
    cons : Json → Items → Items

  pub data Fields : Type 0 where
    end : Fields
    field : Text → Json → Fields → Fields

unfoldable pub lookup : Text → Fields → Json
lookup name end = undefined
lookup name (field key value rest) = if text_eq key name then value else lookup name rest

-- `value?.name`
unfoldable pub get : Json → Text → Json
unfolding lookup
get (object fields) name = lookup name fields
get undefined name = undefined
get _ name = undefined

-- `Object.keys(value).every(test)` on an object
unfoldable pub every_key : (Text → Bool) → Fields → Bool
every_key test end = true
every_key test (field key value rest) = test key && every_key test rest

-- Whether JavaScript takes the value for true in a test.
unfoldable pub truthy : Json → Bool
truthy undefined = false
truthy null = false
truthy (boolean b) = b
truthy (integer n) = ltb 0 n
truthy (string text) = ltb 0 (length text)
truthy _ = true

-- `value == null`
abbrev pub is_nullish : Json → Bool
is_nullish undefined = true
is_nullish null = true
is_nullish _ = false

-- `value === text`
abbrev pub is_text : Json → Text → Bool
is_text (string s) text = text_eq s text
is_text undefined text = false
is_text _ text = false

abbrev pub to_text : Json → Option Text
to_text (string s) = some s
to_text undefined = none
to_text _ = none

-- `typeof value === 'string' && test(value)`
abbrev pub string_and : Json → (Text → Bool) → Bool
string_and (string s) test = test s
string_and undefined test = false
string_and _ test = false

-- `String(value ?? "")` as far as a valid token or bundle id may come of it: of a string, or of a list
-- of one. Any other value gives a text that is neither.
unfoldable pub text_value : Json → Text
text_value (string s) = s
text_value (array (cons x nil)) = text_value x
text_value _ = []

abbrev pub max_safe_integer : ℕ
max_safe_integer = 9_007_199_254_740_991

-- `Number.isSafeInteger(value)`; -(n + 1) is safe up to -(2^53 - 1).
abbrev pub is_safe_integer : Json → Bool
is_safe_integer (integer n) = leb n max_safe_integer
is_safe_integer (negative n) = ltb n max_safe_integer
is_safe_integer _ = false

-- `value > limit` and `value <= limit` for an integer and a limit that is not negative.
abbrev pub exceeds : Json → ℕ → Bool
exceeds (integer n) limit = ltb limit n
exceeds (negative n) limit = false
exceeds _ limit = false

abbrev pub at_most : Json → ℕ → Bool
at_most (integer n) limit = leb n limit
at_most (negative n) limit = true
at_most _ limit = false
