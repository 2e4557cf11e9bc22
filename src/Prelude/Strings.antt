-- ===== src/Prelude/Strings.antt =====
-- A JavaScript string as the list of its UTF-16 code units, with the string operations and the
-- character classes that the relay's code uses.
use Prim.Native.Char.{code}
use Prim.Native.Nat.{ℕ, ◌+◌}
use Prim.Native.String.{String}
use mathlib.Core.Bool.{Bool, true, false, ◌&&◌, ◌||◌}
use mathlib.Core.List.{List, [], ◌∷◌}
use mathlib.Core.Logic.{◌↔◌}
use mathlib.Core.Path.{◌≡◌, refl}
use native.Mathlib.Omega.{arith}
use granttap_relay.Prelude.Lists.{length, all}
use granttap_relay.Prelude.Tests.{ltb, leb, ◌==◌, if◌then◌else◌}

abbrev pub Text : Type 0
Text = List ℕ

-- The code units of an ASCII literal.
abbrev pub codes : String → Text
codes String.[] = []
codes (String.◌∷◌ c s) = code c ∷ codes s

unfoldable pub text_eq : Text → Text → Bool
text_eq [] [] = true
text_eq [] (b ∷ t) = false
text_eq (a ∷ s) [] = false
text_eq (a ∷ s) (b ∷ t) = a == b && text_eq s t

pub text_eq_refl : (a : Text) → text_eq a a ≡ true
unfolding text_eq
text_eq_refl [] = refl
text_eq_refl (a ∷ s) = ground (arith, text_eq_refl s)

pub text_eq→eq : (a b : Text) → text_eq a b ≡ true → a ≡ b
unfolding text_eq
text_eq→eq [] [] h = refl
text_eq→eq [] (b ∷ t) h = ground arith
text_eq→eq (a ∷ s) [] h = ground arith
text_eq→eq (a ∷ s) (b ∷ t) h = ground (arith, text_eq→eq s t)

pub text_eq_iff : (a b : Text) → (text_eq a b ≡ true) ↔ (a ≡ b)
text_eq_iff a b = (text_eq→eq a b, λ e. rw e (text_eq_refl b))

pub text_eq_comm : (a b : Text) → text_eq a b ≡ text_eq b a
unfolding text_eq
text_eq_comm [] [] = refl
text_eq_comm [] (b ∷ t) = refl
text_eq_comm (a ∷ s) [] = refl
text_eq_comm (a ∷ s) (b ∷ t) = ground (arith, text_eq_comm s t)

-- `text.startsWith(prefix)`
unfoldable pub starts_with : Text → Text → Bool
starts_with [] text = true
starts_with (c ∷ p) [] = false
starts_with (c ∷ p) (d ∷ text) = c == d && starts_with p text

abbrev push_unit : ℕ → List Text → List Text
push_unit c [] = (c ∷ []) ∷ []
push_unit c (part ∷ parts) = (c ∷ part) ∷ parts

-- The parts of a text between the separators
unfoldable pub split : ℕ → Text → List Text
split separator [] = [] ∷ []
split separator (c ∷ text) =
    let parts = split separator text in if c == separator then [] ∷ parts else push_unit c parts

abbrev pub is_digit : ℕ → Bool
is_digit c = leb b'0' c && leb c b'9'

-- `[a-f0-9]`
abbrev pub is_hex : ℕ → Bool
is_hex c = is_digit c || leb b'a' c && leb c b'f'

-- `[A-Za-z0-9]`
abbrev pub is_alphanumeric : ℕ → Bool
is_alphanumeric c = is_digit c || leb b'a' c && leb c b'z' || leb b'A' c && leb c b'Z'

-- `[A-Za-z0-9+/]`
abbrev pub is_base64 : ℕ → Bool
is_base64 c = is_alphanumeric c || c == b'+' || c == b'/'

-- `/^[a-f0-9]{low,high}$/`
unfoldable pub is_hex_text : ℕ → ℕ → Text → Bool
is_hex_text low high text = leb low (length text) && leb (length text) high && all is_hex text

-- The bytes of a string in UTF-8, as `TextEncoder` and `Buffer.byteLength` count them: a surrogate
-- pair takes 4, and a lone surrogate is replaced by U+FFFD, which takes 3.
abbrev unit_bytes : ℕ → ℕ
unit_bytes c = if ltb c 0x80 then 1 else if ltb c 0x800 then 2 else 3

abbrev is_high_surrogate : ℕ → Bool
is_high_surrogate c = leb 0xd800 c && ltb c 0xdc00

abbrev is_low_surrogate : ℕ → Bool
is_low_surrogate c = leb 0xdc00 c && ltb c 0xe000

unfoldable mutual
  pub byte_length : Text → ℕ
  byte_length [] = 0
  byte_length (c ∷ text) =
      if is_high_surrogate c then byte_length_after text else unit_bytes c + byte_length text

  pub byte_length_after : Text → ℕ
  byte_length_after [] = 3
  byte_length_after (c ∷ text) =
      if is_low_surrogate c
      then 4 + byte_length text
      else if is_high_surrogate c
      then 3 + byte_length_after text
      else 3 + (unit_bytes c + byte_length text)
