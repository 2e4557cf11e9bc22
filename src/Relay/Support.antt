-- ===== src/Relay/Support.antt =====
-- src/relay/relaySupport.js: the comparison of credentials.
pub mod Equality
use granttap_relay.Prelude.{ℕ, Bool, false, not, [], ◌∷◌, ◌==◌, length, if◌then◌else◌, Text}
use Prim.Native.Nat.{bit_xor, bit_or}

-- The loop of `constantTimeEqual` over two strings of one length.
unfoldable pub difference : ℕ → Text → Text → ℕ
difference d [] right = d
difference d (a ∷ left) [] = d
difference d (a ∷ left) (b ∷ right) = difference (bit_or d (bit_xor a b)) left right

unfoldable pub constant_time_equal : Text → Text → Bool
unfolding difference
constant_time_equal left right =
    if not (length left == length right) then false else difference 0 left right == 0
