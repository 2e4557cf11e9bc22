-- ===== src/Relay/Support/Equality.antt =====
-- src/relay/relaySupport.js: the comparison in constant time is the comparison.
use granttap_relay.Prelude.{
  ℕ, zero, suc, ◌/◌, ◌%◌, ◌≤◌, ◌≡◌, refl, ap, sym, ◌∙◌, ◌↔◌, true, [], ◌∷◌, arith, ==_iff, length,
  max, Text,
}
use Prim.Native.Nat.{bit_xor, bit_or, bit_xor-bitwise, bit_or-bitwise, digits, differ}
use granttap_relay.Relay.Support.{difference, constant_time_equal}

differ-zero : (x y : ℕ) → differ x y ≡ 0 → x ≡ y
differ-zero zero y h = sym h
differ-zero (suc x) zero h = h
differ-zero (suc x) (suc y) h = ap suc (differ-zero x y h)

differ_self : (x : ℕ) → differ x x ≡ 0
differ_self zero = refl
differ_self (suc x) = differ_self x

abbrev xor_digits : ℕ → ℕ → ℕ → ℕ
xor_digits n a b = digits (λ b. b) differ n a b

abbrev or_digits : ℕ → ℕ → ℕ → ℕ
or_digits n a b = digits (λ b. b) max n a b

xor_zero : (n a b : ℕ) → a ≤ n → xor_digits n a b ≡ 0 → a ≡ b
xor_zero zero a b low h = omega arith
xor_zero (suc n) zero b low h = sym h
xor_zero (suc n) (suc a) b low h =
    let high : xor_digits n (suc a / 2) (b / 2) ≡ 0 = omega arith in
    let bit : differ (suc a % 2) (b % 2) ≡ 0 = omega arith in
    let halves : suc a / 2 ≡ b / 2 = xor_zero n (suc a / 2) (b / 2) (omega arith) high in
    let last : suc a % 2 ≡ b % 2 = differ-zero (suc a % 2) (b % 2) bit in omega arith

xor_self : (n a : ℕ) → a ≤ n → xor_digits n a a ≡ 0
xor_self zero a low = omega arith
xor_self (suc n) zero low = refl
xor_self (suc n) (suc a) low =
    let high : xor_digits n (suc a / 2) (suc a / 2) ≡ 0 = xor_self n (suc a / 2) (omega arith) in
    let bit : differ (suc a % 2) (suc a % 2) ≡ 0 = differ_self (suc a % 2) in omega arith

or_zero : (n a b : ℕ) → a ≤ n → or_digits n a b ≡ 0 → (a ≡ 0) × (b ≡ 0)
or_zero zero a b low h = (omega arith, h)
or_zero (suc n) zero b low h = (refl, h)
or_zero (suc n) (suc a) b low h =
    let high : or_digits n (suc a / 2) (b / 2) ≡ 0 = omega arith in
    let bit : max (suc a % 2) (b % 2) ≡ 0 = omega arith in
    let halves = or_zero n (suc a / 2) (b / 2) (omega arith) high in
    (omega (arith, halves.0), omega (arith, halves.1))

xor_path : (a b : ℕ) → bit_xor a b ≡ xor_digits a a b
xor_path a b = λ i. bit_xor-bitwise a b i

or_path : (a b : ℕ) → bit_or a b ≡ or_digits a a b
or_path a b = λ i. bit_or-bitwise a b i

bit_xor_zero : (a b : ℕ) → bit_xor a b ≡ 0 → a ≡ b
bit_xor_zero a b h = xor_zero a a b (omega arith) (sym (xor_path a b) ∙ h)

bit_xor_self : (a : ℕ) → bit_xor a a ≡ 0
bit_xor_self a = xor_path a a ∙ xor_self a a (omega arith)

bit_or_zero : (a b : ℕ) → bit_or a b ≡ 0 → (a ≡ 0) × (b ≡ 0)
bit_or_zero a b h = or_zero a a b (omega arith) (sym (or_path a b) ∙ h)

difference_zero :
    (d : ℕ) (left right : Text)
    → length left ≡ length right
    → difference d left right ≡ 0
    → (d ≡ 0) × (left ≡ right)
unfolding difference
difference_zero d [] [] same h = (h, refl)
difference_zero d [] (b ∷ right) same h = absurd (omega arith)
difference_zero d (a ∷ left) [] same h = absurd (omega arith)
difference_zero d (a ∷ left) (b ∷ right) same h =
    let rest = difference_zero (bit_or d (bit_xor a b)) left right (omega arith) h in
    let both = bit_or_zero d (bit_xor a b) rest.0 in
    (both.0, ap (λ c. c ∷ left) (bit_xor_zero a b both.1) ∙ ap (λ t. b ∷ t) rest.1)

difference_self : (text : Text) → difference 0 text text ≡ 0
unfolding difference
difference_self [] = refl
difference_self (a ∷ text) =
    let none : bit_or 0 (bit_xor a a) ≡ 0 = rw (bit_xor_self a) refl in
    rw none (difference_self text)

-- The comparison of two texts in constant time says that they are equal exactly when they are.
pub constant_time_equal_iff :
    (left right : Text) → (constant_time_equal left right ≡ true) ↔ (left ≡ right)
unfolding constant_time_equal
constant_time_equal_iff left right = (
  λ h.
      let lengths : length left ≡ length right =
        ground (arith, (==_iff (length left) (length right)).0) in
      let zero_sum : difference 0 left right ≡ 0 =
        ground (arith, (==_iff (difference 0 left right) 0).0) in
      (difference_zero 0 left right lengths zero_sum).1,
  λ e. rw e (ground (arith, (==_iff (length right) (length right)).1 refl, difference_self right)),
)
