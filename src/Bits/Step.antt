-- ===== src/Bits/Step.antt =====
-- The lowest digit of `&` and `|`: one step of the recursion that the native operations stand for.
use Prim.Native.Nat.{digits, bitwise, bit_and-bitwise, bit_or-bitwise, bit_xor-bitwise, differ}
use native.Mathlib.Nat.{le_refl}
use phytium_sdk.Prelude.{
  ℕ, zero, suc, ◌+◌, ◌*◌, ◌/◌, ◌%◌, ◌≤◌, ◌<◌, bit_and, bit_or, bit_xor, min, max, ◌≡◌, refl, arith,
}

module _ (low : ℕ → ℕ) (op : ℕ → ℕ → ℕ) where
  digits_enough : (f g x y : ℕ) → x ≤ f → x ≤ g → digits low op f x y ≡ digits low op g x y
  digits_enough zero zero x y p q = refl
  digits_enough zero (suc g) zero y p q = refl
  digits_enough zero (suc g) (suc x) y p q = absurd (omega arith)
  digits_enough (suc f) zero zero y p q = refl
  digits_enough (suc f) zero (suc x) y p q = absurd (omega arith)
  digits_enough (suc f) (suc g) zero y p q = refl
  digits_enough (suc f) (suc g) (suc x) y p q =
      rw (digits_enough f g (suc x / 2) (y / 2) (omega arith) (omega arith))

  bitwise_digit :
      (x y : ℕ)
      → bitwise low op (suc x) y ≡ bitwise low op (suc x / 2) (y / 2) * 2 + op (suc x % 2) (y % 2)
  bitwise_digit x y =
      omega (arith, digits_enough x (suc x / 2) (suc x / 2) (y / 2) (omega arith) (le_refl _))

pub bit_or_digit : (x y : ℕ) → bit_or x y ≡ bit_or (x / 2) (y / 2) * 2 + max (x % 2) (y % 2)
bit_or_digit zero y = simp bit_or-bitwise (omega arith)
bit_or_digit (suc x) y = simp bit_or-bitwise (bitwise_digit (λ t. t) max x y)

pub bit_and_digit : (x y : ℕ) → bit_and x y ≡ bit_and (x / 2) (y / 2) * 2 + min (x % 2) (y % 2)
bit_and_digit zero y = simp bit_and-bitwise (omega arith)
bit_and_digit (suc x) y = simp bit_and-bitwise (bitwise_digit (λ t. 0) min x y)

digit_differ : (x y : ℕ) → x < 2 → y < 2 → differ x y ≡ (x + y) % 2
digit_differ zero zero p q = refl
digit_differ zero (suc zero) p q = refl
digit_differ zero (suc (suc y)) p q = absurd (omega arith)
digit_differ (suc zero) zero p q = refl
digit_differ (suc zero) (suc zero) p q = refl
digit_differ (suc zero) (suc (suc y)) p q = absurd (omega arith)
digit_differ (suc (suc x)) y p q = absurd (omega arith)

pub bit_xor_digit : (x y : ℕ) → bit_xor x y ≡ bit_xor (x / 2) (y / 2) * 2 + (x % 2 + y % 2) % 2
bit_xor_digit zero y = simp bit_xor-bitwise (omega arith)
bit_xor_digit (suc x) y = omega (
  arith,
  bit_xor-bitwise (suc x) y,
  bit_xor-bitwise (suc x / 2) (y / 2),
  bitwise_digit (λ t. t) differ x y,
  digit_differ (suc x % 2) (y % 2) (omega arith) (omega arith),
)
