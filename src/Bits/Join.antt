-- ===== src/Bits/Join.antt =====
-- Numbers joined by `|` without common bits are added.
use phytium_sdk.Prelude.{
  ℕ, zero, suc, ◌+◌, ◌*◌, ◌/◌, ◌%◌, ◌^◌, ◌<◌, bit_or, max, ◌≡◌, refl, sym, ap, subst, ◌∙◌, arith,
}
use phytium_sdk.Bits.Step.{bit_or_digit}
use native.Mathlib.Nat.{pow-suc, mul_assoc}

or_zero_below : (n x : ℕ) → x < n → bit_or x 0 ≡ x
or_zero_below zero x h = absurd (omega arith)
or_zero_below (suc n) zero h = refl
or_zero_below (suc n) (suc x) h =
    omega (arith, bit_or_digit (suc x) 0, or_zero_below n (suc x / 2) (omega arith))

bit_or-double : (c b : ℕ) → bit_or c (b / 2) ≡ c + b / 2 → bit_or (c * 2) b ≡ c * 2 + b
bit_or-double c b e =
    let half : c * 2 / 2 ≡ c = omega arith in
    let digit : bit_or (c * 2) b ≡ bit_or c (b / 2) * 2 + max (c * 2 % 2) (b % 2) =
      subst (λ h. bit_or (c * 2) b ≡ bit_or h (b / 2) * 2 + max (c * 2 % 2) (b % 2)) half
        (bit_or_digit (c * 2) b) in
    omega (arith, digit, e)

pub bit_or-add : (k a b : ℕ) → b < 2 ^ k → bit_or (a * 2 ^ k) b ≡ a * 2 ^ k + b
bit_or-add zero a b small =
    let none_left : b ≡ 0 = omega arith in
    rw none_left (or_zero_below (suc (a * 1)) (a * 1) (omega arith) ∙ omega arith)
bit_or-add (suc k) a b small =
    let twice : a * 2 ^ suc k ≡ a * 2 ^ k * 2 =
      ap (λ p. a * p) (pow-suc 2 k) ∙ sym (mul_assoc a (2 ^ k) 2) in
    subst (λ c. bit_or c b ≡ c + b) (sym twice)
      (bit_or-double (a * 2 ^ k) b (bit_or-add k a (b / 2) (omega (arith, pow-suc 2 k))))
