-- ===== src/Bits/Xor.antt =====
-- What `testb` reads from `^`, and numbers known by their bits.
use phytium_sdk.Prelude.{ℕ, zero, suc, ◌/◌, ◌^◌, ◌<◌, ◌≤◌, bit_xor, ◌≡◌, false, arith}
use phytium_sdk.Bits.{testb, differs}
use phytium_sdk.Bits.Step.{bit_xor_digit}
use native.Mathlib.Nat.{pow-suc}

xor_half : (x y : ℕ) → bit_xor x y / 2 ≡ bit_xor (x / 2) (y / 2)
xor_half x y = omega (arith, bit_xor_digit x y)

pub testb-bit_xor : (x y i : ℕ) → testb (bit_xor x y) i ≡ differs (testb x i) (testb y i)
unfolding testb
testb-bit_xor x y zero = ground (arith, bit_xor_digit x y)
testb-bit_xor x y (suc i) = rw (xor_half x y) (testb-bit_xor (x / 2) (y / 2) i)

no_bits : (n x : ℕ) → x < n → ((i : ℕ) → testb x i ≡ false) → x ≡ 0
unfolding testb
no_bits zero x small h = absurd (omega arith)
no_bits (suc n) zero small h = omega arith
no_bits (suc n) (suc x) small h =
    let half : suc x / 2 ≡ 0 = no_bits n (suc x / 2) (omega arith) (λ i. h (suc i)) in
    ground (arith, half, h 0)

-- A number with none of the bits from k up is below 2^k.
pub testb_bound : (k x : ℕ) → ((i : ℕ) → k ≤ i → testb x i ≡ false) → x < 2 ^ k
unfolding testb
testb_bound zero x h = omega (arith, no_bits (suc x) x (omega arith) (λ i. h i (omega arith)))
testb_bound (suc k) x h =
    omega (arith, pow-suc 2 k, testb_bound k (x / 2) (λ i high. h (suc i) (omega arith)))
