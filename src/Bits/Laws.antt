-- ===== src/Bits/Laws.antt =====
-- What `testb` reads from `|`, `&` and powers of two.
use phytium_sdk.Bits.{testb}
use phytium_sdk.Bits.Step.{bit_or_digit, bit_and_digit}
use phytium_sdk.Prelude.{
  ◌≤◌, ℕ, zero, suc, ◌/◌, ◌%◌, ◌^◌, ◌<◌, bit_and, bit_or, max, ◌≡◌, refl, true, false, ◌&&◌, ◌||◌,
  arith, ◌==◌, if◌then◌else◌,
}
use native.Mathlib.Nat.{pow-suc}

or_low : (x y : ℕ) → bit_or x y % 2 ≡ max (x % 2) (y % 2)
or_low x y = omega (arith, bit_or_digit x y)

or_half : (x y : ℕ) → bit_or x y / 2 ≡ bit_or (x / 2) (y / 2)
or_half x y = omega (arith, bit_or_digit x y)

and_half : (x y : ℕ) → bit_and x y / 2 ≡ bit_and (x / 2) (y / 2)
and_half x y = omega (arith, bit_and_digit x y)

pub testb-bit_or : (x y i : ℕ) → testb (bit_or x y) i ≡ (testb x i || testb y i)
unfolding testb
testb-bit_or x y zero = ground (arith, or_low x y)
testb-bit_or x y (suc i) = rw (or_half x y) (testb-bit_or (x / 2) (y / 2) i)

pub testb-bit_and : (x y i : ℕ) → testb (bit_and x y) i ≡ (testb x i && testb y i)
unfolding testb
testb-bit_and x y zero = ground (arith, bit_and_digit x y)
testb-bit_and x y (suc i) = rw (and_half x y) (testb-bit_and (x / 2) (y / 2) i)

pub testb-zero : (i : ℕ) → testb 0 i ≡ false
unfolding testb
testb-zero zero = refl
testb-zero (suc i) = testb-zero i

pub testb-pow : (k i : ℕ) → testb (2 ^ k) i ≡ (k == i)
unfolding testb
testb-pow zero zero = refl
testb-pow zero (suc i) = ground (arith, testb-zero i)
testb-pow (suc k) zero = ground (arith, pow-suc 2 k)
testb-pow (suc k) (suc i) =
    let half : 2 ^ suc k / 2 ≡ 2 ^ k = omega (arith, pow-suc 2 k) in
    ground (arith, half, testb-pow k i)

bit_or-mod_2 : (x y : ℕ) → y % 2 ≡ 0 → bit_or x y % 2 ≡ x % 2
bit_or-mod_2 x y h = omega (arith, bit_or_digit x y)

bit_or-mod_4 : (x y : ℕ) → y % 4 ≡ 0 → bit_or x y % 4 ≡ x % 4
bit_or-mod_4 x y h =
    omega (arith, or_low x y, or_half x y, bit_or-mod_2 (x / 2) (y / 2) (omega arith))

bit_or-mod_8 : (x y : ℕ) → y % 8 ≡ 0 → bit_or x y % 8 ≡ x % 8
bit_or-mod_8 x y h =
    omega (arith, or_low x y, or_half x y, bit_or-mod_4 (x / 2) (y / 2) (omega arith))

bit_or-mod_16 : (x y : ℕ) → y % 16 ≡ 0 → bit_or x y % 16 ≡ x % 16
bit_or-mod_16 x y h =
    omega (arith, or_low x y, or_half x y, bit_or-mod_8 (x / 2) (y / 2) (omega arith))

bit_or-mod_32 : (x y : ℕ) → y % 32 ≡ 0 → bit_or x y % 32 ≡ x % 32
bit_or-mod_32 x y h =
    omega (arith, or_low x y, or_half x y, bit_or-mod_16 (x / 2) (y / 2) (omega arith))

-- A word with none of the six low bits leaves those of the other alone.
pub bit_or-mod_64 : (x y : ℕ) → y % 64 ≡ 0 → bit_or x y % 64 ≡ x % 64
bit_or-mod_64 x y h =
    omega (arith, or_low x y, or_half x y, bit_or-mod_32 (x / 2) (y / 2) (omega arith))

and_zero_below : (n x : ℕ) → x < n → bit_and x 0 ≡ 0
and_zero_below zero x h = elim h [ ]
and_zero_below (suc n) zero h = refl
and_zero_below (suc n) (suc x) h =
    omega (arith, bit_and_digit (suc x) 0, and_zero_below n (suc x / 2) (omega arith))

and_zero : (x : ℕ) → bit_and x 0 ≡ 0
and_zero x = and_zero_below (suc x) x (omega arith)

-- `x & (1 << k)` is zero exactly when the bit is off.
pub bit_and-pow : (x k : ℕ) → (bit_and x (2 ^ k) == 0) ≡ (if testb x k then false else true)
unfolding testb
bit_and-pow x zero = ground (arith, bit_and_digit x 1, and_zero (x / 2))
bit_and-pow x (suc k) =
    ground (arith, pow-suc 2 k, bit_and_digit x (2 ^ suc k), bit_and-pow (x / 2) k)

-- A number below 64 has none of the bits from 6 up.
pub testb-high : (x i : ℕ) → x < 64 → testb x (suc (suc (suc (suc (suc (suc i)))))) ≡ false
unfolding testb
testb-high x i small =
    let gone : x / 2 / 2 / 2 / 2 / 2 / 2 ≡ 0 = omega arith in ground (arith, gone, testb-zero i)

-- A number below 2^k has none of the bits from k up.
pub testb-below : (k i x : ℕ) → x < 2 ^ k → k ≤ i → testb x i ≡ false
unfolding testb
testb-below zero i x small high = ground (arith, testb-zero i)
testb-below (suc k) zero x small high = absurd (omega arith)
testb-below (suc k) (suc i) x small high =
    testb-below k i (x / 2) (omega (arith, pow-suc 2 k)) (omega arith)
