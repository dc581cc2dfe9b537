-- ===== src/Bits/Complement.antt =====
-- What `testb` reads from the complement of a word.
use phytium_sdk.Prelude.{ℕ, zero, suc, ◌-◌, ◌/◌, ◌^◌, ◌<◌, ◌≡◌, not, ◌&&◌, ltb, arith}
use phytium_sdk.Bits.{testb}
use phytium_sdk.Bits.Laws.{testb-zero}
use native.Mathlib.Nat.{pow-suc}

pub testb-complement :
    (n m i : ℕ) → m < 2 ^ n → testb (2 ^ n - 1 - m) i ≡ (ltb i n && not (testb m i))
unfolding testb
testb-complement zero m i small = ground (arith, testb-zero i)
testb-complement (suc n) m zero small = ground (arith, pow-suc 2 n)
testb-complement (suc n) m (suc i) small =
    let half : (2 ^ suc n - 1 - m) / 2 ≡ 2 ^ n - 1 - m / 2 = omega (arith, pow-suc 2 n) in
    ground (arith, half, pow-suc 2 n, testb-complement n (m / 2) i (omega (arith, pow-suc 2 n)))
