-- ===== src/Xmac/If/Hash.antt =====
-- drivers/fxmac/phytium_xmac.c: `phytium_xmac_mac_hash`, the 6-bit hash of an Ethernet address. The
-- address is its bytes by index.
use phytium_sdk.Prelude.{
  ℕ, zero, suc, ◌+◌, ◌*◌, ◌/◌, ◌%◌, ◌^◌, ◌<◌, ◌≤◌, bit_and, bit_xor, ltb, leb, ◌==◌, ◌≡◌, refl,
  Bool, true, false, not, ◌&&◌, if◌then◌else◌, Outcome, returns, out_of_fuel, ◌>>=◌, arith, ap, sym,
  Bool-cases, inl, inr, ◌∙◌,
}
use phytium_sdk.Bits.{testb, differs}
use phytium_sdk.Bits.Laws.{bit_and-pow, testb-zero, testb-pow}
use phytium_sdk.Bits.Xor.{testb-bit_xor, testb_bound}

module _ (eaddr : ℕ → ℕ) where
  -- `(eaddr[j >> 3] & (1 << (j & 7))) != 0`
  unfoldable pub address_bit : ℕ → Bool
  address_bit j = not (bit_and (eaddr (j / 8)) (2 ^ (j % 8)) == 0)

  -- the inner loop, from `j` on
  unfoldable pub flip_loop : ℕ → ℕ → ℕ → ℕ → Outcome ℕ
  unfolding address_bit
  flip_loop zero i j hash = out_of_fuel
  flip_loop (suc fuel) i j hash = elim (ltb j 48) [
    | false ↦ returns hash
    | true ↦ flip_loop fuel i (j + 6) (if address_bit j then bit_xor hash (2 ^ i) else hash)
  ]

  -- the outer loop, from `i` on
  unfoldable pub hash_loop : ℕ → ℕ → ℕ → Outcome ℕ
  unfolding flip_loop
  hash_loop zero i hash = out_of_fuel
  hash_loop (suc fuel) i hash = elim (ltb i 6) [
    | false ↦ returns hash
    | true ↦ flip_loop 9 i i hash >>= hash_loop fuel (suc i)
  ]

  unfoldable pub mac_hash : Outcome ℕ
  unfolding hash_loop
  mac_hash = hash_loop 7 0 0

-- whether an odd number of the bits j, j + 6, ... are on, `n` of them
unfoldable pub odd_bits : (ℕ → Bool) → ℕ → ℕ → Bool
odd_bits bits zero j = false
odd_bits bits (suc n) j = differs (bits j) (odd_bits bits n (j + 6))

differs_assoc : (a b c : Bool) → differs (differs a b) c ≡ differs a (differs b c)
differs_assoc true true c = not_not c
  where
    not_not : (b : Bool) → b ≡ not (not b)
    not_not true = refl
    not_not false = refl
differs_assoc true false c = refl
differs_assoc false b c = refl

differs-false : (a : Bool) → differs a false ≡ a
differs-false true = refl
differs-false false = refl

and_true : (a : Bool) → (a && true) ≡ a
and_true true = refl
and_true false = refl

and_false : (a : Bool) → (a && false) ≡ false
and_false true = refl
and_false false = refl

and_differs : (a b c : Bool) → differs (a && b) (a && c) ≡ (a && differs b c)
and_differs true b c = refl
and_differs false b c = refl

-- the bit `j` of an address: bit `j % 8` of its byte `j / 8`
abbrev pub bit_of : (ℕ → ℕ) → ℕ → Bool
bit_of eaddr j = testb (eaddr (j / 8)) (j % 8)

module _ (eaddr : ℕ → ℕ) where
  address_bit_lem : (j : ℕ) → address_bit eaddr j ≡ bit_of eaddr j
  unfolding address_bit
  address_bit_lem j = ground (arith, bit_and-pow (eaddr (j / 8)) (j % 8))

  flip_loop-step :
      (fuel i j hash : ℕ)
      → j < 48
      → flip_loop eaddr (suc fuel) i j hash
        ≡ flip_loop eaddr fuel i (j + 6) (if bit_of eaddr j then bit_xor hash (2 ^ i) else hash)
  unfolding flip_loop
  flip_loop-step fuel i j hash inside = ground (arith, inside, address_bit_lem j)

  flip_loop-stop : (fuel i j hash : ℕ) → 48 ≤ j → flip_loop eaddr (suc fuel) i j hash ≡ returns hash
  unfolding flip_loop
  flip_loop-stop fuel i j hash outside = ground arith

  testb-flip :
      (on : Bool) (i hash b : ℕ)
      → testb (if on then bit_xor hash (2 ^ i) else hash) b
        ≡ differs (testb hash b) ((i == b) && on)
  testb-flip true i hash b =
      testb-bit_xor hash (2 ^ i) b
      ∙ ap (differs (testb hash b)) (testb-pow i b ∙ sym (and_true (i == b)))
  testb-flip false i hash b =
      sym (ap (differs (testb hash b)) (and_false (i == b)) ∙ differs-false (testb hash b))

  flip_loop-flips :
      (n i j hash : ℕ)
      → i < 6
      → j + n * 6 ≡ 48 + i
      → (h : ℕ) × (flip_loop eaddr (suc n) i j hash ≡ returns h)
        × ((b : ℕ) → testb h b ≡ differs (testb hash b) ((i == b) && odd_bits (bit_of eaddr) n j))
  unfolding odd_bits
  flip_loop-flips zero i j hash small e = (
    hash,
    flip_loop-stop 0 i j hash (omega arith),
    λ b. sym (ap (differs (testb hash b)) (and_false (i == b)) ∙ differs-false (testb hash b)),
  )
  flip_loop-flips (suc n) i j hash small e =
      let flipped = if bit_of eaddr j then bit_xor hash (2 ^ i) else hash in
      let (h, r, bits) = flip_loop-flips n i (j + 6) flipped small (omega arith) in
      (
        h,
        flip_loop-step (suc n) i j hash (omega arith) ∙ r,
        λ b.
            bits b
            ∙ ap (λ c. differs c ((i == b) && odd_bits (bit_of eaddr) n (j + 6)))
                (testb-flip (bit_of eaddr j) i hash b)
            ∙ differs_assoc (testb hash b) ((i == b) && bit_of eaddr j)
                ((i == b) && odd_bits (bit_of eaddr) n (j + 6))
            ∙ ap (differs (testb hash b))
                (and_differs (i == b) (bit_of eaddr j) (odd_bits (bit_of eaddr) n (j + 6))),
      )

  outside : (i b : ℕ) (c : Bool) → 6 ≤ i → (leb i b && ltb b 6 && c) ≡ false
  outside i b c past = ground arith

  too_high : (b : ℕ) (c : Bool) → 6 ≤ b → (ltb b 6 && c) ≡ false
  too_high b c high = ground arith

  from_zero : (b : ℕ) (c : Bool) → differs (testb 0 b) (leb 0 b && ltb b 6 && c) ≡ (ltb b 6 && c)
  from_zero b c = ground (arith, testb-zero b)

  next_round :
      (i b : ℕ) (odd : ℕ → Bool)
      → i < 6
      → differs ((i == b) && odd i) (leb (suc i) b && ltb b 6 && odd b)
        ≡ (leb i b && ltb b 6 && odd b)
  next_round i b odd small = elim (Bool-cases (odd b)) [
    | inl on ↦ ground (arith, on)
    | inr off ↦ ground (arith, off)
  ]

  hash_loop-stop : (fuel i hash : ℕ) → 6 ≤ i → hash_loop eaddr (suc fuel) i hash ≡ returns hash
  unfolding hash_loop
  hash_loop-stop fuel i hash past = ground arith

  hash_loop-step :
      (fuel i hash : ℕ)
      → i < 6
      → hash_loop eaddr (suc fuel) i hash
        ≡ flip_loop eaddr 9 i i hash >>= hash_loop eaddr fuel (suc i)
  unfolding hash_loop
  hash_loop-step fuel i hash inside = ground arith

  hash_loop-hashes :
      (n i hash : ℕ)
      → n + i ≡ 6
      → (h : ℕ) × (hash_loop eaddr (suc n) i hash ≡ returns h)
        × ((b : ℕ)
            → testb h b
              ≡ differs (testb hash b) (leb i b && ltb b 6 && odd_bits (bit_of eaddr) 8 b))
  hash_loop-hashes zero i hash e = (
    hash,
    hash_loop-stop 0 i hash (omega arith),
    λ b.
        sym (
          ap (differs (testb hash b)) (outside i b _ (omega arith)) ∙ differs-false (testb hash b)),
  )
  hash_loop-hashes (suc n) i hash e =
      let (g, f, flipped) = flip_loop-flips 8 i i hash (omega arith) (omega arith) in
      let (h, r, bits) = hash_loop-hashes n (suc i) g (omega arith) in
      (
        h,
        hash_loop-step (suc n) i hash (omega arith)
            ∙ ap (λ o. o >>= hash_loop eaddr (suc n) (suc i)) f
            ∙ r,
        λ b.
            bits b
            ∙ ap (λ c. differs c (leb (suc i) b && ltb b 6 && odd_bits (bit_of eaddr) 8 b))
                (flipped b)
            ∙ differs_assoc (testb hash b) _ _
            ∙ ap (differs (testb hash b))
                (next_round i b (odd_bits (bit_of eaddr) 8) (omega arith)),
      )

  -- The hash of an address returns and is below 64. Bit `b` of it, for b < 6, is on exactly when an
  -- odd number of the address bits b, b + 6, ..., b + 42 are on.
  pub mac_hash-bits :
      (h : ℕ) × (mac_hash eaddr ≡ returns h)
      × (h < 64)
      × ((b : ℕ) → testb h b ≡ (ltb b 6 && odd_bits (bit_of eaddr) 8 b))
  unfolding mac_hash
  mac_hash-bits =
      let (h, r, bits) = hash_loop-hashes 6 0 0 refl in
      let exact = λ (b : ℕ). bits b ∙ from_zero b (odd_bits (bit_of eaddr) 8 b) in
      (h, r, testb_bound 6 h (λ b high. exact b ∙ too_high b _ high), exact)
