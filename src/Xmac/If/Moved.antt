-- ===== src/Xmac/If/Moved.antt =====
-- The address that the boot loader left moves to the first pair of registers and stays the same.
use phytium_sdk.Prelude.{
  ℕ, zero, suc, ◌+◌, ◌*◌, ◌/◌, ◌%◌, ◌^◌, ◌<◌, ◌≤◌, ◌==◌, ◌≡◌, sym, ap, ◌∙◌, true, false, some,
  bit_or, if◌then◌else◌, arith, Bool-cases, inl, inr,
}
use phytium_sdk.Bits.Join.{bit_or-add}
use phytium_sdk.Xmac.If.Mac.{
  AddressRegs, is_set, find_address, bytes_of, regs_of, chosen_address, get_mac,
}

-- the four bytes of a word make the word
join_word :
    (b : ℕ)
    → b < 2 ^ 32
    → bit_or
        (bit_or
          (bit_or (b / 2 ^ 24 % 2 ^ 8 * 2 ^ 24) (b / 2 ^ 16 % 2 ^ 8 * 2 ^ 16))
          (b / 2 ^ 8 % 2 ^ 8 * 2 ^ 8))
        (b % 2 ^ 8)
      ≡ b
join_word b small =
    let e3 = b / 2 ^ 24 % 2 ^ 8 in
    let e2 = b / 2 ^ 16 % 2 ^ 8 in
    let e1 = b / 2 ^ 8 % 2 ^ 8 in
    let high : bit_or (e3 * 2 ^ 24) (e2 * 2 ^ 16) ≡ (e3 * 2 ^ 8 + e2) * 2 ^ 16 =
      omega (arith, bit_or-add 24 e3 (e2 * 2 ^ 16) (omega arith)) in
    let middle : bit_or ((e3 * 2 ^ 8 + e2) * 2 ^ 16) (e1 * 2 ^ 8)
        ≡ ((e3 * 2 ^ 8 + e2) * 2 ^ 8 + e1) * 2 ^ 8 =
      omega (arith, bit_or-add 16 (e3 * 2 ^ 8 + e2) (e1 * 2 ^ 8) (omega arith)) in
    ap (λ x. bit_or (bit_or x (e1 * 2 ^ 8)) (b % 2 ^ 8)) high
    ∙ ap (λ x. bit_or x (b % 2 ^ 8)) middle
    ∙ bit_or-add 8 ((e3 * 2 ^ 8 + e2) * 2 ^ 8 + e1) (b % 2 ^ 8) (omega arith)
    ∙ omega arith

join_half : (t : ℕ) → bit_or (t % 2 ^ 16 / 2 ^ 8 % 2 ^ 8 * 2 ^ 8) (t % 2 ^ 16 % 2 ^ 8) ≡ t % 2 ^ 16
join_half t =
    bit_or-add 8 (t % 2 ^ 16 / 2 ^ 8 % 2 ^ 8) (t % 2 ^ 16 % 2 ^ 8) (omega arith) ∙ omega arith

find_address-first :
    (regs : ℕ → AddressRegs) (n j i : ℕ)
    → j ≤ i
    → i < j + n
    → is_set (regs i) ≡ true
    → ((k : ℕ) → k < i → is_set (regs k) ≡ false)
    → find_address regs n j ≡ some i
unfolding find_address
find_address-first regs zero j i low high here before = absurd (omega arith)
find_address-first regs (suc n) j i low high here before = elim (Bool-cases (j == i)) [
  | inl same ↦
      let at : j ≡ i = ground arith in
      ap (λ b. if b then some j else find_address regs n (suc j))
        (ap (λ k. is_set (regs k)) at ∙ here)
      ∙ ap some at
  | inr other ↦
      let past : suc j ≤ i = ground arith in
      ap (λ b. if b then some j else find_address regs n (suc j)) (before j (omega arith))
      ∙ find_address-first regs n (suc j) i past (omega arith) here before
]

bytes_of-same :
    (r q : AddressRegs)
    → r.bottom ≡ q.bottom
    → r.top ≡ q.top % 2 ^ 16
    → (k : ℕ) → bytes_of r k ≡ bytes_of q k
unfolding bytes_of
bytes_of-same r q same_bottom same_top k = ground (arith, same_bottom, same_top)

module _ (assigned : ℕ → ℕ) (regs : ℕ → AddressRegs) (i : ℕ) (inside : i < 4)
    (here : is_set (regs i) ≡ true) (before : (k : ℕ) → k < i → is_set (regs k) ≡ false)
    (word : (regs i).bottom < 2 ^ 32) where
  found : find_address regs 4 0 ≡ some i
  found = find_address-first regs 4 0 i (omega arith) (omega arith) here before

  get_mac-bottom : ((get_mac assigned regs).1 0).bottom ≡ (regs i).bottom
  unfolding get_mac chosen_address regs_of bytes_of
  get_mac-bottom =
      ap (λ o. (regs_of (chosen_address assigned regs o)).bottom) found
      ∙ join_word (regs i).bottom word

  get_mac-top : ((get_mac assigned regs).1 0).top ≡ (regs i).top % 2 ^ 16
  unfolding get_mac chosen_address regs_of bytes_of
  get_mac-top =
      ap (λ o. (regs_of (chosen_address assigned regs o)).top) found ∙ join_half (regs i).top

  still_set : is_set ((get_mac assigned regs).1 0) ≡ true
  unfolding is_set
  still_set = ground (arith, get_mac-bottom, get_mac-top, here)

  first_found : find_address (get_mac assigned regs).1 4 0 ≡ some 0
  first_found =
      find_address-first (get_mac assigned regs).1 4 0 0 (omega arith) (omega arith) still_set
        (λ k none_before. absurd (omega arith))

  -- An address that the boot loader left in one of the pairs of registers is moved to the first pair
  -- without a change, and a second call, whatever address it would be assigned, finds the same
  -- address again. The pair `i` is the first that holds an address, and its registers hold 32 bits.
  pub get_mac-get_mac :
      (other : ℕ → ℕ)
      → (((get_mac assigned regs).1 0).bottom ≡ (regs i).bottom)
        × (((get_mac assigned regs).1 0).top ≡ (regs i).top % 2 ^ 16)
        × ((k : ℕ) → (get_mac other (get_mac assigned regs).1).0 k ≡ (get_mac assigned regs).0 k)
  unfolding get_mac chosen_address
  get_mac-get_mac other = (
    get_mac-bottom,
    get_mac-top,
    (λ k.
        ap (λ o. chosen_address other (get_mac assigned regs).1 o k) first_found
        ∙ bytes_of-same ((get_mac assigned regs).1 0) (regs i) get_mac-bottom get_mac-top k
        ∙ sym (ap (λ o. chosen_address assigned regs o k) found)),
  )
