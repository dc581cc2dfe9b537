-- ===== src/Xmac/If/Mac.antt =====
-- drivers/fxmac/phytium_xmac.c: `phytium_xmac_get_mac`. The four pairs of registers FXMAC_GEM_SA1B and
-- FXMAC_GEM_SA1T are a function of the index; `assigned` is the address of
-- `rtems_bsd_get_mac_address`.
use phytium_sdk.Prelude.{
  ℕ, zero, suc, ◌*◌, ◌/◌, ◌%◌, ◌^◌, ◌==◌, Bool, not, ◌||◌, Option, none, some, bit_or, ltb,
  if◌then◌else◌,
}

-- one pair of address registers
pub record AddressRegs : Type 0 where
  pub bottom : ℕ
  pub top : ℕ

-- `low` and `high` of a pair hold an address
unfoldable pub is_set : AddressRegs → Bool
is_set r = not (r.bottom == 0) || not (r.top % 2 ^ 16 == 0)

-- the loop that looks for an address, `n` rounds from `i` on
unfoldable pub find_address : (ℕ → AddressRegs) → ℕ → ℕ → Option ℕ
unfolding is_set
find_address regs zero i = none
find_address regs (suc n) i = if is_set (regs i) then some i else find_address regs n (suc i)

-- the bytes of an address
unfoldable pub bytes_of : AddressRegs → ℕ → ℕ
bytes_of r i =
    if i == 0
    then r.bottom % 2 ^ 8
    else if i == 1
    then r.bottom / 2 ^ 8 % 2 ^ 8
    else if i == 2
    then r.bottom / 2 ^ 16 % 2 ^ 8
    else if i == 3
    then r.bottom / 2 ^ 24 % 2 ^ 8
    else if i == 4
    then r.top % 2 ^ 16 % 2 ^ 8
    else r.top % 2 ^ 16 / 2 ^ 8 % 2 ^ 8

-- the registers for an address
unfoldable pub regs_of : (ℕ → ℕ) → AddressRegs
regs_of eaddr = record {
  bottom =
      bit_or (bit_or (bit_or (eaddr 3 * 2 ^ 24) (eaddr 2 * 2 ^ 16)) (eaddr 1 * 2 ^ 8)) (eaddr 0);
  top = bit_or (eaddr 5 * 2 ^ 8) (eaddr 4);
}

unfoldable pub chosen_address : (ℕ → ℕ) → (ℕ → AddressRegs) → Option ℕ → ℕ → ℕ
unfolding bytes_of
chosen_address assigned regs none = assigned
chosen_address assigned regs (some i) = bytes_of (regs i)

-- the address, and the registers afterwards
unfoldable pub get_mac : (ℕ → ℕ) → (ℕ → AddressRegs) → (ℕ → ℕ) × (ℕ → AddressRegs)
unfolding find_address chosen_address regs_of
get_mac assigned regs =
    let eaddr = chosen_address assigned regs (find_address regs 4 0) in
    (
      eaddr,
      λ i.
          if i == 0
          then regs_of eaddr
          else if ltb i 4
          then record { bottom = 0; top = 0 }
          else regs i,
    )
