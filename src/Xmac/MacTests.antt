-- ===== src/Xmac/MacTests.antt =====
-- The address registers at a concrete input.
use phytium_sdk.Prelude.{ℕ, zero, suc, ◌%◌, ◌^◌, ◌<◌, ◌==◌, ◌≡◌, refl, false, if◌then◌else◌, arith}
use phytium_sdk.Xmac.If.Mac.{AddressRegs, is_set, get_mac}
use phytium_sdk.Xmac.If.Moved.{get_mac-get_mac}

-- the third pair holds 02:11:22:33:44:55
abbrev slots : ℕ → AddressRegs
slots i =
    if i == 2 then record { bottom = 0x33221102; top = 0x5544 } else record { bottom = 0; top = 0 }

abbrev nothing : ℕ → ℕ
nothing i = 0

slots_before : (k : ℕ) → k < 2 → is_set (slots k) ≡ false
unfolding is_set
slots_before zero h = refl
slots_before (suc zero) h = refl
slots_before (suc (suc k)) h = absurd (omega arith)

get_mac-get_mac_example :
    (((get_mac nothing slots).1 0).bottom ≡ (slots 2).bottom)
    × (((get_mac nothing slots).1 0).top ≡ (slots 2).top % 2 ^ 16)
    × ((k : ℕ) → (get_mac nothing (get_mac nothing slots).1).0 k ≡ (get_mac nothing slots).0 k)
unfolding is_set
get_mac-get_mac_example =
    get_mac-get_mac nothing slots 2 (omega arith) refl slots_before (omega arith) nothing
