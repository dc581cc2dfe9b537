-- ===== src/Xmac/Mdio.antt =====
-- drivers/fxmac/phytium_xmac.c: reads and writes of the PHY's registers over MDIO.
pub mod Total
use phytium_sdk.Prelude.{
  ℕ, zero, suc, ◌+◌, ◌*◌, ◌%◌, ◌^◌, Bool, true, false, bit_and, bit_or, ltb, if◌then◌else◌, Option,
  none, some, Outcome, returns, out_of_fuel, ◌>>=◌,
}
use phytium_sdk.Xmac.Softc.{XmacReg}

-- The wait for the MDIO unit: `idle k` is what the k-th read of the status register says. The result
-- is false on a timeout.
unfoldable pub mdio_wait : ℕ → (ℕ → Bool) → ℕ → Outcome Bool
mdio_wait zero idle tries = out_of_fuel
mdio_wait (suc fuel) idle tries = elim (idle tries) [
  | true ↦ returns true
  | false ↦ elim (ltb 200 (suc tries)) [
    | true ↦ returns false
    | false ↦ mdio_wait fuel idle (suc tries)
  ]
]

unfoldable pub shifted : ℕ → ℕ → ℕ
shifted x k = x * 2 ^ k % 2 ^ 32

module _ (reg : XmacReg) where
  -- the word that starts a read
  unfoldable pub read_word : ℕ → ℕ → ℕ
  unfolding shifted
  read_word phy r =
      bit_or
        (bit_or (bit_or reg.phymntnc_op reg.phymntnc_op_r) (shifted phy reg.phymntnc_phad_shift))
        (shifted r reg.phymntnc_preg_shift)

  -- the word that starts a write; `data` is an `int`, as its bit pattern
  unfoldable pub write_word : ℕ → ℕ → ℕ → ℕ
  unfolding shifted
  write_word phy r value =
      bit_or
        (bit_or
          (bit_or (bit_or reg.phymntnc_op reg.phymntnc_op_w) (shifted phy reg.phymntnc_phad_shift))
          (shifted r reg.phymntnc_preg_shift))
        value

  -- The word written to the PHY maintenance register, and the result: `none` is -1. `answer` is what
  -- that register reads at the end.
  unfoldable pub miibus_readreg : (ℕ → Bool) → ℕ → ℕ → ℕ → Outcome (ℕ × Option ℕ)
  unfolding mdio_wait read_word
  miibus_readreg idle answer phy r = mdio_wait 201 idle 0 >>= λ ok.
      returns (read_word phy r, if ok then some (bit_and answer 0xFFFF) else none)

  -- the same for a write: the Boolean is false on -1
  unfoldable pub miibus_writereg : (ℕ → Bool) → ℕ → ℕ → ℕ → Outcome (ℕ × Bool)
  unfolding mdio_wait write_word
  miibus_writereg idle phy r value =
      mdio_wait 201 idle 0 >>= λ ok. returns (write_word phy r value, ok)
