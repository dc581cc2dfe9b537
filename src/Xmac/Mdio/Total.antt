-- ===== src/Xmac/Mdio/Total.antt =====
-- An MDIO access ends, and how.
use phytium_sdk.Prelude.{
  ℕ, zero, suc, ◌+◌, ◌≤◌, ◌<◌, ◌≡◌, ◌==◌, Bool, true, false, bit_and, none, some, arith, returns,
  inl, inr, Bool-cases, refl,
}
use phytium_sdk.Xmac.Softc.{XmacReg}
use phytium_sdk.Xmac.Mdio.{mdio_wait, read_word, write_word, miibus_readreg, miibus_writereg}

mdio_wait-idle :
    (fuel : ℕ) (idle : ℕ → Bool) (k n : ℕ)
    → k ≤ n
    → n ≤ 200
    → n < k + fuel
    → idle n ≡ true
    → mdio_wait fuel idle k ≡ returns true
unfolding mdio_wait
mdio_wait-idle zero idle k n kn small enough ready = absurd (omega arith)
mdio_wait-idle (suc fuel) idle k n kn small enough ready = elim (Bool-cases (k == n)) [
  | inl e ↦ ground arith
  | inr e ↦ ground (arith, mdio_wait-idle fuel idle (suc k) n)
]

mdio_wait-busy :
    (fuel : ℕ) (idle : ℕ → Bool) (k : ℕ)
    → k ≤ 200
    → 200 < k + fuel
    → ((j : ℕ) → j ≤ 200 → idle j ≡ false)
    → mdio_wait fuel idle k ≡ returns false
unfolding mdio_wait
mdio_wait-busy zero idle k small enough always = absurd (omega arith)
mdio_wait-busy (suc fuel) idle k small enough always =
    ground (arith, always k, mdio_wait-busy fuel idle (suc k))

-- A read of a PHY register always ends: it returns the low 16 bits of the maintenance register when
-- one of 201 polls finds the MDIO unit idle, and -1 when none of them does.
pub miibus_readreg_total :
    (reg : XmacReg) (idle : ℕ → Bool) (answer phy r : ℕ)
    → ((n : ℕ)
        → n ≤ 200
        → idle n ≡ true
        → miibus_readreg reg idle answer phy r
          ≡ returns (read_word reg phy r, some (bit_and answer 0xFFFF)))
      × (((j : ℕ) → j ≤ 200 → idle j ≡ false)
          → miibus_readreg reg idle answer phy r ≡ returns (read_word reg phy r, none))
unfolding miibus_readreg
miibus_readreg_total reg idle answer phy r = (
  λ n small ready. rw (mdio_wait-idle 201 idle 0 n (omega arith) small (omega arith) ready) refl,
  λ always. rw (mdio_wait-busy 201 idle 0 (omega arith) (omega arith) always) refl,
)

-- A write of a PHY register always ends: it succeeds when one of 201 polls finds the MDIO unit
-- idle, and returns -1 when none of them does.
pub miibus_writereg_total :
    (reg : XmacReg) (idle : ℕ → Bool) (phy r value : ℕ)
    → ((n : ℕ)
        → n ≤ 200
        → idle n ≡ true
        → miibus_writereg reg idle phy r value ≡ returns (write_word reg phy r value, true))
      × (((j : ℕ) → j ≤ 200 → idle j ≡ false)
          → miibus_writereg reg idle phy r value ≡ returns (write_word reg phy r value, false))
unfolding miibus_writereg
miibus_writereg_total reg idle phy r value = (
  λ n small ready. rw (mdio_wait-idle 201 idle 0 n (omega arith) small (omega arith) ready) refl,
  λ always. rw (mdio_wait-busy 201 idle 0 (omega arith) (omega arith) always) refl,
)
