-- ===== src/Xmac/If/Caps.antt =====
-- SIOCSIFCAP sets the capabilities that are asked for.
use phytium_sdk.Prelude.{
  ℕ, ◌^◌, ◌-◌, ◌≡◌, refl, ap, ◌∙◌, Bool, true, false, ◌&&◌, returns, if◌then◌else◌, arith, bit_or,
  bit_and,
}
use phytium_sdk.Bits.{testb, differs}
use phytium_sdk.Bits.Laws.{testb-bit_or, testb-bit_and, testb-pow}
use phytium_sdk.Bits.Complement.{testb-complement}
use phytium_sdk.Xmac.Softc.{XmacSoftc, XmacReg}
use phytium_sdk.Xmac.Media.{clear}
use phytium_sdk.Xmac.Tx.Ring.{has, TxReg}
use phytium_sdk.Xmac.If.Driver.{Driver, IfReg, write_reg}
use phytium_sdk.Xmac.If.Accept.{has-mask}
use phytium_sdk.Xmac.If.Ioctl.{IoctlCalls, siocsifcap, set_caps, set_txcsum, set_rxcsum, ioctl}

-- what SIOCSIFCAP makes of the driver
pub record HasCaps (reg : IfReg) (tx_asked rx_asked : Bool) (t : Driver) : Type 0 where
  pub same_tx : t.txcsum ≡ tx_asked
  pub same_rx : t.rx.rxcsum ≡ rx_asked
  pub assists : t.hwassist ≡ tx_asked
  pub vlan : t.vlan_hwcsum ≡ (rx_asked && tx_asked)
  pub checks : has t.rx.net_cfg_shadow reg.nwcfg_rxchksumen ≡ rx_asked

differs-false : (a b : Bool) → differs a b ≡ false → a ≡ b
differs-false true true e = refl
differs-false true false e = cc
differs-false false true e = cc
differs-false false false e = refl

pick :
    (P : Driver → Type 0) (b : Bool) {x y : Driver}
    → P x
    → (b ≡ false → P y)
    → P (if b then x else y)
pick P true f g = f
pick P false f g = g refl

-- what the transmit half of SIOCSIFCAP makes of the driver
record HasTxCaps (tx_asked : Bool) (d t : Driver) : Type 0 where
  same_tx : t.txcsum ≡ tx_asked
  assists : t.hwassist ≡ tx_asked
  same_side : t.rx ≡ d.rx

record HasRxCaps (reg : IfReg) (rx_asked : Bool) (d t : Driver) : Type 0 where
  same_rx : t.rx.rxcsum ≡ rx_asked
  checks : has t.rx.net_cfg_shadow reg.nwcfg_rxchksumen ≡ rx_asked
  same_tx : t.txcsum ≡ d.txcsum
  same_assist : t.hwassist ≡ d.hwassist

module _ (reg : IfReg) (bit : reg.nwcfg_rxchksumen ≡ 2 ^ 24) where
  checks_set :
      (on : Bool) (cfg : ℕ)
      → has
          (if on then bit_or cfg reg.nwcfg_rxchksumen else clear cfg reg.nwcfg_rxchksumen)
          reg.nwcfg_rxchksumen
        ≡ on
  unfolding clear
  checks_set true cfg =
      has-mask _ 24 bit
      ∙ ap (λ m. testb (bit_or cfg m) 24) bit
      ∙ ground (arith, testb-bit_or cfg (2 ^ 24) 24, testb-pow 24 24)
  checks_set false cfg =
      has-mask _ 24 bit
      ∙ ap (λ m. testb (bit_and cfg (2 ^ 32 - 1 - m)) 24) bit
      ∙ ground (
        arith,
        testb-bit_and cfg (2 ^ 32 - 1 - 2 ^ 24) 24,
        testb-complement 32 (2 ^ 24) 24 (omega arith),
        testb-pow 24 24,
      )

  set_rxcsum-HasRxCaps : (on : Bool) (d : Driver) → HasRxCaps reg on d (set_rxcsum reg on d)
  unfolding set_rxcsum write_reg
  set_rxcsum-HasRxCaps on d = record {
    same_rx = refl;
    checks = checks_set on d.rx.net_cfg_shadow;
    same_tx = refl;
    same_assist = refl;
  }

  set_txcsum-HasTxCaps :
      (dmacr_value : ℕ) (on : Bool) (d : Driver) → HasTxCaps on d (set_txcsum reg dmacr_value on d)
  unfolding set_txcsum write_reg
  set_txcsum-HasTxCaps dmacr_value on d = record {
    same_tx = refl;
    assists = refl;
    same_side = refl;
  }

  module _ (xreg : XmacReg) (txreg : TxReg) (calls : IoctlCalls) (tx_asked rx_asked : Bool)
      (d : Driver) (assisting : d.hwassist ≡ d.txcsum)
      (checking : has d.rx.net_cfg_shadow reg.nwcfg_rxchksumen ≡ d.rx.rxcsum) where
    set_caps-HasCaps :
        (dmacr_value : ℕ)
        → HasCaps reg tx_asked rx_asked (set_caps reg dmacr_value tx_asked rx_asked d)
    unfolding set_caps
    set_caps-HasCaps dmacr_value =
        let t = if differs d.txcsum tx_asked then set_txcsum reg dmacr_value tx_asked d else d in
        let f : HasTxCaps tx_asked d t =
          pick (λ t. HasTxCaps tx_asked d t) (differs d.txcsum tx_asked)
            (set_txcsum-HasTxCaps dmacr_value tx_asked d)
            (λ same. record {
              same_tx = differs-false d.txcsum tx_asked same;
              assists = assisting ∙ differs-false d.txcsum tx_asked same;
              same_side = refl;
            }) in
        let u = if differs d.rx.rxcsum rx_asked then set_rxcsum reg rx_asked t else t in
        let g : HasRxCaps reg rx_asked t u =
          pick (λ u. HasRxCaps reg rx_asked t u) (differs d.rx.rxcsum rx_asked)
            (set_rxcsum-HasRxCaps rx_asked t)
            (λ same. record {
              same_rx =
                  ap (λ (s : XmacSoftc). s.rxcsum) f.same_side
                  ∙ differs-false d.rx.rxcsum rx_asked same;
              checks =
                  ap (λ (s : XmacSoftc). has s.net_cfg_shadow reg.nwcfg_rxchksumen) f.same_side
                  ∙ checking
                  ∙ differs-false d.rx.rxcsum rx_asked same;
              same_tx = refl;
              same_assist = refl;
            }) in
        record {
          same_tx = g.same_tx ∙ f.same_tx;
          same_rx = g.same_rx;
          assists = g.same_assist ∙ f.assists;
          vlan =
              ap (λ a. a && u.txcsum) g.same_rx ∙ ap (λ b. rx_asked && b) (g.same_tx ∙ f.same_tx);
          checks = g.checks;
        }

    -- SIOCSIFCAP succeeds, and afterwards checksums are offloaded as asked for in both directions, the
    -- stack is told that transmission assists, checksums under VLAN are offered exactly when both
    -- are on, and the bit of the network configuration for received checksums agrees. Before, the
    -- assistance and that bit agree with the capabilities, and the bit is that of the manual.
    pub ioctl-HasCaps :
        (t : Driver) × (ioctl reg xreg txreg calls (siocsifcap tx_asked rx_asked) d
          ≡ returns (0, t))
        × HasCaps reg tx_asked rx_asked t
    unfolding ioctl
    ioctl-HasCaps = (_, refl, set_caps-HasCaps calls.dmacr_value)
