-- ===== src/Xmac/If/Start.antt =====
-- drivers/fxmac/phytium_xmac.c: `phytium_xmac_reset`, `phytium_xmac_config`, `phytium_xmac_init_locked` and
-- `phytium_xmac_stop`. `alloc k` is the answer of the k-th call of `m_getcl`; what the registers read is
-- an argument.
use phytium_sdk.Prelude.{
  ℕ, ◌+◌, ◌*◌, ◌/◌, ◌%◌, ◌^◌, ◌==◌, true, false, ◌∷◌, Option, bit_and, bit_or, if◌then◌else◌,
  Outcome, returns, ◌>>=◌,
}
use phytium_sdk.Xmac.Softc.{XmacSoftc, XmacReg, Mbuf}
use phytium_sdk.Xmac.Rx.{rx_wrap, fill_rqueue}
use phytium_sdk.Xmac.Tx.Ring.{TxReg}
use phytium_sdk.Xmac.If.Driver.{
  Driver, IfReg, nwctrl, nwcfg, txsr, rxsr, ier, idr, hashl, hashh, dmacr, sa1b, sa1t, tail_enable,
  txqbase, rxqbase, msbbuf_txqbase, msbbuf_rxqbase, set_net_cfg, set_net_ctl,
}
use phytium_sdk.Xmac.If.Clear.{stop_tx, stop_rx}

module _ (reg : IfReg) where
  -- `designcfg` is what `FXMAC_DESIGNCFG_DEBUG1_OFFSET` reads
  unfoldable pub bus_width_cfg : ℕ → ℕ
  bus_width_cfg designcfg =
      let width = bit_and designcfg reg.designcfg_bus_width / 2 ^ 25 in
      if width == 4
      then reg.nwcfg_bus_width_128
      else if width == 2
      then reg.nwcfg_bus_width_64
      else reg.nwcfg_bus_width_32

  unfoldable pub reset : ℕ → Driver → Driver
  unfolding bus_width_cfg set_net_cfg set_net_ctl
  reset designcfg d =
      let cfg = bus_width_cfg designcfg in
      let cfg_div = bit_or cfg reg.nwcfg_clock_div32 in
      let writes =
        (nwctrl, reg.nwctrl_mden)
        ∷ (nwcfg, cfg_div)
        ∷ (rxqbase, 0)
        ∷ (txqbase, 0)
        ∷ (hashh, 0)
        ∷ (hashl, 0)
        ∷ (idr, 134217471)
        ∷ (rxsr, 15)
        ∷ (txsr, 511)
        ∷ (nwctrl, reg.nwctrl_statclr)
        ∷ (nwcfg, cfg)
        ∷ (nwctrl, 0)
        ∷ d.regs in
      record (set_net_ctl reg.nwctrl_mden (set_net_cfg cfg_div d)) {
        regs = if d.rx.version == 2 then (tail_enable, 2 ^ 31 + 1) ∷ writes else writes;
      }

  module _ (xreg : XmacReg) where
    -- `net_cfg_shadow` when the interface starts
    unfoldable pub config_cfg : Driver → ℕ
    config_cfg d =
        let kept =
          bit_and d.rx.net_cfg_shadow (bit_or reg.nwcfg_clock_div224 reg.nwcfg_bus_width_invalid) in
        let basic = bit_or kept (
          bit_or
            (bit_or
              (bit_or (bit_or (bit_or reg.nwcfg_fcs_remove reg.nwcfg_rx_buf_offset) xreg.nwcfg_1000)
                reg.nwcfg_1536rxen)
              xreg.nwcfg_fden)
            xreg.nwcfg_100) in
        let linked =
          if d.rx.phy_contype == xreg.contype_sgmii
          then bit_or (bit_or basic reg.nwcfg_sgmii_mode_enable) reg.nwcfg_pcssel
          else basic in
        if d.rx.rxcsum then bit_or linked reg.nwcfg_rxchksumen else linked

    unfoldable pub dma_cfg : Driver → ℕ
    dma_cfg d =
        let basic =
          bit_or
            (bit_or
              (bit_or (bit_or (bit_or reg.dma_rx_buf_size reg.dmacr_rxsize) reg.dmacr_txsize)
                reg.dmacr_incr16_burst)
              reg.dmacr_addr_width_64)
            reg.dmacr_orce_discard in
        if d.txcsum then bit_or basic reg.dmacr_tcpcksum else basic

    -- the interrupts that are enabled
    unfoldable pub enabled_interrupts : ℕ
    enabled_interrupts =
        bit_or
          (bit_or (bit_or (bit_or reg.ixr_rxcompl reg.ixr_rxovr) reg.ixr_txused) reg.ixr_rxused)
          reg.ixr_hrespnok

    unfoldable pub config : Driver → Driver
    unfolding config_cfg dma_cfg set_net_cfg set_net_ctl enabled_interrupts
    config d =
        let cfg = config_cfg d in
        let ctl = bit_or d.net_ctl_shadow (bit_or reg.nwctrl_txen reg.nwctrl_rxen) in
        record (set_net_ctl ctl (set_net_cfg cfg d)) {
          regs =
              (ier, enabled_interrupts)
              ∷ (sa1t, bit_or (d.eaddr 5 * 2 ^ 8) (d.eaddr 4))
              ∷ (
                sa1b,
                bit_or
                    (bit_or (bit_or (d.eaddr 3 * 2 ^ 24) (d.eaddr 2 * 2 ^ 16)) (d.eaddr 1 * 2 ^ 8))
                    (d.eaddr 0),
              )
              ∷ (nwctrl, ctl)
              ∷ (msbbuf_txqbase, d.txring_physaddr / 2 ^ 32 % 2 ^ 32)
              ∷ (msbbuf_rxqbase, d.rxring_physaddr / 2 ^ 32 % 2 ^ 32)
              ∷ (txqbase, d.txring_physaddr % 2 ^ 32)
              ∷ (rxqbase, d.rxring_physaddr % 2 ^ 32)
              ∷ (dmacr, dma_cfg d)
              ∷ (nwcfg, cfg)
              ∷ d.regs;
        }

    -- `mii_mediachg` is what the PHY drivers do with the link
    unfoldable pub init_locked :
        (XmacSoftc → XmacSoftc) → (ℕ → Option Mbuf) → Driver → Outcome Driver
    unfolding config fill_rqueue
    init_locked mii_mediachg alloc d =
        if d.running
        then returns d
        else let c = config d in
          fill_rqueue rx_wrap alloc c.rx >>= λ rx. returns (record c {
            rx = if c.has_miibus then mii_mediachg rx else rx;
            tx = record (c.tx) { oactive = false };
            running = true;
            ticking = true;
          })

    module _ (txreg : TxReg) where
      unfoldable pub stop : ℕ → Driver → Driver
      unfolding reset stop_tx stop_rx
      stop designcfg d =
          let t = reset designcfg (record d { ticking = false }) in
          let r = stop_rx xreg (t.rx, t.rx_freed) in
          record t {
            tx = stop_tx txreg t.tx;
            rx = record (r.0) { mii_media_active = 0 };
            rx_freed = r.1;
          }
