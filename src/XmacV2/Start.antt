-- ===== src/XmacV2/Start.antt =====
-- drivers/fxmac_v2_0/phytium_xmac_v2.c: `phytium_xmac_msg_reset`, `phytium_xmac_msg_config`,
-- `phytium_xmac_msg_init_locked` and `phytium_xmac_msg_stop`, and the end of the set-up of the rings.
-- `alloc k` is the answer of the k-th call of `m_getcl`.
use phytium_sdk.Prelude.{
  ℕ, ◌-◌, ◌/◌, ◌==◌, Bool, true, false, not, Option, bit_and, bit_or, if◌then◌else◌, Outcome,
  returns, ◌>>=◌,
}
use phytium_sdk.Xmac.Softc.{XmacSoftc, XmacReg, Mbuf}
use phytium_sdk.Xmac.Tx.Ring.{TxReg}
use phytium_sdk.XmacV2.Driver.{
  MsgDriver, MsgReg, write_rx_ptr, write_int_dr, write_int_er, set_queue_ptr_recv,
  set_queue_ptr_send, reset_hw, interface_linkup, enable_multicast, enable_mdio, set_mac_address,
  cmd_set_dma, cmd_set_mdc, cmd_set_rx_data_offset, cmd_set_enable_stripcrc,
  cmd_set_enable_1536_frames, cmd_set_init_all, cmd_set_enable_rxcsum, cmd_set_init_tx_ring,
  cmd_set_init_rx_ring, cmd_set_dma_rx_bufsize, cmd_set_init_tx_enable_transmit,
  cmd_set_init_rx_enable_receive, bit, tell, tell_if,
}
use phytium_sdk.XmacV2.Rings.{
  msg_fill_rqueue, msg_setup_rx_descs, msg_setup_tx_descs, msg_stop_tx, msg_stop_rx,
}

-- `if (b) caps |= cap`
unfoldable pub add_cap : Bool → ℕ → ℕ → ℕ
add_cap b cap caps = if b then bit_or caps cap else caps

-- the end of `phytium_xmac_msg_setup_descs`
unfoldable pub msg_setup_descs : XmacReg → TxReg → MsgDriver → MsgDriver
unfolding tell msg_setup_rx_descs msg_setup_tx_descs
msg_setup_descs xreg txreg d = tell (set_queue_ptr_send d.txring_physaddr) (
    tell (set_queue_ptr_recv d.rxring_physaddr)
      (record d { rx = msg_setup_rx_descs xreg d.rx; tx = msg_setup_tx_descs txreg d.tx }))

module _ (reg : MsgReg) where
  -- `dma.hw_dma_cap`, with checksums if `csum`
  unfoldable pub dma_caps : Bool → MsgDriver → ℕ
  unfolding add_cap
  dma_caps csum d =
      let i = d.instance_p in
      add_cap (i.dma_data_width == reg.dbw128) reg.hw_dma_cap_ddw128 (
        add_cap (i.dma_data_width == reg.dbw64) reg.hw_dma_cap_ddw64 (
          add_cap (i.dma_data_width == reg.dbw32) reg.hw_dma_cap_ddw32 (
            add_cap csum reg.hw_dma_cap_csum
              (add_cap (not (i.dma_addr_width == 0)) reg.hw_dma_cap_64b 0))))

  unfoldable pub msg_reset : MsgDriver → MsgDriver
  unfolding dma_caps tell
  msg_reset d =
      let i = d.instance_p in
      let csum = not (bit_and i.network_default_config reg.tx_chksum_enable_option == 0) in
      let a = tell reset_hw (tell (write_rx_ptr (bit 7 - 1)) d) in
      let b =
        tell (write_int_dr 0x7FFFEFF) (tell (cmd_set_dma i.dma_burst_length (dma_caps csum d)) a) in
      tell (enable_mdio true) (tell (cmd_set_mdc reg.clk_div128) (tell (enable_multicast false) b))

  -- the network configuration of `phytium_xmac_msg_config`
  unfoldable pub config_net : MsgDriver → MsgDriver
  unfolding tell tell_if
  config_net d =
      let a = tell cmd_set_enable_stripcrc (tell cmd_set_rx_data_offset d) in
      let b = tell cmd_set_enable_1536_frames (tell interface_linkup a) in
      tell_if d.rx.rxcsum cmd_set_enable_rxcsum
        (tell_if (d.rx.phy_contype == reg.contype_sgmii) cmd_set_init_all b)

  -- the queues
  unfoldable pub config_rings : MsgDriver → MsgDriver
  unfolding tell dma_caps
  config_rings d =
      let i = d.instance_p in
      let a = tell (cmd_set_dma i.dma_burst_length (dma_caps d.txcsum d)) d in
      let b = tell (cmd_set_init_tx_ring 1 reg.hw_dma_cap_64b d.txring_physaddr) a in
      tell (cmd_set_init_rx_ring 1 reg.hw_dma_cap_64b d.rxring_physaddr)
        (tell (cmd_set_dma_rx_bufsize i.queues_num (i.rx_buffer_len / 64)) b)

  -- the interrupts that are enabled
  unfoldable pub msg_interrupts : ℕ
  msg_interrupts =
      bit_or
        (bit_or
          (bit_or (bit_or (bit reg.rxcomp_index) (bit reg.rxoverrun_index)) (bit reg.tused_index))
          (bit reg.rused_index))
        (bit reg.resp_err_index)

  unfoldable pub msg_config : MsgDriver → MsgDriver
  unfolding config_net config_rings msg_interrupts tell
  msg_config d =
      let a = config_rings (config_net d) in
      let b = tell cmd_set_init_rx_enable_receive (tell cmd_set_init_tx_enable_transmit a) in
      tell (write_int_er msg_interrupts) (tell (set_mac_address d.eaddr) b)

  module _ (xreg : XmacReg) where
    -- `mii_mediachg` is what the PHY drivers do with the link
    unfoldable pub msg_init_locked :
        (XmacSoftc → XmacSoftc) → (ℕ → Option Mbuf) → MsgDriver → Outcome MsgDriver
    unfolding msg_config msg_fill_rqueue
    msg_init_locked mii_mediachg alloc d =
        if d.running
        then returns d
        else let c = msg_config d in
          msg_fill_rqueue xreg alloc c.rx >>= λ rx. returns (record c {
            rx = if c.has_miibus then mii_mediachg rx else rx;
            tx = record (c.tx) { oactive = false };
            running = true;
            ticking = true;
          })

    module _ (txreg : TxReg) where
      unfoldable pub msg_stop : MsgDriver → MsgDriver
      unfolding msg_reset msg_stop_tx msg_stop_rx
      msg_stop d =
          let t = msg_reset (record d { ticking = false }) in
          let r = msg_stop_rx xreg (t.rx, t.rx_freed) in
          record t {
            tx = msg_stop_tx txreg t.tx;
            rx = record (r.0) { mii_media_active = 0 };
            rx_freed = r.1;
          }
