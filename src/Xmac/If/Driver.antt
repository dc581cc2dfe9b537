-- ===== src/Xmac/If/Driver.antt =====
-- drivers/fxmac/phytium_xmac.c: `struct phytium_xmac_softc` as a whole, with what the driver keeps in
-- the interface. The lock is left out: each operation runs under it.
use phytium_sdk.Prelude.{ℕ, Bool, List, ◌∷◌}
use phytium_sdk.Xmac.Softc.{XmacSoftc, Mbuf}
use phytium_sdk.Xmac.Tx.Ring.{TxSide}

-- IFF_UP, IFF_PROMISC, IFF_BROADCAST and IFF_ALLMULTI of `if_getflags`
pub record IfFlags : Type 0 where
  pub up : Bool
  pub promisc : Bool
  pub broadcast : Bool
  pub allmulti : Bool

-- the registers that the interface writes
pub data NetReg : Type 0 where
  nwctrl nwcfg txsr rxsr isr ier idr hashl hashh dmacr sa1b sa1t tail_enable : NetReg
  txqbase rxqbase msbbuf_txqbase msbbuf_rxqbase : NetReg

pub record Driver : Type 0 where
  -- the receive side, the link and `net_cfg_shadow`
  pub rx : XmacSoftc
  pub tx : TxSide
  pub net_ctl_shadow : ℕ
  pub rxring_physaddr : ℕ
  pub txring_physaddr : ℕ
  pub rxoverruns : ℕ
  pub rxnobufs : ℕ
  -- `miibus` is not NULL
  pub has_miibus : Bool
  -- the callout of `tick_ch` is pending
  pub ticking : Bool
  -- IFF_DRV_RUNNING, the flags and `if_old_flags`
  pub running : Bool
  pub flags : IfFlags
  pub old_flags : IfFlags
  -- IFCAP_TXCSUM is enabled; IFCAP_RXCSUM is `rxcsum` of `rx`
  pub txcsum : Bool
  -- IFCAP_VLAN_HWCSUM, and XMAC_CKSUM_ASSIST of `if_hwassist`
  pub vlan_hwcsum : Bool
  pub hwassist : Bool
  -- `if_getlladdr`, and the multicast addresses that `if_foreach_llmaddr` visits
  pub eaddr : ℕ → ℕ
  pub multicast : List (ℕ → ℕ)
  -- the receive buffers freed by `m_freem`, and the registers written, newest first
  pub rx_freed : List Mbuf
  pub regs : List (NetReg × ℕ)

-- The masks of fxmac_hw.h that the interface uses.
pub record IfReg : Type 0 where
  pub nwcfg_mcasthashen : ℕ
  pub nwcfg_bcastdi : ℕ
  pub nwcfg_copyallen : ℕ
  pub nwcfg_bus_width_32 : ℕ
  pub nwcfg_bus_width_64 : ℕ
  pub nwcfg_bus_width_128 : ℕ
  pub nwcfg_bus_width_invalid : ℕ
  pub nwcfg_clock_div32 : ℕ
  pub nwcfg_clock_div224 : ℕ
  pub nwcfg_fcs_remove : ℕ
  pub nwcfg_rx_buf_offset : ℕ
  pub nwcfg_1536rxen : ℕ
  pub nwcfg_sgmii_mode_enable : ℕ
  pub nwcfg_pcssel : ℕ
  pub nwcfg_rxchksumen : ℕ
  pub designcfg_bus_width : ℕ
  pub nwctrl_statclr : ℕ
  pub nwctrl_mden : ℕ
  pub nwctrl_txen : ℕ
  pub nwctrl_rxen : ℕ
  pub nwctrl_flush_dpram : ℕ
  -- `FXMAC_DMA_CFG_RX_BUF_SIZE(MCLBYTES)` and the other masks of the DMA configuration
  pub dma_rx_buf_size : ℕ
  pub dmacr_rxsize : ℕ
  pub dmacr_txsize : ℕ
  pub dmacr_incr16_burst : ℕ
  pub dmacr_addr_width_64 : ℕ
  pub dmacr_orce_discard : ℕ
  pub dmacr_tcpcksum : ℕ
  pub ixr_rxcompl : ℕ
  pub ixr_rxovr : ℕ
  pub ixr_txused : ℕ
  pub ixr_rxused : ℕ
  pub ixr_hrespnok : ℕ
  pub rxsr_hrespnok : ℕ
  pub rxsr_rxovr : ℕ

-- `FXMAC_WRITEREG32`
unfoldable pub write_reg : NetReg → ℕ → Driver → Driver
write_reg r v d = record d { regs = (r, v) ∷ d.regs }

unfoldable pub set_net_cfg : ℕ → Driver → Driver
set_net_cfg cfg d = record d { rx = record (d.rx) { net_cfg_shadow = cfg } }

unfoldable pub set_net_ctl : ℕ → Driver → Driver
set_net_ctl ctl d = record d { net_ctl_shadow = ctl }
