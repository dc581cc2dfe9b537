-- ===== src/Xmac/Softc.antt =====
-- drivers/fxmac/phytium_xmac.c: the receive side and the link of `struct phytium_xmac_softc`, with the
-- counters of the interface, the packets handed to the stack and the registers written.
use phytium_sdk.Prelude.{ℕ, Bool, List, Option}

-- an mbuf with a cluster: its address, and the address of its data
pub record Mbuf : Type 0 where
  pub name : ℕ
  pub data_addr : ℕ

-- `struct phytium_xmac_rx_desc`
pub record RxDesc : Type 0 where
  pub addr : ℕ
  pub ctl : ℕ
  pub addrhi : ℕ

-- what the hardware checked of a packet: `csum_flags` and `csum_data`
pub data Checksum : Type 0 where
  unchecked ip_checked ip_and_data_checked : Checksum

pub record Packet : Type 0 where
  pub mbuf : Mbuf
  pub packet_data : ℕ
  pub packet_len : ℕ
  pub checksum : Checksum

-- `FXMAC_NWCFG_OFFSET`, `FXMAC_GEM_HSMAC` and the clock registers, `FXMAC_GEM_*`
pub data ClockReg : Type 0 where
  nwcfg hsmac src_sel_ln div_sel0_ln div_sel1_ln pma_xcvr_power_state : ClockReg
  tx_clk_sel0 tx_clk_sel1 tx_clk_sel2 tx_clk_sel3 rx_clk_sel0 rx_clk_sel1 : ClockReg
  tx_clk_sel3_0 tx_clk_sel4_0 rx_clk_sel3_0 rx_clk_sel4_0 : ClockReg

pub record XmacSoftc : Type 0 where
  -- the descriptor ring and `rxring_m`, by index; `none` is NULL
  pub rxring : ℕ → RxDesc
  pub rxring_m : ℕ → Option Mbuf
  pub rxring_hd_ptr : ℕ
  pub rxring_tl_ptr : ℕ
  pub rxring_queued : ℕ
  pub rxbufs : ℕ
  -- IFCAP_RXCSUM is enabled
  pub rxcsum : Bool
  -- IFCOUNTER_IERRORS, IFCOUNTER_IPACKETS, and the packets of `if_input`, in order
  pub ierrors : ℕ
  pub ipackets : ℕ
  pub input : List Packet
  -- the link: `version`, `phy_contype`, `net_cfg_shadow` and `mii_media_active`
  pub version : ℕ
  pub phy_contype : ℕ
  pub net_cfg_shadow : ℕ
  pub mii_media_active : ℕ
  -- the writes to the registers of the link and its clocks, newest first
  pub writes : List (ClockReg × ℕ)

-- `XMAC_NUM_RX_DESCS`
abbrev pub xmac_num_rx_descs : ℕ
xmac_num_rx_descs = 512

-- The numbers of fxmac_hw.h and fxmac_bd.h, which are not in the repository, and `ETHER_ALIGN`.
pub record XmacReg : Type 0 where
  pub rxbuf_new : ℕ
  pub rxbuf_wrap : ℕ
  pub rxbuf_fcs_status : ℕ
  pub rxbuf_sof : ℕ
  pub rxbuf_eof : ℕ
  pub rxbuf_len : ℕ
  pub rxbuf_idmatch : ℕ
  pub rxbuf_id2match : ℕ
  pub rxbuf_id3match : ℕ
  pub ether_align : ℕ
  pub phymntnc_op : ℕ
  pub phymntnc_op_r : ℕ
  pub phymntnc_op_w : ℕ
  pub phymntnc_phad_shift : ℕ
  pub phymntnc_preg_shift : ℕ
  pub nwcfg_100 : ℕ
  pub nwcfg_1000 : ℕ
  pub nwcfg_fden : ℕ
  pub hsmac_speed : ℕ
  pub contype_sgmii : ℕ
  -- `IFM_SUBTYPE`, `IFM_1000_T`, `IFM_100_TX` and `IFM_FDX` of FreeBSD's if_media.h
  pub ifm_subtype : ℕ → ℕ
  pub ifm_1000_t : ℕ
  pub ifm_100_tx : ℕ
  pub ifm_fdx : ℕ
