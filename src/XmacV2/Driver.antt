-- ===== src/XmacV2/Driver.antt =====
-- drivers/fxmac_v2_0/phytium_xmac_v2.c: `struct phytium_xmac_msg_softc`, with what the driver keeps in
-- the interface and the calls of the FXmacMsg layer. The lock is left out: each operation runs under
-- it. The rings are those of the first driver.
use phytium_sdk.Prelude.{ℕ, ◌^◌, Bool, List, ◌∷◌, if◌then◌else◌}
use phytium_sdk.Xmac.Softc.{XmacSoftc, Mbuf}
use phytium_sdk.Xmac.Tx.Ring.{TxSide}
use phytium_sdk.Xmac.If.Driver.{IfFlags}

-- The calls of the FXmacMsg layer and the registers written: a message is named for its sub-command.
pub data Message : Type 0 where
  -- `FXMAC_MSG_RX_PTR(0)` and the interrupt registers
  write_rx_ptr write_int_sr write_int_dr write_int_er : ℕ → Message
  set_queue_ptr_recv set_queue_ptr_send : ℕ → Message
  reset_hw interface_linkup : Message
  enable_multicast enable_mdio enable_promise : Bool → Message
  enable_txcsum enable_rxcsum : Bool → Message
  set_mc_hash : ℕ → ℕ → Message
  set_mac_address : (ℕ → ℕ) → Message
  -- the burst length and the capabilities
  cmd_set_dma : ℕ → ℕ → Message
  cmd_set_mdc : ℕ → Message
  cmd_set_rx_data_offset cmd_set_enable_stripcrc cmd_set_enable_1536_frames : Message
  cmd_set_init_all cmd_set_enable_rxcsum : Message
  -- the number of queues, the capabilities and the address of the first queue
  cmd_set_init_tx_ring cmd_set_init_rx_ring : ℕ → ℕ → ℕ → Message
  -- the number of queues and the size in units of 64 bytes
  cmd_set_dma_rx_bufsize : ℕ → ℕ → Message
  cmd_set_init_tx_enable_transmit cmd_set_init_rx_enable_receive : Message
  mdio_read : ℕ → ℕ → Message
  mdio_write : ℕ → ℕ → ℕ → Message

-- the fields of `FXmacMsgCtrl` that the driver reads
pub record Instance : Type 0 where
  pub dma_burst_length : ℕ
  pub dma_addr_width : ℕ
  pub dma_data_width : ℕ
  pub network_default_config : ℕ
  pub queues_num : ℕ
  pub rx_buffer_len : ℕ

pub record MsgDriver : Type 0 where
  pub instance_p : Instance
  -- the receive side with the link, and the transmit side
  pub rx : XmacSoftc
  pub tx : TxSide
  pub rxring_physaddr : ℕ
  pub txring_physaddr : ℕ
  pub rxoverruns : ℕ
  pub rxnobufs : ℕ
  -- `miibus` is not NULL
  pub has_miibus : Bool
  -- the callout of `tick_ch` is pending
  pub ticking : Bool
  -- IFF_DRV_RUNNING, the flags and `if_old_flags`
  pub running : Bool
  pub flags : IfFlags
  pub old_flags : IfFlags
  -- IFCAP_TXCSUM is enabled; IFCAP_RXCSUM is `rxcsum` of `rx`
  pub txcsum : Bool
  -- IFCAP_VLAN_HWCSUM, and XMAC_MSG_CKSUM_ASSIST of `if_hwassist`
  pub vlan_hwcsum : Bool
  pub hwassist : Bool
  -- `if_getlladdr`, and the multicast addresses that `if_foreach_llmaddr` visits
  pub eaddr : ℕ → ℕ
  pub multicast : List (ℕ → ℕ)
  -- the receive buffers freed by `m_freem`, and the calls made, newest first
  pub rx_freed : List Mbuf
  pub messages : List Message

-- The numbers of the FXmacMsg headers, which are not in the repository.
pub record MsgReg : Type 0 where
  pub hw_dma_cap_64b : ℕ
  pub hw_dma_cap_csum : ℕ
  pub hw_dma_cap_ddw32 : ℕ
  pub hw_dma_cap_ddw64 : ℕ
  pub hw_dma_cap_ddw128 : ℕ
  pub dbw32 : ℕ
  pub dbw64 : ℕ
  pub dbw128 : ℕ
  pub tx_chksum_enable_option : ℕ
  pub clk_div128 : ℕ
  pub contype_sgmii : ℕ
  -- the numbers of the bits of the interrupt registers
  pub rxcomp_index : ℕ
  pub rxoverrun_index : ℕ
  pub tused_index : ℕ
  pub rused_index : ℕ
  pub resp_err_index : ℕ

-- `BIT(k)`
abbrev pub bit : ℕ → ℕ
bit k = 2 ^ k

unfoldable pub tell : Message → MsgDriver → MsgDriver
tell m d = record d { messages = m ∷ d.messages }

-- a call under a condition
unfoldable pub tell_if : Bool → Message → MsgDriver → MsgDriver
tell_if b m d = record d { messages = if b then m ∷ d.messages else d.messages }
