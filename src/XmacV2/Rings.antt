-- ===== src/XmacV2/Rings.antt =====
-- drivers/fxmac_v2_0/phytium_xmac_v2.c: the parts that are drivers/fxmac/phytium_xmac.c under other names,
-- with the masks of the FXmacMsg headers. They differ in the wrap bit of a receive buffer's address,
-- in the checksum bits of a received packet, and in how the device is told of a packet to send.
use phytium_sdk.Prelude.{ℕ, ◌^◌, List, ◌∷◌, Option, Outcome}
use phytium_sdk.Xmac.Softc.{XmacSoftc, XmacReg, Mbuf}
use phytium_sdk.Xmac.Rx.{setup_rx_descs, fill_rqueue, recv}
use phytium_sdk.Xmac.Tx.Chain.{TxMbuf, Segment, get_segs_for_tx}
use phytium_sdk.Xmac.Tx.Ring.{TxSide, TxReg, TxPacket, tx_ptr, setup_tx_descs, clean_tx}
use phytium_sdk.Xmac.Tx.Output.{Kick, start_locked}
use phytium_sdk.Xmac.If.Hash.{mac_hash}
use phytium_sdk.Xmac.If.Filter.{Hashes, hash_maddr}
use phytium_sdk.Xmac.If.Clear.{stop_tx, stop_rx}

unfoldable pub msg_setup_rx_descs : XmacReg → XmacSoftc → XmacSoftc
msg_setup_rx_descs reg s = setup_rx_descs reg s

unfoldable pub msg_setup_tx_descs : TxReg → TxSide → TxSide
msg_setup_tx_descs reg s = setup_tx_descs reg s

-- The last address word has `FXMAC_MSG_RXBUF_WRAP_MASK`.
unfoldable pub msg_fill_rqueue : XmacReg → (ℕ → Option Mbuf) → XmacSoftc → Outcome XmacSoftc
msg_fill_rqueue reg alloc s = fill_rqueue reg.rxbuf_wrap alloc s

-- `BIT(23)` says that the data's checksum is right, and `BIT(22)` that that of IP is.
unfoldable pub msg_recv : XmacReg → (ℕ → Option Mbuf) → XmacSoftc → Outcome XmacSoftc
msg_recv reg alloc s =
    recv (record reg { rxbuf_id3match = 2 ^ 23; rxbuf_id2match = 2 ^ 22 }) reg.rxbuf_wrap alloc s

unfoldable pub msg_clean_tx : TxReg → TxSide → Outcome TxSide
msg_clean_tx reg s = clean_tx reg s

unfoldable pub msg_get_segs_for_tx : TxMbuf → List TxMbuf → Option (List Segment)
msg_get_segs_for_tx m rest = get_segs_for_tx m rest

-- `FXMAC_MSG_WRITE(instance_p, FXMAC_MSG_TX_PTR(0), sc->txring_hd_ptr)`
unfoldable pub write_tx_ptr : Kick
write_tx_ptr hd kicks = (tx_ptr, hd) ∷ kicks

unfoldable pub msg_start_locked : TxReg → (TxPacket → Option TxPacket) → TxSide → Outcome TxSide
msg_start_locked reg m_defrag s = start_locked reg write_tx_ptr m_defrag s

unfoldable pub msg_mac_hash : (ℕ → ℕ) → Outcome ℕ
msg_mac_hash eaddr = mac_hash eaddr

unfoldable pub msg_hash_maddr : (ℕ → ℕ) → Hashes → Outcome Hashes
msg_hash_maddr eaddr hs = hash_maddr eaddr hs

-- the transmit and the receive queue are cleared
unfoldable pub msg_stop_tx : TxReg → TxSide → TxSide
msg_stop_tx reg s = stop_tx reg s

unfoldable pub msg_stop_rx : XmacReg → XmacSoftc × List Mbuf → XmacSoftc × List Mbuf
msg_stop_rx reg r = stop_rx reg r
