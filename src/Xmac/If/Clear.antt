-- ===== src/Xmac/If/Clear.antt =====
-- drivers/fxmac/phytium_xmac.c: how `phytium_xmac_stop` clears the two rings.
use phytium_sdk.Prelude.{ℕ, zero, suc, ◌-◌, List, ◌∷◌, none, some, bit_or, update}
use phytium_sdk.Xmac.Softc.{XmacSoftc, XmacReg, Mbuf, xmac_num_rx_descs}
use phytium_sdk.Xmac.Tx.Ring.{TxSide, TxReg, xmac_num_tx_descs, m_freem}

-- one round of the loop of `stop` over the transmit ring
unfoldable pub stop_tx_one : TxReg → ℕ → TxSide → TxSide
unfolding m_freem
stop_tx_one reg i s =
    let t = m_freem (s.txring_m i) s in
    record t {
      txring = update t.txring i (record (t.txring i) { ctl = reg.txbuf_used });
      txring_m = update t.txring_m i none;
    }

-- its first `n` rounds
unfoldable pub stop_tx_loop : TxReg → ℕ → TxSide → TxSide
unfolding stop_tx_one
stop_tx_loop reg zero s = s
stop_tx_loop reg (suc n) s = stop_tx_one reg n (stop_tx_loop reg n s)

-- the transmit ring is cleared
unfoldable pub stop_tx : TxReg → TxSide → TxSide
unfolding stop_tx_loop
stop_tx reg s =
    let t =
      stop_tx_loop reg xmac_num_tx_descs
        (record s { txring = λ i. record { addr = 0; ctl = 0; addrhi = 0 } }) in
    let last = t.txring (xmac_num_tx_descs - 1) in
    record t {
      txring =
          update t.txring (xmac_num_tx_descs - 1)
            (record last { ctl = bit_or last.ctl reg.txbuf_wrap });
      hd_ptr = 0;
      tl_ptr = 0;
      queued = 0;
    }

-- one round of the loop of `stop` over the receive ring, with the buffers that are freed
unfoldable pub stop_rx_one : XmacReg → ℕ → XmacSoftc × List Mbuf → XmacSoftc × List Mbuf
stop_rx_one reg i (s, freed) = (
  record s {
    rxring = update s.rxring i (record (s.rxring i) { addr = reg.rxbuf_new });
    rxring_m = update s.rxring_m i none;
  },
  elim (s.rxring_m i) [ none ↦ freed | some m ↦ m ∷ freed ],
)

unfoldable pub stop_rx_loop : XmacReg → ℕ → XmacSoftc × List Mbuf → XmacSoftc × List Mbuf
unfolding stop_rx_one
stop_rx_loop reg zero s = s
stop_rx_loop reg (suc n) s = stop_rx_one reg n (stop_rx_loop reg n s)

-- the receive ring is cleared
unfoldable pub stop_rx : XmacReg → XmacSoftc × List Mbuf → XmacSoftc × List Mbuf
unfolding stop_rx_loop
stop_rx reg (s, freed) =
    let r =
      stop_rx_loop reg xmac_num_rx_descs
        (record s { rxring = λ i. record { addr = 0; ctl = 0; addrhi = 0 } }, freed) in
    let last = r.0.rxring (xmac_num_rx_descs - 1) in
    (
      record (r.0) {
        rxring =
            update r.0.rxring (xmac_num_rx_descs - 1)
              (record last { addr = bit_or last.addr reg.rxbuf_wrap });
        rxring_hd_ptr = 0;
        rxring_tl_ptr = 0;
        rxring_queued = 0;
      },
      r.1,
    )
