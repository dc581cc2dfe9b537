-- ===== src/XmacV2/Served.antt =====
-- The interrupt handler of the second driver returns and keeps both rings in order.
use phytium_sdk.Prelude.{
  ℕ, ◌^◌, ◌≡◌, not, List, [], ◌∷◌, Option, some, Outcome, returns, ◌>>=◌, arith, if◌then◌else◌,
}
use phytium_sdk.Xmac.Softc.{XmacReg, Mbuf}
use phytium_sdk.Xmac.Rx.Fill.{fill_rqueue-IsRefilled}
use phytium_sdk.Xmac.Rx.Recv.{recv-IsReceived}
use phytium_sdk.Xmac.Tx.Ring.{has, plus_one, TxPacket, TxReg}
use phytium_sdk.Xmac.Tx.Words.{IsTxLayout}
use phytium_sdk.Xmac.Tx.Sendable.{IsSendable}
use phytium_sdk.Xmac.Tx.Run.{clean_tx-IsSound, start_locked-IsSound}
use phytium_sdk.XmacV2.Driver.{MsgDriver, MsgReg, write_int_sr, bit, tell}
use phytium_sdk.XmacV2.Rings.{
  msg_fill_rqueue, msg_recv, msg_clean_tx, msg_start_locked, write_tx_ptr,
}
use phytium_sdk.XmacV2.Intr.{
  msg_received, msg_clear_errors, msg_refill, msg_restart, msg_serve, msg_intr,
}
use phytium_sdk.XmacV2.Ready.{
  MsgReady, KeepsMsgReady, returns-KeepsMsgReady, if-KeepsMsgReady, call-KeepsMsgReady, if-MsgReady,
  tell-MsgReady,
}

module _ (reg : MsgReg) (xreg : XmacReg) (txreg : TxReg) (l : IsTxLayout txreg)
    (m_defrag : TxPacket → Option TxPacket)
    (keeps : (p d : TxPacket) → m_defrag p ≡ some d → IsSendable d) where
  received-MsgReady :
      (istatus : ℕ) (alloc : ℕ → Option Mbuf) (d : MsgDriver)
      → MsgReady txreg d
      → KeepsMsgReady txreg (msg_received reg xreg txreg istatus alloc d)
  unfolding msg_received msg_recv tell
  received-MsgReady istatus alloc d f =
      let masks = record xreg { rxbuf_id3match = 2 ^ 23; rxbuf_id2match = 2 ^ 22 } in
      let (t, e, (taken, left, g)) =
        recv-IsReceived masks xreg.rxbuf_wrap alloc d.rx f.wanted f.rx_ring in
      if-KeepsMsgReady txreg (has istatus (bit reg.rxcomp_index))
        (call-KeepsMsgReady txreg _ e (
          returns-KeepsMsgReady txreg _ (record {
            rx_ring = g.ring;
            wanted = omega (arith, g.same_wanted, f.wanted);
            tx_sound = f.tx_sound;
          })))
        (returns-KeepsMsgReady txreg d f)

  clear_errors-MsgReady :
      (istatus : ℕ) (d : MsgDriver)
      → MsgReady txreg d
      → MsgReady txreg (msg_clear_errors reg xreg txreg istatus d)
  unfolding msg_clear_errors tell
  clear_errors-MsgReady istatus d f =
      let bad = tell (write_int_sr (bit reg.resp_err_index)) d in
      let t = if has istatus (bit reg.resp_err_index) then bad else d in
      let g = if-MsgReady txreg (has istatus (bit reg.resp_err_index)) bad d f f in
      if-MsgReady txreg (has istatus (bit reg.rxoverrun_index))
        (tell (write_int_sr (bit reg.rxoverrun_index))
          (record t { rxoverruns = plus_one t.rxoverruns }))
        t g g

  refill-MsgReady :
      (istatus : ℕ) (alloc : ℕ → Option Mbuf) (d : MsgDriver)
      → MsgReady txreg d
      → KeepsMsgReady txreg (msg_refill reg xreg txreg istatus alloc d)
  unfolding msg_refill msg_fill_rqueue tell
  refill-MsgReady istatus alloc d f =
      let (t, e, g) = fill_rqueue-IsRefilled xreg.rxbuf_wrap alloc d.rx f.wanted f.rx_ring in
      if-KeepsMsgReady txreg (has istatus (bit reg.rused_index))
        (call-KeepsMsgReady txreg _ e (
          returns-KeepsMsgReady txreg _ (record {
            rx_ring = g.ring;
            wanted = omega (arith, g.same_wanted, f.wanted);
            tx_sound = f.tx_sound;
          })))
        (returns-KeepsMsgReady txreg d f)

  restart-MsgReady :
      (d : MsgDriver)
      → MsgReady txreg d
      → KeepsMsgReady txreg (msg_restart reg xreg txreg m_defrag d)
  unfolding msg_restart msg_start_locked
  restart-MsgReady d f = restart_with d.tx.sendq
    where
      restart_with :
          (q : List TxPacket)
          → KeepsMsgReady txreg (elim q as (λ _. Outcome MsgDriver) [
            | [] ↦ returns d
            | _ ∷ _ ↦ msg_start_locked txreg m_defrag d.tx >>= λ tx. returns (record d { tx = tx })
          ])
      restart_with [] = returns-KeepsMsgReady txreg d f
      restart_with (p ∷ ps) =
          let (t, e, g) =
            start_locked-IsSound txreg l write_tx_ptr m_defrag keeps d.tx f.tx_sound in
          call-KeepsMsgReady txreg _ e (
            returns-KeepsMsgReady txreg _
              (record { rx_ring = f.rx_ring; wanted = f.wanted; tx_sound = g }))

  serve-MsgReady :
      (istatus : ℕ) (alloc alloc_more : ℕ → Option Mbuf) (d : MsgDriver)
      → MsgReady txreg d
      → KeepsMsgReady txreg (msg_serve reg xreg txreg istatus alloc alloc_more m_defrag d)
  unfolding msg_serve msg_clean_tx
  serve-MsgReady istatus alloc alloc_more d f =
      let (t, e, g) =
        received-MsgReady istatus alloc (tell (write_int_sr istatus) d)
          (tell-MsgReady txreg (write_int_sr istatus) d f) in
      let (tx, e', h) = clean_tx-IsSound txreg l write_tx_ptr m_defrag keeps t.tx g.tx_sound in
      let cleared =
        clear_errors-MsgReady istatus (record t { tx = tx })
          (record { rx_ring = g.rx_ring; wanted = g.wanted; tx_sound = h }) in
      let (u, e'', k) = refill-MsgReady istatus alloc_more _ cleared in
      call-KeepsMsgReady txreg _ e
        (call-KeepsMsgReady txreg _ e' (call-KeepsMsgReady txreg _ e'' (restart-MsgReady u k)))

  -- The interrupt handler returns, and leaves both rings in order.
  pub intr-MsgReady :
      (istatus : ℕ) (alloc alloc_more : ℕ → Option Mbuf) (d : MsgDriver)
      → MsgReady txreg d
      → KeepsMsgReady txreg (msg_intr reg xreg txreg istatus alloc alloc_more m_defrag d)
  unfolding msg_intr
  intr-MsgReady istatus alloc alloc_more d f =
      if-KeepsMsgReady txreg (not d.running) (returns-KeepsMsgReady txreg d f)
        (serve-MsgReady istatus alloc alloc_more d f)
