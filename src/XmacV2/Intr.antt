-- ===== src/XmacV2/Intr.antt =====
-- drivers/fxmac_v2_0/phytium_xmac_v2.c: `phytium_xmac_msg_intr`. `alloc k` is the answer of the k-th call
-- of `m_getcl`; the interrupt status is an argument.
use phytium_sdk.Prelude.{ℕ, not, [], ◌∷◌, Option, if◌then◌else◌, Outcome, returns, ◌>>=◌}
use phytium_sdk.Xmac.Softc.{XmacReg, Mbuf}
use phytium_sdk.Xmac.Tx.Ring.{has, TxReg, TxPacket, plus_one}
use phytium_sdk.XmacV2.Driver.{MsgDriver, MsgReg, write_int_sr, bit, tell}
use phytium_sdk.XmacV2.Rings.{msg_fill_rqueue, msg_recv, msg_clean_tx, msg_start_locked}

module _ (reg : MsgReg) (xreg : XmacReg) (txreg : TxReg) where
  -- packets received
  unfoldable pub msg_received : ℕ → (ℕ → Option Mbuf) → MsgDriver → Outcome MsgDriver
  unfolding msg_recv has tell
  msg_received istatus alloc d =
      if has istatus (bit reg.rxcomp_index)
      then (msg_recv xreg alloc d.rx >>= λ rx.
          returns (tell (write_int_sr (bit reg.rxcomp_index)) (record d { rx = rx })))
      else returns d

  -- bad DMA and an overrun of the receiver
  unfoldable pub msg_clear_errors : ℕ → MsgDriver → MsgDriver
  unfolding tell has plus_one
  msg_clear_errors istatus d =
      let t =
        (if has istatus (bit reg.resp_err_index)
          then tell (write_int_sr (bit reg.resp_err_index)) d
          else d) in
      if has istatus (bit reg.rxoverrun_index)
      then tell (write_int_sr (bit reg.rxoverrun_index))
          (record t { rxoverruns = plus_one t.rxoverruns })
      else t

  -- the receiver ran out of buffers
  unfoldable pub msg_refill : ℕ → (ℕ → Option Mbuf) → MsgDriver → Outcome MsgDriver
  unfolding tell has plus_one msg_fill_rqueue
  msg_refill istatus alloc d =
      if has istatus (bit reg.rused_index)
      then (msg_fill_rqueue xreg alloc d.rx >>= λ rx. returns (
          tell (write_int_sr (bit reg.rused_index))
            (record d { rx = rx; rxnobufs = plus_one d.rxnobufs })))
      else returns d

  unfoldable pub msg_restart : (TxPacket → Option TxPacket) → MsgDriver → Outcome MsgDriver
  unfolding msg_start_locked
  msg_restart m_defrag d = elim d.tx.sendq [
    | [] ↦ returns d
    | _ ∷ _ ↦ msg_start_locked txreg m_defrag d.tx >>= λ tx. returns (record d { tx = tx })
  ]

  -- the interrupts of an interface that is running; `alloc` answers the receiver, `alloc_more` the
  -- refill
  unfoldable pub msg_serve :
      ℕ
      → (ℕ → Option Mbuf)
      → (ℕ → Option Mbuf)
      → (TxPacket → Option TxPacket)
      → MsgDriver
      → Outcome MsgDriver
  unfolding msg_received msg_clean_tx msg_clear_errors msg_refill msg_restart tell
  msg_serve istatus alloc alloc_more m_defrag d =
      msg_received istatus alloc (tell (write_int_sr istatus) d) >>= λ t.
      msg_clean_tx txreg t.tx >>= λ tx.
      msg_refill istatus alloc_more (msg_clear_errors istatus (record t { tx = tx }))
      >>= msg_restart m_defrag

  unfoldable pub msg_intr :
      ℕ
      → (ℕ → Option Mbuf)
      → (ℕ → Option Mbuf)
      → (TxPacket → Option TxPacket)
      → MsgDriver
      → Outcome MsgDriver
  unfolding msg_serve
  msg_intr istatus alloc alloc_more m_defrag d =
      if not d.running then returns d else msg_serve istatus alloc alloc_more m_defrag d
