-- ===== src/Xmac/If/Intr.antt =====
-- drivers/fxmac/phytium_xmac.c: `phytium_xmac_intr`. `alloc k` is the answer of the k-th call of `m_getcl`; the
-- interrupt status is an argument. Messages are left out.
use phytium_sdk.Prelude.{ℕ, not, [], ◌∷◌, Option, bit_or, if◌then◌else◌, Outcome, returns, ◌>>=◌}
use phytium_sdk.Xmac.Softc.{XmacReg, Mbuf}
use phytium_sdk.Xmac.Rx.{rx_wrap, fill_rqueue, recv}
use phytium_sdk.Xmac.Tx.Ring.{has, TxReg, TxPacket, plus_one, clean_tx}
use phytium_sdk.Xmac.Tx.Output.{start_tx, start_locked}
use phytium_sdk.Xmac.If.Driver.{Driver, IfReg, nwctrl, rxsr, isr, write_reg}

module _ (reg : IfReg) (xreg : XmacReg) (txreg : TxReg) where
  -- bad DMA and an overrun of the receiver
  unfoldable pub clear_errors : ℕ → Driver → Driver
  unfolding write_reg has plus_one
  clear_errors istatus d =
      let t = if has istatus reg.ixr_hrespnok then write_reg rxsr reg.rxsr_hrespnok d else d in
      if has istatus reg.ixr_rxovr
      then record (write_reg rxsr reg.rxsr_rxovr t) { rxoverruns = plus_one t.rxoverruns }
      else t

  -- the receiver ran out of buffers
  unfoldable pub refill : ℕ → (ℕ → Option Mbuf) → Driver → Outcome Driver
  unfolding write_reg has plus_one fill_rqueue
  refill istatus alloc d =
      if has istatus reg.ixr_rxused
      then (fill_rqueue rx_wrap alloc d.rx >>= λ rx.
          returns (record (write_reg nwctrl (bit_or d.net_ctl_shadow reg.nwctrl_flush_dpram) d) {
            rx = rx;
            rxnobufs = plus_one d.rxnobufs;
          }))
      else returns d

  unfoldable pub restart : (TxPacket → Option TxPacket) → Driver → Outcome Driver
  unfolding start_locked
  restart m_defrag d = elim d.tx.sendq [
    | [] ↦ returns d
    | _ ∷ _ ↦
        start_locked txreg (start_tx txreg d.rx.version d.net_ctl_shadow) m_defrag d.tx >>= λ tx.
        returns (record d { tx = tx })
  ]

  -- the interrupts of an interface that is running; `alloc` answers `recv`, `alloc_more` the refill
  unfoldable pub serve :
      ℕ
      → (ℕ → Option Mbuf)
      → (ℕ → Option Mbuf)
      → (TxPacket → Option TxPacket)
      → Driver
      → Outcome Driver
  unfolding recv clean_tx clear_errors refill restart write_reg has
  serve istatus alloc alloc_more m_defrag d =
      (if has istatus reg.ixr_rxcompl then recv xreg rx_wrap alloc d.rx else returns d.rx) >>= λ rx.
      (clean_tx txreg d.tx >>= λ tx.
      (refill istatus alloc_more
          (clear_errors istatus (write_reg isr istatus (record d { rx = rx; tx = tx })))
        >>= restart m_defrag))

  unfoldable pub intr :
      ℕ
      → (ℕ → Option Mbuf)
      → (ℕ → Option Mbuf)
      → (TxPacket → Option TxPacket)
      → Driver
      → Outcome Driver
  unfolding serve
  intr istatus alloc alloc_more m_defrag d =
      if not d.running then returns d else serve istatus alloc alloc_more m_defrag d
