-- ===== src/Xmac/If/Sound.antt =====
-- Every operation of the interface returns and keeps both rings in order.
use phytium_sdk.Prelude.{
  ℕ, ◌≤◌, ◌≡◌, refl, Bool, true, false, not, List, [], ◌∷◌, Option, some, if◌then◌else◌, Outcome,
  returns, ◌>>=◌, arith, sym, subst,
}
use phytium_sdk.Xmac.Softc.{XmacSoftc, XmacReg, Mbuf}
use phytium_sdk.Xmac.Rx.{rx_wrap, recv}
use phytium_sdk.Xmac.Rx.Ring.{IsRing}
use phytium_sdk.Xmac.Rx.Fill.{fill_rqueue-IsRefilled}
use phytium_sdk.Xmac.Rx.Recv.{recv-IsReceived}
use phytium_sdk.Xmac.Tx.Ring.{has, TxPacket, TxReg}
use phytium_sdk.Xmac.Tx.Output.{start_tx, start_locked}
use phytium_sdk.Xmac.Tx.Words.{IsTxLayout}
use phytium_sdk.Xmac.Tx.Sendable.{IsSendable}
use phytium_sdk.Xmac.Tx.Run.{IsSound, clean_tx-IsSound, start_locked-IsSound}
use phytium_sdk.Xmac.If.Driver.{Driver, IfReg, NetReg, isr, rxsr, write_reg}
use phytium_sdk.Xmac.If.Intr.{clear_errors, refill, restart, serve, intr}

-- both rings are in order, and at most 512 receive buffers are wanted
pub record IsReady (txreg : TxReg) (d : Driver) : Type 0 where
  pub rx_ring : IsRing d.rx
  pub wanted : d.rx.rxbufs ≤ 512
  pub tx_sound : IsSound txreg d.tx

-- the call returns, and both rings are in order
abbrev pub KeepsReady : TxReg → Outcome Driver → Type 0
KeepsReady txreg o = (t : Driver) × (o ≡ returns t) × IsReady txreg t

module _ (txreg : TxReg) where
  pub returns-KeepsReady : (d : Driver) → IsReady txreg d → KeepsReady txreg (returns d)
  returns-KeepsReady d f = (d, refl, f)

  pub if-KeepsReady :
      (b : Bool) {x y : Outcome Driver}
      → KeepsReady txreg x
      → KeepsReady txreg y
      → KeepsReady txreg (if b then x else y)
  if-KeepsReady true f g = f
  if-KeepsReady false f g = g

  pub call-KeepsReady :
      {A : Type 0} {o : Outcome A} {a : A} (next : A → Outcome Driver)
      → o ≡ returns a
      → KeepsReady txreg (next a)
      → KeepsReady txreg (o >>= next)
  call-KeepsReady next e f = subst (λ o. KeepsReady txreg (o >>= next)) (sym e) f

  pub if-IsReady :
      (b : Bool) {x y : Driver}
      → IsReady txreg x
      → IsReady txreg y
      → IsReady txreg (if b then x else y)
  if-IsReady true f g = f
  if-IsReady false f g = g

  pub write_reg-IsReady :
      (r : NetReg) (v : ℕ) (d : Driver) → IsReady txreg d → IsReady txreg (write_reg r v d)
  unfolding write_reg
  write_reg-IsReady r v d f = record {
    rx_ring = f.rx_ring;
    wanted = f.wanted;
    tx_sound = f.tx_sound;
  }

-- A change of the receive side that leaves its ring in order.
pub record KeepsRing (s t : XmacSoftc) : Type 0 where
  pub ring : IsRing t
  pub same_wanted : t.rxbufs ≡ s.rxbufs

module _ (reg : IfReg) (xreg : XmacReg) (txreg : TxReg) (l : IsTxLayout txreg)
    (m_defrag : TxPacket → Option TxPacket)
    (keeps : (p d : TxPacket) → m_defrag p ≡ some d → IsSendable d) where
  recv_part :
      (b : Bool) (alloc : ℕ → Option Mbuf) (s : XmacSoftc)
      → s.rxbufs ≤ 512
      → IsRing s
      → (t : XmacSoftc) × ((if b then recv xreg rx_wrap alloc s else returns s) ≡ returns t)
        × KeepsRing s t
  recv_part true alloc s bounded f =
      let (t, e, (taken, left, g)) = recv-IsReceived xreg rx_wrap alloc s bounded f in
      (t, e, record { ring = g.ring; same_wanted = g.same_wanted })
  recv_part false alloc s bounded f = (s, refl, record { ring = f; same_wanted = refl })

  clear_errors-IsReady :
      (istatus : ℕ) (d : Driver)
      → IsReady txreg d
      → IsReady txreg (clear_errors reg xreg txreg istatus d)
  unfolding clear_errors write_reg
  clear_errors-IsReady istatus d f =
      let t = if has istatus reg.ixr_hrespnok then write_reg rxsr reg.rxsr_hrespnok d else d in
      let g : IsReady txreg t =
        if-IsReady txreg (has istatus reg.ixr_hrespnok)
          (write_reg-IsReady txreg rxsr reg.rxsr_hrespnok d f) f in
      if-IsReady txreg (has istatus reg.ixr_rxovr)
        (record { rx_ring = g.rx_ring; wanted = g.wanted; tx_sound = g.tx_sound }) g

  refill-IsReady :
      (istatus : ℕ) (alloc : ℕ → Option Mbuf) (d : Driver)
      → IsReady txreg d
      → KeepsReady txreg (refill reg xreg txreg istatus alloc d)
  unfolding refill write_reg
  refill-IsReady istatus alloc d f =
      let (t, e, g) = fill_rqueue-IsRefilled rx_wrap alloc d.rx f.wanted f.rx_ring in
      if-KeepsReady txreg (has istatus reg.ixr_rxused)
        (call-KeepsReady txreg _ e (
          returns-KeepsReady txreg _ (record {
            rx_ring = g.ring;
            wanted = omega (arith, g.same_wanted, f.wanted);
            tx_sound = f.tx_sound;
          })))
        (returns-KeepsReady txreg d f)

  restart-IsReady :
      (d : Driver) → IsReady txreg d → KeepsReady txreg (restart reg xreg txreg m_defrag d)
  unfolding restart
  restart-IsReady d f = restart_with d.tx.sendq
    where
      restart_with :
          (q : List TxPacket)
          → KeepsReady txreg (elim q as (λ _. Outcome Driver) [
            | [] ↦ returns d
            | _ ∷ _ ↦
                start_locked txreg (start_tx txreg d.rx.version d.net_ctl_shadow) m_defrag d.tx
                >>= λ tx. returns (record d { tx = tx })
          ])
      restart_with [] = returns-KeepsReady txreg d f
      restart_with (p ∷ ps) =
          let (t, e, g) =
            start_locked-IsSound txreg l (start_tx txreg d.rx.version d.net_ctl_shadow) m_defrag
              keeps d.tx f.tx_sound in
          call-KeepsReady txreg _ e (
            returns-KeepsReady txreg _
              (record { rx_ring = f.rx_ring; wanted = f.wanted; tx_sound = g }))

  serve-IsReady :
      (istatus : ℕ) (alloc alloc_more : ℕ → Option Mbuf) (d : Driver)
      → IsReady txreg d
      → KeepsReady txreg (serve reg xreg txreg istatus alloc alloc_more m_defrag d)
  unfolding serve
  serve-IsReady istatus alloc alloc_more d f =
      let (rx, e, g) = recv_part (has istatus reg.ixr_rxcompl) alloc d.rx f.wanted f.rx_ring in
      let (tx, e', h) = clean_tx-IsSound txreg l (λ hd ks. ks) m_defrag keeps d.tx f.tx_sound in
      let ready : IsReady txreg (record d { rx = rx; tx = tx }) = record {
        rx_ring = g.ring;
        wanted = omega (arith, g.same_wanted, f.wanted);
        tx_sound = h;
      } in
      let cleared =
        clear_errors-IsReady istatus (write_reg isr istatus (record d { rx = rx; tx = tx }))
          (write_reg-IsReady txreg isr istatus (record d { rx = rx; tx = tx }) ready) in
      let (u, e'', k) = refill-IsReady istatus alloc_more _ cleared in
      call-KeepsReady txreg _ e
        (call-KeepsReady txreg _ e' (call-KeepsReady txreg _ e'' (restart-IsReady u k)))

  -- The interrupt handler returns, whatever the interrupt status, the descriptors and the answers
  -- of `m_getcl` are, and leaves both rings in order. They are in order before, at most 512 receive
  -- buffers are wanted, what `m_defrag` makes can be sent, and the masks of a transmit descriptor's
  -- marks are those of the manual.
  pub intr-IsReady :
      (istatus : ℕ) (alloc alloc_more : ℕ → Option Mbuf) (d : Driver)
      → IsReady txreg d
      → KeepsReady txreg (intr reg xreg txreg istatus alloc alloc_more m_defrag d)
  unfolding intr
  intr-IsReady istatus alloc alloc_more d f =
      if-KeepsReady txreg (not d.running) (returns-KeepsReady txreg d f)
        (serve-IsReady istatus alloc alloc_more d f)
