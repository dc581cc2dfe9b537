-- ===== src/Xmac/If/Stopped.antt =====
-- Stopping frees every mbuf of both rings and leaves them empty.
use phytium_sdk.Prelude.{
  ℕ, ◌≤◌, ◌<◌, ◌^◌, ◌+◌, ◌≡◌, refl, Bool, true, false, List, [], ◌∷◌, ◌++◌, Option, none, some,
  if◌then◌else◌, arith, sym, subst, ◌==◌,
}
use phytium_sdk.Xmac.Softc.{XmacSoftc, XmacReg}
use phytium_sdk.Xmac.Rx.Ring.{IsRing}
use phytium_sdk.Xmac.Tx.Ring.{TxReg}
use phytium_sdk.Xmac.Tx.Words.{IsTxLayout}
use phytium_sdk.Xmac.Tx.Queue.{IsTxRing}
use phytium_sdk.Xmac.Tx.Pump.{AreSendable}
use phytium_sdk.Xmac.If.Driver.{
  Driver, IfReg, NetReg, nwctrl, tail_enable, set_net_cfg, set_net_ctl,
}
use phytium_sdk.Xmac.If.Held.{held}
use phytium_sdk.Xmac.If.TxCleared.{stop_tx-freed, stop_tx-txring_m, stop_tx-sendq, stop_tx-IsTxRing}
use phytium_sdk.Xmac.If.Clear.{stop_rx}
use phytium_sdk.Xmac.If.RxCleared.{
  stop_rx-queued, stop_rx-freed, stop_rx-rxring_m, stop_rx-rxbufs, stop_rx-IsRing,
}
use phytium_sdk.Xmac.If.Start.{reset, stop}
use phytium_sdk.Xmac.If.Sound.{IsReady}

-- the value last written to NWCTRL
unfoldable pub last_nwctrl : List (NetReg × ℕ) → Option ℕ
last_nwctrl [] = none
last_nwctrl ((nwctrl, v) ∷ ws) = some v
last_nwctrl ((_, v) ∷ ws) = last_nwctrl ws

-- A change of the link leaves the receive ring alone.
pub record LeavesRing (s t : XmacSoftc) : Type 0 where
  pub same_slots : t.rxring_m ≡ s.rxring_m
  pub same_head : t.rxring_hd_ptr ≡ s.rxring_hd_ptr
  pub same_tail : t.rxring_tl_ptr ≡ s.rxring_tl_ptr
  pub same_queued : t.rxring_queued ≡ s.rxring_queued
  pub same_wanted : t.rxbufs ≡ s.rxbufs

pub same_fields :
    (s t : XmacSoftc)
    → t.rxring_m ≡ s.rxring_m
    → t.rxring_hd_ptr ≡ s.rxring_hd_ptr
    → t.rxring_tl_ptr ≡ s.rxring_tl_ptr
    → t.rxring_queued ≡ s.rxring_queued
    → t.rxbufs ≡ s.rxbufs
    → LeavesRing s t
same_fields s t slots head tail queued wanted = record {
  same_slots = slots;
  same_head = head;
  same_tail = tail;
  same_queued = queued;
  same_wanted = wanted;
}

pub LeavesRing-IsRing : (s t : XmacSoftc) → LeavesRing s t → IsRing s → IsRing t
LeavesRing-IsRing s t g f = record {
  tail = omega (arith, g.same_tail, f.tail);
  fits = omega (arith, g.same_queued, f.fits);
  head = rw (g.same_head, g.same_tail, g.same_queued) f.head;
  held = rw (g.same_slots, g.same_tail, g.same_queued) f.held;
}

-- what `stop` leaves
pub record IsStopped (reg : IfReg) (txreg : TxReg) (d t : Driver) : Type 0 where
  pub packets_freed : t.tx.freed ≡ held d.tx.txring_m 512 ++ d.tx.freed
  pub buffers_freed : t.rx_freed ≡ held d.rx.rxring_m 512 ++ d.rx_freed
  pub no_packet : (p : ℕ) → p < 512 → t.tx.txring_m p ≡ none
  pub no_buffer : (p : ℕ) → p < 512 → t.rx.rxring_m p ≡ none
  pub tx_empty : IsTxRing txreg [] t.tx
  pub rx_empty : t.rx.rxring_queued ≡ 0
  pub rx_ring : IsRing t.rx
  pub same_wanted : t.rx.rxbufs ≡ d.rx.rxbufs
  pub same_sendq : t.tx.sendq ≡ d.tx.sendq
  pub halted : last_nwctrl t.regs ≡ some reg.nwctrl_mden
  pub not_ticking : t.ticking ≡ false

module _ (reg : IfReg) (xreg : XmacReg) (txreg : TxReg) (l : IsTxLayout txreg) where
  -- what `reset` leaves of the driver
  reset-halted :
      (designcfg : ℕ) (d : Driver) → last_nwctrl (reset reg designcfg d).regs ≡ some reg.nwctrl_mden
  unfolding reset last_nwctrl
  reset-halted designcfg d = halted_on (d.rx.version == 2) _
    where
      halted_on :
          (b : Bool) (ws : List (NetReg × ℕ))
          → last_nwctrl (
              if b
              then (tail_enable, 2 ^ 31 + 1) ∷ (nwctrl, reg.nwctrl_mden) ∷ ws
              else (nwctrl, reg.nwctrl_mden) ∷ ws)
            ≡ some reg.nwctrl_mden
      halted_on true ws = refl
      halted_on false ws = refl

  -- Stopping frees the mbuf of every packet in the transmit ring and of every receive buffer once,
  -- leaves no mbuf in either ring, both rings empty and in order, the transmitter and the receiver
  -- off, and the callout stopped. The masks of a transmit descriptor's marks are those of the manual.
  pub stop-IsStopped :
      (designcfg : ℕ) (d : Driver) → IsStopped reg txreg d (stop reg xreg txreg designcfg d)
  unfolding stop reset set_net_ctl set_net_cfg
  stop-IsStopped designcfg d =
      let t = reset reg designcfg (record d { ticking = false }) in
      record {
        packets_freed = stop_tx-freed txreg l t.tx;
        buffers_freed = stop_rx-freed xreg t.rx t.rx_freed;
        no_packet = stop_tx-txring_m txreg l t.tx;
        no_buffer = stop_rx-rxring_m xreg t.rx t.rx_freed;
        tx_empty = stop_tx-IsTxRing txreg l t.tx;
        rx_empty = stop_rx-queued xreg t.rx t.rx_freed;
        rx_ring =
            LeavesRing-IsRing (stop_rx xreg (t.rx, t.rx_freed)).0 _
              (same_fields _ _ refl refl refl refl refl) (stop_rx-IsRing xreg t.rx t.rx_freed);
        same_wanted = stop_rx-rxbufs xreg t.rx t.rx_freed;
        same_sendq = stop_tx-sendq txreg l t.tx;
        halted = reset-halted designcfg (record d { ticking = false });
        not_ticking = refl;
      }

  pub stop-IsReady :
      (designcfg : ℕ) (d : Driver)
      → IsReady txreg d
      → IsReady txreg (stop reg xreg txreg designcfg d)
  stop-IsReady designcfg d f =
      let g = stop-IsStopped designcfg d in
      record {
        rx_ring = g.rx_ring;
        wanted = subst (λ n. n ≤ 512) (sym g.same_wanted) f.wanted;
        tx_sound = record {
          queue = [];
          ring = g.tx_empty;
          waiting = subst AreSendable (sym g.same_sendq) f.tx_sound.waiting;
        };
      }
