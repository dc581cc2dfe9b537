-- ===== src/XmacV2/Stopped.antt =====
-- Starting and stopping the second driver: stopping frees every mbuf of both rings and leaves them
-- empty, and both keep the rings in order.
use phytium_sdk.Prelude.{ℕ, ◌≤◌, ◌<◌, ◌≡◌, refl, sym, subst, false, [], ◌++◌, none, arith}
use phytium_sdk.Xmac.Softc.{XmacReg}
use phytium_sdk.Xmac.Rx.Ring.{IsRing}
use phytium_sdk.Xmac.Rx.Fill.{fill_rqueue-IsRefilled}
use phytium_sdk.Xmac.Tx.Ring.{TxReg}
use phytium_sdk.Xmac.Tx.Words.{IsTxLayout}
use phytium_sdk.Xmac.Tx.Queue.{IsTxRing}
use phytium_sdk.Xmac.Tx.Pump.{AreSendable}
use phytium_sdk.Xmac.If.Held.{held}
use phytium_sdk.Xmac.If.Clear.{stop_rx}
use phytium_sdk.Xmac.If.TxCleared.{stop_tx-freed, stop_tx-txring_m, stop_tx-sendq, stop_tx-IsTxRing}
use phytium_sdk.Xmac.If.RxCleared.{
  stop_rx-queued, stop_rx-freed, stop_rx-rxring_m, stop_rx-rxbufs, stop_rx-IsRing,
}
use phytium_sdk.Xmac.If.Stopped.{same_fields, LeavesRing-IsRing}
use phytium_sdk.Xmac.If.Ioctl.{IoctlCalls}
use phytium_sdk.Xmac.If.Opened.{IsLinkOnly, LeavesRing-if}
use phytium_sdk.XmacV2.Driver.{MsgDriver, MsgReg, tell, tell_if}
use phytium_sdk.XmacV2.Rings.{msg_stop_tx, msg_stop_rx, msg_fill_rqueue}
use phytium_sdk.XmacV2.Start.{
  msg_reset, msg_config, config_net, config_rings, msg_init_locked, msg_stop,
}
use phytium_sdk.XmacV2.Ready.{
  MsgReady, KeepsMsgReady, returns-KeepsMsgReady, if-KeepsMsgReady, call-KeepsMsgReady,
}

-- what `msg_stop` leaves
pub record IsMsgStopped (txreg : TxReg) (d t : MsgDriver) : Type 0 where
  pub packets_freed : t.tx.freed ≡ held d.tx.txring_m 512 ++ d.tx.freed
  pub buffers_freed : t.rx_freed ≡ held d.rx.rxring_m 512 ++ d.rx_freed
  pub no_packet : (p : ℕ) → p < 512 → t.tx.txring_m p ≡ none
  pub no_buffer : (p : ℕ) → p < 512 → t.rx.rxring_m p ≡ none
  pub tx_empty : IsTxRing txreg [] t.tx
  pub rx_empty : t.rx.rxring_queued ≡ 0
  pub rx_ring : IsRing t.rx
  pub same_wanted : t.rx.rxbufs ≡ d.rx.rxbufs
  pub same_sendq : t.tx.sendq ≡ d.tx.sendq
  pub not_ticking : t.ticking ≡ false
  pub link_forgotten : t.rx.mii_media_active ≡ 0

module _ (reg : MsgReg) (xreg : XmacReg) (txreg : TxReg) (l : IsTxLayout txreg) where
  -- Stopping frees the mbuf of every packet in the transmit ring and of every receive buffer once,
  -- leaves no mbuf in either ring, both rings empty and in order, the callout stopped and the link
  -- to be set up anew. The masks of a transmit descriptor's marks are those of the manual.
  pub msg_stop-IsMsgStopped : (d : MsgDriver) → IsMsgStopped txreg d (msg_stop reg xreg txreg d)
  unfolding msg_stop msg_reset msg_stop_tx msg_stop_rx tell
  msg_stop-IsMsgStopped d =
      let t = msg_reset reg (record d { ticking = false }) in
      record {
        packets_freed = stop_tx-freed txreg l t.tx;
        buffers_freed = stop_rx-freed xreg t.rx t.rx_freed;
        no_packet = stop_tx-txring_m txreg l t.tx;
        no_buffer = stop_rx-rxring_m xreg t.rx t.rx_freed;
        tx_empty = stop_tx-IsTxRing txreg l t.tx;
        rx_empty = stop_rx-queued xreg t.rx t.rx_freed;
        rx_ring =
            LeavesRing-IsRing (stop_rx xreg (t.rx, t.rx_freed)).0 _
              (same_fields _ _ refl refl refl refl refl) (stop_rx-IsRing xreg t.rx t.rx_freed);
        same_wanted = stop_rx-rxbufs xreg t.rx t.rx_freed;
        same_sendq = stop_tx-sendq txreg l t.tx;
        not_ticking = refl;
        link_forgotten = refl;
      }

  pub msg_stop-MsgReady :
      (d : MsgDriver) → MsgReady txreg d → MsgReady txreg (msg_stop reg xreg txreg d)
  msg_stop-MsgReady d f =
      let g = msg_stop-IsMsgStopped d in
      record {
        rx_ring = g.rx_ring;
        wanted = subst (λ n. n ≤ 512) (sym g.same_wanted) f.wanted;
        tx_sound = record {
          queue = [];
          ring = g.tx_empty;
          waiting = subst AreSendable (sym g.same_sendq) f.tx_sound.waiting;
        };
      }

  module _ (calls : IoctlCalls) (link : IsLinkOnly calls) where
    pub msg_init_locked-MsgReady :
        (d : MsgDriver)
        → MsgReady txreg d
        → KeepsMsgReady txreg (msg_init_locked reg xreg calls.mii_mediachg calls.m_getcl d)
    unfolding msg_init_locked msg_config config_net config_rings msg_fill_rqueue tell tell_if
    msg_init_locked-MsgReady d f =
        let (t, e, g) =
          fill_rqueue-IsRefilled xreg.rxbuf_wrap calls.m_getcl d.rx f.wanted f.rx_ring in
        let linked = LeavesRing-if d.has_miibus t (calls.mii_mediachg t) (link.mediachg t) in
        if-KeepsMsgReady txreg d.running (returns-KeepsMsgReady txreg d f) (
          call-KeepsMsgReady txreg _ e (
            returns-KeepsMsgReady txreg _ (record {
              rx_ring = LeavesRing-IsRing t _ linked g.ring;
              wanted = omega (arith, linked.same_wanted, g.same_wanted, f.wanted);
              tx_sound = record {
                queue = f.tx_sound.queue;
                ring = record {
                  holds = f.tx_sound.ring.holds;
                  counted = f.tx_sound.ring.counted;
                  room = f.tx_sound.ring.room;
                  tail = f.tx_sound.ring.tail;
                  idle_used = f.tx_sound.ring.idle_used;
                };
                waiting = f.tx_sound.waiting;
              };
            })))
