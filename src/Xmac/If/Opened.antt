-- ===== src/Xmac/If/Opened.antt =====
-- Starting the interface keeps both rings in order.
use phytium_sdk.Prelude.{refl, Bool, true, false, if◌then◌else◌, arith}
use phytium_sdk.Xmac.Softc.{XmacSoftc, XmacReg}
use phytium_sdk.Xmac.Rx.{rx_wrap}
use phytium_sdk.Xmac.Rx.Fill.{fill_rqueue-IsRefilled}
use phytium_sdk.Xmac.Tx.Ring.{TxReg}
use phytium_sdk.Xmac.Tx.Words.{IsTxLayout}
use phytium_sdk.Xmac.If.Driver.{Driver, IfReg, set_net_cfg, set_net_ctl}
use phytium_sdk.Xmac.If.Start.{config, init_locked}
use phytium_sdk.Xmac.If.Ioctl.{IoctlCalls}
use phytium_sdk.Xmac.If.Sound.{
  IsReady, KeepsReady, returns-KeepsReady, if-KeepsReady, call-KeepsReady,
}
use phytium_sdk.Xmac.If.Stopped.{same_fields, LeavesRing, LeavesRing-IsRing}

-- What the PHY drivers do leaves the receive ring alone.
pub record IsLinkOnly (calls : IoctlCalls) : Type 0 where
  pub mediachg : (s : XmacSoftc) → LeavesRing s (calls.mii_mediachg s)
  pub ifmedia : (s : XmacSoftc) → LeavesRing s (calls.ifmedia_ioctl s).1

-- a change of the receive side alone
pub LeavesRing-IsReady :
    (txreg : TxReg) (d : Driver) (s : XmacSoftc)
    → LeavesRing d.rx s
    → IsReady txreg d
    → IsReady txreg (record d { rx = s })
LeavesRing-IsReady txreg d s g f = record {
  rx_ring = LeavesRing-IsRing d.rx s g f.rx_ring;
  wanted = omega (arith, g.same_wanted, f.wanted);
  tx_sound = f.tx_sound;
}

same_ring : (s : XmacSoftc) → LeavesRing s s
same_ring s = same_fields _ _ refl refl refl refl refl

pub LeavesRing-if :
    (b : Bool) (s t : XmacSoftc) → LeavesRing s t → LeavesRing s (if b then t else s)
LeavesRing-if true s t g = g
LeavesRing-if false s t g = same_ring s

module _ (reg : IfReg) (xreg : XmacReg) (txreg : TxReg) (l : IsTxLayout txreg) (calls : IoctlCalls)
    (link : IsLinkOnly calls) where
  pub init_locked-IsReady :
      (d : Driver)
      → IsReady txreg d
      → KeepsReady txreg (init_locked reg xreg calls.mii_mediachg calls.m_getcl d)
  unfolding init_locked config set_net_cfg set_net_ctl
  init_locked-IsReady d f =
      let c = config reg xreg d in
      let start : LeavesRing d.rx c.rx = same_fields _ _ refl refl refl refl refl in
      let (t, e, g) =
        fill_rqueue-IsRefilled rx_wrap calls.m_getcl c.rx f.wanted
          (LeavesRing-IsRing d.rx c.rx start f.rx_ring) in
      let linked = LeavesRing-if c.has_miibus t (calls.mii_mediachg t) (link.mediachg t) in
      if-KeepsReady txreg d.running (returns-KeepsReady txreg d f) (
        call-KeepsReady txreg _ e (
          returns-KeepsReady txreg _ (record {
            rx_ring = LeavesRing-IsRing t _ linked g.ring;
            wanted = omega (arith, linked.same_wanted, g.same_wanted, f.wanted);
            tx_sound = record {
              queue = f.tx_sound.queue;
              ring = record {
                holds = f.tx_sound.ring.holds;
                counted = f.tx_sound.ring.counted;
                room = f.tx_sound.ring.room;
                tail = f.tx_sound.ring.tail;
                idle_used = f.tx_sound.ring.idle_used;
              };
              waiting = f.tx_sound.waiting;
            };
          })))
