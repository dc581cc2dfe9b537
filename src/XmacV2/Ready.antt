-- ===== src/XmacV2/Ready.antt =====
-- Both rings of the second driver are in order, and what keeps them so.
use phytium_sdk.Prelude.{
  ◌≤◌, ◌≡◌, refl, sym, subst, Bool, true, false, if◌then◌else◌, Outcome, returns, ◌>>=◌, arith,
}
use phytium_sdk.Xmac.Softc.{XmacSoftc}
use phytium_sdk.Xmac.Rx.Ring.{IsRing}
use phytium_sdk.Xmac.Tx.Ring.{TxReg, TxSide}
use phytium_sdk.Xmac.Tx.Run.{IsSound}
use phytium_sdk.Xmac.If.Stopped.{LeavesRing, LeavesRing-IsRing}
use phytium_sdk.XmacV2.Driver.{MsgDriver, Message, tell}

-- both rings are in order, and at most 512 receive buffers are wanted
pub record RingsReady (txreg : TxReg) (rx : XmacSoftc) (tx : TxSide) : Type 0 where
  pub rx_ring : IsRing rx
  pub wanted : rx.rxbufs ≤ 512
  pub tx_sound : IsSound txreg tx

abbrev pub MsgReady : TxReg → MsgDriver → Type 0
MsgReady txreg d = RingsReady txreg d.rx d.tx

-- the call returns, and both rings are in order
abbrev pub KeepsMsgReady : TxReg → Outcome MsgDriver → Type 0
KeepsMsgReady txreg o = (t : MsgDriver) × (o ≡ returns t) × MsgReady txreg t

module _ (txreg : TxReg) where
  pub returns-KeepsMsgReady : (d : MsgDriver) → MsgReady txreg d → KeepsMsgReady txreg (returns d)
  returns-KeepsMsgReady d f = (d, refl, f)

  pub if-KeepsMsgReady :
      (b : Bool) {x y : Outcome MsgDriver}
      → KeepsMsgReady txreg x
      → KeepsMsgReady txreg y
      → KeepsMsgReady txreg (if b then x else y)
  if-KeepsMsgReady true f g = f
  if-KeepsMsgReady false f g = g

  pub call-KeepsMsgReady :
      {A : Type 0} {o : Outcome A} {a : A} (next : A → Outcome MsgDriver)
      → o ≡ returns a
      → KeepsMsgReady txreg (next a)
      → KeepsMsgReady txreg (o >>= next)
  call-KeepsMsgReady next e f = subst (λ o. KeepsMsgReady txreg (o >>= next)) (sym e) f

  pub if-MsgReady :
      (b : Bool) (x y : MsgDriver)
      → MsgReady txreg x
      → MsgReady txreg y
      → MsgReady txreg (if b then x else y)
  if-MsgReady true x y f g = f
  if-MsgReady false x y f g = g

  -- a change of the link
  pub LeavesRing-RingsReady :
      (s t : XmacSoftc) (tx : TxSide)
      → LeavesRing s t
      → RingsReady txreg s tx
      → RingsReady txreg t tx
  LeavesRing-RingsReady s t tx g f = record {
    rx_ring = LeavesRing-IsRing s t g f.rx_ring;
    wanted = omega (arith, g.same_wanted, f.wanted);
    tx_sound = f.tx_sound;
  }

  pub tell-MsgReady : (m : Message) (d : MsgDriver) → MsgReady txreg d → MsgReady txreg (tell m d)
  unfolding tell
  tell-MsgReady m d f = f
