-- ===== src/XmacV2/Lifecycle.antt =====
-- The whole interface of the second driver over time: the network stack, the administrator and the
-- device share it.
use phytium_sdk.Prelude.{
  ℕ, ◌≤◌, ◌≡◌, refl, sym, ap, subst, ◌∙◌, Bool, true, false, List, [], Option, some, Outcome,
  returns, returns-injective, if◌then◌else◌, not, ◌&&◌, panics, ◌==◌, arith,
}
use phytium_sdk.Xmac.Softc.{XmacSoftc, XmacReg, Mbuf, RxDesc}
use phytium_sdk.Xmac.Rx.{setup_rx_descs}
use phytium_sdk.Xmac.Rx.Ring.{setup_rx_descs-IsRing}
use phytium_sdk.Xmac.Tx.Ring.{TxPacket, TxReg, setup_tx_descs}
use phytium_sdk.Xmac.Tx.Words.{IsTxLayout}
use phytium_sdk.Xmac.Tx.Sendable.{IsSendable}
use phytium_sdk.Xmac.Tx.Pump.{AreSendable}
use phytium_sdk.Xmac.Tx.Run.{
  IsSound, TxStep, TxStep-IsSound, start_locked-IsSound, setup_tx_descs-IsTxRing,
}
use phytium_sdk.Xmac.If.Driver.{IfFlags}
use phytium_sdk.Xmac.If.Ioctl.{IoctlCalls, IoctlCmd}
use phytium_sdk.Xmac.If.Stopped.{LeavesRing, same_fields}
use phytium_sdk.Xmac.If.Opened.{IsLinkOnly, LeavesRing-if}
use phytium_sdk.XmacV2.Driver.{MsgDriver, MsgReg, tell}
use phytium_sdk.XmacV2.Rings.{
  write_tx_ptr, msg_start_locked, msg_setup_rx_descs, msg_setup_tx_descs,
}
use phytium_sdk.XmacV2.Filter.{msg_statchg, msg_mediachange}
use phytium_sdk.XmacV2.Start.{msg_setup_descs, msg_init_locked, msg_stop}
use phytium_sdk.XmacV2.Intr.{msg_intr}
use phytium_sdk.XmacV2.Ioctl.{msg_ioctl}
use phytium_sdk.XmacV2.Callbacks.{msg_tick, msg_ifmedia_upd, msg_child_detached}
use phytium_sdk.XmacV2.Ready.{MsgReady, KeepsMsgReady, LeavesRing-RingsReady, if-MsgReady}
use phytium_sdk.XmacV2.Served.{intr-MsgReady}
use phytium_sdk.XmacV2.Stopped.{msg_stop-MsgReady, msg_init_locked-MsgReady}
use phytium_sdk.XmacV2.Control.{RepliesMsgReady, ioctl-MsgReady}

module _ (reg : MsgReg) (xreg : XmacReg) (txreg : TxReg)
    (m_defrag : TxPacket → Option TxPacket) where
  -- one step of the stack, the device, the PHY, the administrator or the driver
  pub data MsgStep : MsgDriver → MsgDriver → Type 0 where
    transmits :
        (d : MsgDriver) (t : _)
        → TxStep txreg write_tx_ptr m_defrag d.tx t
        → MsgStep d (record d { tx = t })
    fills :
        (d : MsgDriver) (ring : ℕ → RxDesc)
        → MsgStep d (record d { rx = record (d.rx) { rxring = ring } })
    joins :
        (d : MsgDriver) (addresses : List (ℕ → ℕ)) → MsgStep d (record d { multicast = addresses })
    flags_set : (d : MsgDriver) (flags : IfFlags) → MsgStep d (record d { flags = flags })
    link_changes :
        (d t : MsgDriver) (usable : Bool) (active : ℕ)
        → msg_statchg usable active d ≡ returns t
        → MsgStep d t
    interrupts :
        (d t : MsgDriver) (istatus : ℕ) (alloc alloc_more : ℕ → Option Mbuf)
        → msg_intr reg xreg txreg istatus alloc alloc_more m_defrag d ≡ returns t
        → MsgStep d t
    opens :
        (d t : MsgDriver) (calls : IoctlCalls)
        → IsLinkOnly calls
        → msg_init_locked reg xreg calls.mii_mediachg calls.m_getcl d ≡ returns t
        → MsgStep d t
    stops : (d : MsgDriver) → MsgStep d (msg_stop reg xreg txreg d)
    ticks :
        (d : MsgDriver) (mii_tick : XmacSoftc → XmacSoftc)
        → LeavesRing d.rx (mii_tick d.rx)
        → MsgStep d (msg_tick mii_tick d)
    sets_media :
        (d t : MsgDriver) (mii_mediachg : XmacSoftc → ℕ × XmacSoftc) (error : ℕ)
        → LeavesRing d.rx (mii_mediachg d.rx).1
        → msg_ifmedia_upd mii_mediachg d ≡ returns (error, t)
        → MsgStep d t
    loses_child : (d : MsgDriver) (is_miibus : Bool) → MsgStep d (msg_child_detached is_miibus d)
    controls :
        (d t : MsgDriver) (calls : IoctlCalls) (cmd : IoctlCmd) (error : ℕ)
        → IsLinkOnly calls
        → msg_ioctl reg xreg txreg calls cmd d ≡ returns (error, t)
        → MsgStep d t

  pub data MsgReach (d : MsgDriver) : MsgDriver → Type 0 where
    at_start : MsgReach d d
    then_step : {t u : MsgDriver} → MsgReach d t → MsgStep t u → MsgReach d u

module _ (reg : MsgReg) (xreg : XmacReg) (txreg : TxReg) (l : IsTxLayout txreg)
    (m_defrag : TxPacket → Option TxPacket)
    (keeps : (p d : TxPacket) → m_defrag p ≡ some d → IsSendable d) where
  KeepsMsgReady-MsgReady :
      {o : Outcome MsgDriver} {t : MsgDriver}
      → KeepsMsgReady txreg o
      → o ≡ returns t
      → MsgReady txreg t
  KeepsMsgReady-MsgReady (u, e, f) e' = subst (MsgReady txreg) (returns-injective (sym e ∙ e')) f

  relinked_or_not :
      (has b : Bool) (x d t : MsgDriver)
      → MsgReady txreg x
      → MsgReady txreg d
      → (if not has then panics else returns (if b then x else d)) ≡ returns t
      → MsgReady txreg t
  relinked_or_not false b x d t f g e = absurd (ground arith)
  relinked_or_not true b x d t f g e =
      subst (MsgReady txreg) (returns-injective e) (if-MsgReady txreg b x d f g)

  statchg-MsgReady :
      (usable : Bool) (active : ℕ) (d t : MsgDriver)
      → MsgReady txreg d
      → msg_statchg usable active d ≡ returns t
      → MsgReady txreg t
  unfolding msg_statchg msg_mediachange tell
  statchg-MsgReady usable active d t f e =
      relinked_or_not d.has_miibus (usable && not (d.rx.mii_media_active == active))
        (msg_mediachange active d) d t
        (LeavesRing-RingsReady txreg d.rx _ d.tx (same_fields _ _ refl refl refl refl refl) f) f e

  media_or_not :
      (has b : Bool) (d t : MsgDriver) (r : ℕ × MsgDriver) {error : ℕ}
      → MsgReady txreg r.1
      → MsgReady txreg d
      → (if not has then panics else if b then returns r else returns (0, d)) ≡ returns (error, t)
      → MsgReady txreg t
  media_or_not false b d t r f g e = absurd (ground arith)
  media_or_not true true d t r f g e =
      subst (MsgReady txreg) (ap (λ x. x.1) (returns-injective e)) f
  media_or_not true false d t r f g e =
      subst (MsgReady txreg) (ap (λ x. x.1) (returns-injective e)) g

  MsgStep-MsgReady :
      {d t : MsgDriver} → MsgStep reg xreg txreg m_defrag d t → MsgReady txreg d → MsgReady txreg t
  unfolding msg_tick msg_ifmedia_upd msg_child_detached
  MsgStep-MsgReady (transmits d t step) f = record {
    rx_ring = f.rx_ring;
    wanted = f.wanted;
    tx_sound = TxStep-IsSound txreg l write_tx_ptr m_defrag keeps step f.tx_sound;
  }
  MsgStep-MsgReady (fills d ring) f =
      LeavesRing-RingsReady txreg d.rx _ d.tx (same_fields _ _ refl refl refl refl refl) f
  MsgStep-MsgReady (joins d addresses) f = f
  MsgStep-MsgReady (flags_set d flags) f = f
  MsgStep-MsgReady (link_changes d t usable active e) f = statchg-MsgReady usable active d t f e
  MsgStep-MsgReady (interrupts d t istatus alloc alloc_more e) f =
      KeepsMsgReady-MsgReady
        (intr-MsgReady reg xreg txreg l m_defrag keeps istatus alloc alloc_more d f) e
  MsgStep-MsgReady (opens d t calls link e) f =
      KeepsMsgReady-MsgReady (msg_init_locked-MsgReady reg xreg txreg l calls link d f) e
  MsgStep-MsgReady (stops d) f = msg_stop-MsgReady reg xreg txreg l d f
  MsgStep-MsgReady (ticks d mii_tick same) f =
      LeavesRing-RingsReady txreg d.rx _ d.tx (LeavesRing-if d.has_miibus d.rx (mii_tick d.rx) same)
        f
  MsgStep-MsgReady (sets_media d t mii_mediachg error same e) f =
      media_or_not d.has_miibus d.flags.up d t _ (LeavesRing-RingsReady txreg d.rx _ d.tx same f) f
        e
  MsgStep-MsgReady (loses_child d is_miibus) f = if-MsgReady txreg is_miibus _ d f f
  MsgStep-MsgReady (controls d t calls cmd error link e) f =
      let (r, e', g) = ioctl-MsgReady reg xreg txreg l calls link cmd d f in
      subst (MsgReady txreg) (ap (λ r. r.1) (returns-injective (sym e' ∙ e))) g

  MsgReach-MsgReady :
      {d t : MsgDriver} → MsgReach reg xreg txreg m_defrag d t → MsgReady txreg d → MsgReady txreg t
  MsgReach-MsgReady at_start f = f
  MsgReach-MsgReady (then_step r step) f = MsgStep-MsgReady step (MsgReach-MsgReady r f)

  pub set_up-MsgReady :
      (d : MsgDriver)
      → d.tx.sendq ≡ []
      → d.rx.rxbufs ≤ 512
      → MsgReady txreg (msg_setup_descs xreg txreg d)
  unfolding msg_setup_descs msg_setup_rx_descs msg_setup_tx_descs setup_rx_descs setup_tx_descs tell
  set_up-MsgReady d none_waits bounded = record {
    rx_ring = setup_rx_descs-IsRing xreg d.rx;
    wanted = bounded;
    tx_sound = record {
      queue = [];
      ring = setup_tx_descs-IsTxRing txreg l d.tx;
      waiting = subst AreSendable (sym none_waits) tt;
    };
  }

  -- However the arrival of packets, the reports of the device in both rings, new flags, multicast
  -- addresses and links, interrupts, transmission, starting, stopping, ticks, new media, the loss of
  -- the MII bus and ioctl calls follow one another after the set-up of the rings, both rings are in
  -- order, and the next interrupt, the next transmission and the next ioctl call return. Each step
  -- that can panic is one that returned: a new media and a change of the link need a MII bus. No packet waits at first, at most 512 receive
  -- buffers are wanted, packets that arrive and what `m_defrag` makes of them can be sent, the PHY
  -- drivers leave the receive ring alone, and the masks of a transmit descriptor's marks are those of
  -- the manual.
  pub MsgReach-returns :
      (d t : MsgDriver)
      → d.tx.sendq ≡ []
      → d.rx.rxbufs ≤ 512
      → MsgReach reg xreg txreg m_defrag (msg_setup_descs xreg txreg d) t
      → MsgReady txreg t
        × ((istatus : ℕ) (alloc alloc_more : ℕ → Option Mbuf)
            → KeepsMsgReady txreg (msg_intr reg xreg txreg istatus alloc alloc_more m_defrag t))
        × ((u : _) × (msg_start_locked txreg m_defrag t.tx ≡ returns u) × IsSound txreg u)
        × ((calls : IoctlCalls) (cmd : IoctlCmd)
            → IsLinkOnly calls
            → RepliesMsgReady txreg (msg_ioctl reg xreg txreg calls cmd t))
  unfolding msg_start_locked
  MsgReach-returns d t none_waits bounded r =
      let f = MsgReach-MsgReady r (set_up-MsgReady d none_waits bounded) in
      (
        f,
        (λ istatus alloc alloc_more.
            intr-MsgReady reg xreg txreg l m_defrag keeps istatus alloc alloc_more t f),
        start_locked-IsSound txreg l write_tx_ptr m_defrag keeps t.tx f.tx_sound,
        (λ calls cmd link. ioctl-MsgReady reg xreg txreg l calls link cmd t f),
      )
