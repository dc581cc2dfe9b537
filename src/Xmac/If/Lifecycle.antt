-- ===== src/Xmac/If/Lifecycle.antt =====
-- The whole interface over time: the network stack, the administrator and the device share it.
use phytium_sdk.Prelude.{
  ℕ, ◌≤◌, ◌≡◌, refl, sym, ap, subst, ◌∙◌, Bool, false, List, [], Option, some, Outcome, returns,
  returns-injective,
}
use phytium_sdk.Xmac.Softc.{XmacSoftc, XmacReg, Mbuf, RxDesc}
use phytium_sdk.Xmac.Rx.{setup_rx_descs}
use phytium_sdk.Xmac.Rx.Ring.{setup_rx_descs-IsRing}
use phytium_sdk.Xmac.Tx.Ring.{TxPacket, TxReg, setup_tx_descs}
use phytium_sdk.Xmac.Tx.Output.{start_tx, start_locked}
use phytium_sdk.Xmac.Tx.Words.{IsTxLayout}
use phytium_sdk.Xmac.Tx.Sendable.{IsSendable}
use phytium_sdk.Xmac.Tx.Pump.{AreSendable}
use phytium_sdk.Xmac.Tx.Run.{
  IsSound, TxStep, TxStep-IsSound, start_locked-IsSound, setup_tx_descs-IsTxRing,
}
use phytium_sdk.Xmac.If.Driver.{Driver, IfFlags, IfReg}
use phytium_sdk.Xmac.If.Start.{init_locked, stop}
use phytium_sdk.Xmac.If.Intr.{intr}
use phytium_sdk.Xmac.If.Ioctl.{IoctlCalls, IoctlCmd, ioctl}
use phytium_sdk.Xmac.If.Callbacks.{tick, ifmedia_upd, child_detached, statchg}
use phytium_sdk.Xmac.If.Relinked.{ifmedia_upd-IsReady, statchg-IsReady}
use phytium_sdk.Xmac.If.Sound.{IsReady, KeepsReady, if-IsReady, intr-IsReady}
use phytium_sdk.Xmac.If.Stopped.{LeavesRing, same_fields, LeavesRing-IsRing, stop-IsReady}
use phytium_sdk.Xmac.If.Opened.{IsLinkOnly, LeavesRing-if, LeavesRing-IsReady, init_locked-IsReady}
use phytium_sdk.Xmac.If.Control.{RepliesReady, ioctl-IsReady}

-- the driver as `phytium_xmac_setup_descs` leaves it
abbrev pub attached : XmacReg → TxReg → Driver → Driver
attached xreg txreg d = record d {
  rx = setup_rx_descs xreg d.rx;
  tx = setup_tx_descs txreg d.tx;
  running = false;
}

module _ (reg : IfReg) (xreg : XmacReg) (txreg : TxReg)
    (m_defrag : TxPacket → Option TxPacket) where
  -- one step of the stack, the device, the administrator or the driver
  pub data IfStep : Driver → Driver → Type 0 where
    transmits :
        (d : Driver) (t : _)
        → TxStep txreg (start_tx txreg d.rx.version d.net_ctl_shadow) m_defrag d.tx t
        → IfStep d (record d { tx = t })
    fills :
        (d : Driver) (ring : ℕ → RxDesc)
        → IfStep d (record d { rx = record (d.rx) { rxring = ring } })
    joins : (d : Driver) (addresses : List (ℕ → ℕ)) → IfStep d (record d { multicast = addresses })
    flags_set : (d : Driver) (flags : IfFlags) → IfStep d (record d { flags = flags })
    interrupts :
        (d t : Driver) (istatus : ℕ) (alloc alloc_more : ℕ → Option Mbuf)
        → intr reg xreg txreg istatus alloc alloc_more m_defrag d ≡ returns t
        → IfStep d t
    opens :
        (d t : Driver) (calls : IoctlCalls)
        → IsLinkOnly calls
        → init_locked reg xreg calls.mii_mediachg calls.m_getcl d ≡ returns t
        → IfStep d t
    stops : (d : Driver) (designcfg : ℕ) → IfStep d (stop reg xreg txreg designcfg d)
    ticks :
        (d : Driver) (mii_tick : XmacSoftc → XmacSoftc)
        → LeavesRing d.rx (mii_tick d.rx)
        → IfStep d (tick mii_tick d)
    sets_media :
        (d t : Driver) (mii_mediachg : XmacSoftc → ℕ × XmacSoftc) (error : ℕ)
        → LeavesRing d.rx (mii_mediachg d.rx).1
        → ifmedia_upd mii_mediachg d ≡ returns (error, t)
        → IfStep d t
    loses_child : (d : Driver) (is_miibus : Bool) → IfStep d (child_detached is_miibus d)
    link_changes :
        (d t : Driver) (hsmac_value active : ℕ) (usable : Bool)
        → statchg xreg hsmac_value usable active d ≡ returns t
        → IfStep d t
    controls :
        (d t : Driver) (calls : IoctlCalls) (cmd : IoctlCmd) (error : ℕ)
        → IsLinkOnly calls
        → ioctl reg xreg txreg calls cmd d ≡ returns (error, t)
        → IfStep d t

  pub data IfReach (d : Driver) : Driver → Type 0 where
    at_start : IfReach d d
    then_step : {t u : Driver} → IfReach d t → IfStep t u → IfReach d u

module _ (reg : IfReg) (xreg : XmacReg) (txreg : TxReg) (l : IsTxLayout txreg)
    (m_defrag : TxPacket → Option TxPacket)
    (keeps : (p d : TxPacket) → m_defrag p ≡ some d → IsSendable d) where
  KeepsReady-IsReady :
      {o : Outcome Driver} {t : Driver} → KeepsReady txreg o → o ≡ returns t → IsReady txreg t
  KeepsReady-IsReady (u, e, f) e' = subst (IsReady txreg) (returns-injective (sym e ∙ e')) f

  IfStep-IsReady :
      {d t : Driver} → IfStep reg xreg txreg m_defrag d t → IsReady txreg d → IsReady txreg t
  unfolding tick child_detached
  IfStep-IsReady (transmits d t step) f = record {
    rx_ring = f.rx_ring;
    wanted = f.wanted;
    tx_sound =
        TxStep-IsSound txreg l (start_tx txreg d.rx.version d.net_ctl_shadow) m_defrag keeps step
          f.tx_sound;
  }
  IfStep-IsReady (fills d ring) f = record {
    rx_ring = LeavesRing-IsRing d.rx _ (same_fields _ _ refl refl refl refl refl) f.rx_ring;
    wanted = f.wanted;
    tx_sound = f.tx_sound;
  }
  IfStep-IsReady (joins d addresses) f = record {
    rx_ring = f.rx_ring;
    wanted = f.wanted;
    tx_sound = f.tx_sound;
  }
  IfStep-IsReady (flags_set d flags) f = record {
    rx_ring = f.rx_ring;
    wanted = f.wanted;
    tx_sound = f.tx_sound;
  }
  IfStep-IsReady (interrupts d t istatus alloc alloc_more e) f =
      KeepsReady-IsReady (intr-IsReady reg xreg txreg l m_defrag keeps istatus alloc alloc_more d f)
        e
  IfStep-IsReady (opens d t calls link e) f =
      KeepsReady-IsReady (init_locked-IsReady reg xreg txreg l calls link d f) e
  IfStep-IsReady (stops d designcfg) f = stop-IsReady reg xreg txreg l designcfg d f
  IfStep-IsReady (ticks d mii_tick same) f =
      let g =
        LeavesRing-IsReady txreg d _ (LeavesRing-if d.has_miibus d.rx (mii_tick d.rx) same) f in
      record { rx_ring = g.rx_ring; wanted = g.wanted; tx_sound = g.tx_sound }
  IfStep-IsReady (sets_media d t mii_mediachg error same e) f =
      ifmedia_upd-IsReady txreg mii_mediachg d t same f e
  IfStep-IsReady (loses_child d is_miibus) f =
      if-IsReady txreg is_miibus
        (record { rx_ring = f.rx_ring; wanted = f.wanted; tx_sound = f.tx_sound }) f
  IfStep-IsReady (link_changes d t hsmac_value active usable e) f =
      statchg-IsReady txreg xreg hsmac_value usable active d t f e
  IfStep-IsReady (controls d t calls cmd error link e) f =
      let (r, e', g) = ioctl-IsReady reg xreg txreg l calls link cmd d f in
      subst (IsReady txreg) (ap (λ r. r.1) (returns-injective (sym e' ∙ e))) g

  IfReach-IsReady :
      {d t : Driver} → IfReach reg xreg txreg m_defrag d t → IsReady txreg d → IsReady txreg t
  IfReach-IsReady at_start f = f
  IfReach-IsReady (then_step r step) f = IfStep-IsReady step (IfReach-IsReady r f)

  pub attached-IsReady :
      (d : Driver) → d.tx.sendq ≡ [] → d.rx.rxbufs ≤ 512 → IsReady txreg (attached xreg txreg d)
  unfolding setup_rx_descs setup_tx_descs
  attached-IsReady d none_waits bounded = record {
    rx_ring = setup_rx_descs-IsRing xreg d.rx;
    wanted = bounded;
    tx_sound = record {
      queue = [];
      ring = setup_tx_descs-IsTxRing txreg l d.tx;
      waiting = subst AreSendable (sym none_waits) tt;
    };
  }

  -- However the arrival of packets, the reports of the device in both rings, new flags, multicast
  -- addresses and links, interrupts, transmission, starting, stopping, ticks, new media, the loss of
  -- the MII bus and ioctl calls follow one another after the set-up of the rings, both rings are in
  -- order, and the next interrupt, the next transmission and the next ioctl call return. Each step
  -- that can panic is one that returned: a new media and a change of the link need a MII bus. No packet waits at first, at most 512 receive buffers are wanted,
  -- packets that arrive and what `m_defrag` makes of them can be sent, the PHY drivers leave the
  -- receive ring alone, and the masks of a transmit descriptor's marks are those of the manual.
  pub IfReach-returns :
      (d t : Driver)
      → d.tx.sendq ≡ []
      → d.rx.rxbufs ≤ 512
      → IfReach reg xreg txreg m_defrag (attached xreg txreg d) t
      → IsReady txreg t
        × ((istatus : ℕ) (alloc alloc_more : ℕ → Option Mbuf)
            → KeepsReady txreg (intr reg xreg txreg istatus alloc alloc_more m_defrag t))
        × ((u : _) × (start_locked txreg
                (start_tx txreg t.rx.version t.net_ctl_shadow)
                m_defrag
                t.tx
              ≡ returns u)
            × IsSound txreg u)
        × ((calls : IoctlCalls) (cmd : IoctlCmd)
            → IsLinkOnly calls
            → RepliesReady txreg (ioctl reg xreg txreg calls cmd t))
  IfReach-returns d t none_waits bounded r =
      let f = IfReach-IsReady r (attached-IsReady d none_waits bounded) in
      (
        f,
        (λ istatus alloc alloc_more.
            intr-IsReady reg xreg txreg l m_defrag keeps istatus alloc alloc_more t f),
        start_locked-IsSound txreg l (start_tx txreg t.rx.version t.net_ctl_shadow) m_defrag keeps
            t.tx f.tx_sound,
        (λ calls cmd link. ioctl-IsReady reg xreg txreg l calls link cmd t f),
      )
