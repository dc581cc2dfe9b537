-- ===== src/XmacV2/Control.antt =====
-- The ioctl calls of the second driver return and keep both rings in order.
use phytium_sdk.Prelude.{
  ℕ, ◌≡◌, refl, ap, Bool, true, false, if◌then◌else◌, Outcome, returns, ◌>>=◌,
}
use phytium_sdk.Bits.{differs}
use phytium_sdk.Xmac.Softc.{XmacReg}
use phytium_sdk.Xmac.Tx.Ring.{TxReg}
use phytium_sdk.Xmac.Tx.Words.{IsTxLayout}
use phytium_sdk.Xmac.If.Ioctl.{
  IoctlCmd, IoctlCalls, enxio, siocsifflags, siocaddmulti, siocdelmulti, siocsifmedia, siocgifmedia,
  siocsifcap, other_cmd,
}
use phytium_sdk.Xmac.If.Stopped.{same_fields}
use phytium_sdk.Xmac.If.Opened.{IsLinkOnly}
use phytium_sdk.XmacV2.Driver.{MsgDriver, MsgReg, tell}
use phytium_sdk.XmacV2.Filter.{msg_rx_filter}
use phytium_sdk.XmacV2.Start.{msg_stop}
use phytium_sdk.XmacV2.Ioctl.{
  msg_set_txcsum, msg_set_rxcsum, msg_set_caps, msg_set_flags, msg_set_multi, msg_set_media,
  msg_init, msg_ioctl,
}
use phytium_sdk.XmacV2.Hashed.{msg_rx_filter-AsksFor}
use phytium_sdk.XmacV2.Stopped.{msg_stop-MsgReady, msg_init_locked-MsgReady}
use phytium_sdk.XmacV2.Ready.{
  MsgReady, KeepsMsgReady, returns-KeepsMsgReady, if-KeepsMsgReady, if-MsgReady,
  LeavesRing-RingsReady,
}

-- the same as `KeepsMsgReady` for a call with an error number
abbrev pub RepliesMsgReady : TxReg → Outcome (ℕ × MsgDriver) → Type 0
RepliesMsgReady txreg o = (r : ℕ × MsgDriver) × (o ≡ returns r) × MsgReady txreg r.1

module _ (reg : MsgReg) (xreg : XmacReg) (txreg : TxReg) (l : IsTxLayout txreg) (calls : IoctlCalls)
    (link : IsLinkOnly calls) where
  rx_filter-MsgReady : (d : MsgDriver) → MsgReady txreg d → KeepsMsgReady txreg (msg_rx_filter d)
  rx_filter-MsgReady d f =
      let (t, hs, e, g) = msg_rx_filter-AsksFor d in (t, e, rw (g.same_rx, g.same_tx) f)

  set_flags-MsgReady :
      (d : MsgDriver)
      → MsgReady txreg d
      → KeepsMsgReady txreg (msg_set_flags reg xreg txreg calls d)
  unfolding msg_set_flags
  set_flags-MsgReady d f =
      if-KeepsMsgReady txreg d.flags.up
        (if-KeepsMsgReady txreg d.running
          (if-KeepsMsgReady txreg _ (rx_filter-MsgReady d f) (returns-KeepsMsgReady txreg d f))
          (msg_init_locked-MsgReady reg xreg txreg l calls link d f))
        (returns-KeepsMsgReady txreg _ (
          if-MsgReady txreg d.running (msg_stop reg xreg txreg (record d { running = false })) d
            (msg_stop-MsgReady reg xreg txreg l (record d { running = false }) f) f))

  set_multi-MsgReady :
      (d : MsgDriver)
      → MsgReady txreg d
      → KeepsMsgReady txreg (msg_set_multi reg xreg txreg calls d)
  unfolding msg_set_multi
  set_multi-MsgReady d f =
      if-KeepsMsgReady txreg d.running (rx_filter-MsgReady d f) (returns-KeepsMsgReady txreg d f)

  set_media-MsgReady :
      (d : MsgDriver) → MsgReady txreg d → MsgReady txreg (msg_set_media reg xreg txreg calls d).1
  unfolding msg_set_media
  set_media-MsgReady d f = by_bus d.has_miibus
    where
      by_bus :
          (b : Bool)
          → MsgReady txreg (
              let r : ℕ × MsgDriver =
                if b
                then ((calls.ifmedia_ioctl d.rx).0, record d { rx = (calls.ifmedia_ioctl d.rx).1 })
                else (enxio, d) in
              r.1)
      by_bus true =
          LeavesRing-RingsReady txreg d.rx (calls.ifmedia_ioctl d.rx).1 d.tx (link.ifmedia d.rx) f
      by_bus false = f

  set_rxcsum-MsgReady :
      (on : Bool) (d : MsgDriver) → MsgReady txreg d → MsgReady txreg (msg_set_rxcsum on d)
  unfolding msg_set_rxcsum tell
  set_rxcsum-MsgReady on d f =
      LeavesRing-RingsReady txreg d.rx _ d.tx (same_fields _ _ refl refl refl refl refl) f

  set_txcsum-MsgReady :
      (on : Bool) (d : MsgDriver) → MsgReady txreg d → MsgReady txreg (msg_set_txcsum on d)
  unfolding msg_set_txcsum tell
  set_txcsum-MsgReady on d f = f

  set_caps-MsgReady :
      (tx_asked rx_asked : Bool) (d : MsgDriver)
      → MsgReady txreg d
      → MsgReady txreg (msg_set_caps tx_asked rx_asked d)
  unfolding msg_set_caps
  set_caps-MsgReady tx_asked rx_asked d f =
      let t = if differs d.txcsum tx_asked then msg_set_txcsum tx_asked d else d in
      let g =
        if-MsgReady txreg (differs d.txcsum tx_asked) (msg_set_txcsum tx_asked d) d
          (set_txcsum-MsgReady tx_asked d f) f in
      if-MsgReady txreg (differs d.rx.rxcsum rx_asked) (msg_set_rxcsum rx_asked t) t
        (set_rxcsum-MsgReady rx_asked t g) g

  call-RepliesMsgReady :
      {o : Outcome MsgDriver} (next : MsgDriver → ℕ × MsgDriver)
      → KeepsMsgReady txreg o
      → ((t : MsgDriver) → MsgReady txreg t → MsgReady txreg (next t).1)
      → RepliesMsgReady txreg (o >>= λ t. returns (next t))
  call-RepliesMsgReady next (t, e, f) g = (next t, ap (λ o. o >>= λ t. returns (next t)) e, g t f)

  pub ioctl-MsgReady :
      (cmd : IoctlCmd) (d : MsgDriver)
      → MsgReady txreg d
      → RepliesMsgReady txreg (msg_ioctl reg xreg txreg calls cmd d)
  unfolding msg_ioctl msg_init
  ioctl-MsgReady siocsifflags d f = call-RepliesMsgReady _ (set_flags-MsgReady d f) (λ t g. g)
  ioctl-MsgReady siocaddmulti d f = call-RepliesMsgReady _ (set_multi-MsgReady d f) (λ t g. g)
  ioctl-MsgReady siocdelmulti d f = call-RepliesMsgReady _ (set_multi-MsgReady d f) (λ t g. g)
  ioctl-MsgReady siocsifmedia d f = (_, refl, set_media-MsgReady d f)
  ioctl-MsgReady siocgifmedia d f = (_, refl, set_media-MsgReady d f)
  ioctl-MsgReady (siocsifcap tx_asked rx_asked) d f =
      (_, refl, set_caps-MsgReady tx_asked rx_asked d f)
  ioctl-MsgReady other_cmd d f =
      let (error, flags, inits) = calls.ether_ioctl d.flags in
      call-RepliesMsgReady _
        (if-KeepsMsgReady txreg inits
          (msg_init_locked-MsgReady reg xreg txreg l calls link (record d { flags = flags }) f)
          (returns-KeepsMsgReady txreg (record d { flags = flags }) f))
        (λ t h. h)
