-- ===== src/Xmac/If/Control.antt =====
-- The ioctl calls return and keep both rings in order.
use phytium_sdk.Prelude.{
  ℕ, ◌≡◌, refl, Bool, true, false, if◌then◌else◌, Outcome, returns, ◌>>=◌, ap,
}
use phytium_sdk.Bits.{differs}
use phytium_sdk.Xmac.Softc.{XmacReg}
use phytium_sdk.Xmac.Tx.Ring.{TxReg}
use phytium_sdk.Xmac.Tx.Words.{IsTxLayout}
use phytium_sdk.Xmac.If.Driver.{Driver, IfReg, write_reg, set_net_cfg}
use phytium_sdk.Xmac.If.Filter.{rx_filter}
use phytium_sdk.Xmac.If.Hashes.{hashes_for-hash_bit}
use phytium_sdk.Xmac.If.Ioctl.{
  IoctlCalls, IoctlCmd, siocsifflags, siocaddmulti, siocdelmulti, siocsifmedia, siocgifmedia,
  siocsifcap, other_cmd, set_flags, set_multi, set_media, set_caps, set_txcsum, set_rxcsum,
  set_address, ioctl, enxio,
}
use phytium_sdk.Xmac.If.Sound.{
  IsReady, KeepsReady, returns-KeepsReady, if-KeepsReady, call-KeepsReady, if-IsReady,
}
use phytium_sdk.Xmac.If.Stopped.{same_fields, LeavesRing-IsRing, stop-IsReady}
use phytium_sdk.Xmac.If.Opened.{IsLinkOnly, LeavesRing-IsReady, init_locked-IsReady}

-- the same as `KeepsReady` for a call with an error number
abbrev pub RepliesReady : TxReg → Outcome (ℕ × Driver) → Type 0
RepliesReady txreg o = (r : ℕ × Driver) × (o ≡ returns r) × IsReady txreg r.1

module _ (reg : IfReg) (xreg : XmacReg) (txreg : TxReg) (l : IsTxLayout txreg) (calls : IoctlCalls)
    (link : IsLinkOnly calls) where
  rx_filter-IsReady : (d : Driver) → IsReady txreg d → KeepsReady txreg (rx_filter reg d)
  unfolding rx_filter write_reg set_net_cfg
  rx_filter-IsReady d f =
      let (hs, e, _) = hashes_for-hash_bit d in
      call-KeepsReady txreg _ e (
        returns-KeepsReady txreg _ (record {
          rx_ring = LeavesRing-IsRing d.rx _ (same_fields _ _ refl refl refl refl refl) f.rx_ring;
          wanted = f.wanted;
          tx_sound = f.tx_sound;
        }))

  set_flags-IsReady :
      (d : Driver) → IsReady txreg d → KeepsReady txreg (set_flags reg xreg txreg calls d)
  unfolding set_flags
  set_flags-IsReady d f =
      if-KeepsReady txreg d.flags.up
        (if-KeepsReady txreg d.running
          (if-KeepsReady txreg _ (rx_filter-IsReady d f) (returns-KeepsReady txreg d f))
          (init_locked-IsReady reg xreg txreg l calls link d f))
        (returns-KeepsReady txreg _ (
          if-IsReady txreg d.running
            (stop-IsReady reg xreg txreg l calls.designcfg_value (record d { running = false })
              (record { rx_ring = f.rx_ring; wanted = f.wanted; tx_sound = f.tx_sound }))
            f))

  set_multi-IsReady :
      (d : Driver) → IsReady txreg d → KeepsReady txreg (set_multi reg xreg txreg calls d)
  unfolding set_multi
  set_multi-IsReady d f =
      if-KeepsReady txreg d.running (rx_filter-IsReady d f) (returns-KeepsReady txreg d f)

  set_media-IsReady :
      (d : Driver) → IsReady txreg d → IsReady txreg (set_media reg xreg txreg calls d).1
  unfolding set_media
  set_media-IsReady d f = by_bus d.has_miibus
    where
      by_bus :
          (b : Bool)
          → IsReady txreg (
              let r : ℕ × Driver =
                if b
                then ((calls.ifmedia_ioctl d.rx).0, record d { rx = (calls.ifmedia_ioctl d.rx).1 })
                else (enxio, d) in
              r.1)
      by_bus true = LeavesRing-IsReady txreg d (calls.ifmedia_ioctl d.rx).1 (link.ifmedia d.rx) f
      by_bus false = f

  set_txcsum-IsReady :
      (dmacr_value : ℕ) (on : Bool) (d : Driver)
      → IsReady txreg d
      → IsReady txreg (set_txcsum reg dmacr_value on d)
  unfolding set_txcsum write_reg
  set_txcsum-IsReady dmacr_value on d f = record {
    rx_ring = f.rx_ring;
    wanted = f.wanted;
    tx_sound = f.tx_sound;
  }

  set_rxcsum-IsReady :
      (on : Bool) (d : Driver) → IsReady txreg d → IsReady txreg (set_rxcsum reg on d)
  unfolding set_rxcsum write_reg
  set_rxcsum-IsReady on d f = record {
    rx_ring = LeavesRing-IsRing d.rx _ (same_fields _ _ refl refl refl refl refl) f.rx_ring;
    wanted = f.wanted;
    tx_sound = f.tx_sound;
  }

  set_caps-IsReady :
      (dmacr_value : ℕ) (tx_asked rx_asked : Bool) (d : Driver)
      → IsReady txreg d
      → IsReady txreg (set_caps reg dmacr_value tx_asked rx_asked d)
  unfolding set_caps
  set_caps-IsReady dmacr_value tx_asked rx_asked d f =
      let t = if differs d.txcsum tx_asked then set_txcsum reg dmacr_value tx_asked d else d in
      let g : IsReady txreg t =
        if-IsReady txreg (differs d.txcsum tx_asked) (set_txcsum-IsReady dmacr_value tx_asked d f)
          f in
      let h = if-IsReady txreg (differs d.rx.rxcsum rx_asked) (set_rxcsum-IsReady rx_asked t g) g in
      record { rx_ring = h.rx_ring; wanted = h.wanted; tx_sound = h.tx_sound }

  call-RepliesReady :
      {o : Outcome Driver} (next : Driver → ℕ × Driver)
      → KeepsReady txreg o
      → ((t : Driver) → IsReady txreg t → IsReady txreg (next t).1)
      → RepliesReady txreg (o >>= λ t. returns (next t))
  call-RepliesReady next (t, e, f) g = (next t, ap (λ o. o >>= λ t. returns (next t)) e, g t f)

  pub ioctl-IsReady :
      (cmd : IoctlCmd) (d : Driver)
      → IsReady txreg d
      → RepliesReady txreg (ioctl reg xreg txreg calls cmd d)
  unfolding ioctl set_address
  ioctl-IsReady siocsifflags d f =
      call-RepliesReady _ (set_flags-IsReady d f)
        (λ t g. record { rx_ring = g.rx_ring; wanted = g.wanted; tx_sound = g.tx_sound })
  ioctl-IsReady siocaddmulti d f = call-RepliesReady _ (set_multi-IsReady d f) (λ t g. g)
  ioctl-IsReady siocdelmulti d f = call-RepliesReady _ (set_multi-IsReady d f) (λ t g. g)
  ioctl-IsReady siocsifmedia d f = (_, refl, set_media-IsReady d f)
  ioctl-IsReady siocgifmedia d f = (_, refl, set_media-IsReady d f)
  ioctl-IsReady (siocsifcap tx_asked rx_asked) d f =
      (_, refl, set_caps-IsReady calls.dmacr_value tx_asked rx_asked d f)
  ioctl-IsReady other_cmd d f =
      let (error, flags, inits) = calls.ether_ioctl d.flags in
      let g : IsReady txreg (record d { flags = flags }) = record {
        rx_ring = f.rx_ring;
        wanted = f.wanted;
        tx_sound = f.tx_sound;
      } in
      call-RepliesReady _
        (if-KeepsReady txreg inits
          (init_locked-IsReady reg xreg txreg l calls link (record d { flags = flags }) g)
          (returns-KeepsReady txreg _ g))
        (λ t h. h)
