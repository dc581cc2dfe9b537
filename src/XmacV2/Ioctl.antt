-- ===== src/XmacV2/Ioctl.antt =====
-- drivers/fxmac_v2_0/phytium_xmac_v2.c: `phytium_xmac_msg_ioctl`. The bits for checksums over IPv6, which
-- follow those over IPv4, are left out.
use phytium_sdk.Prelude.{ℕ, Bool, false, ◌&&◌, ◌||◌, if◌then◌else◌, Outcome, returns, ◌>>=◌}
use phytium_sdk.Bits.{differs}
use phytium_sdk.Xmac.Softc.{XmacReg}
use phytium_sdk.Xmac.Tx.Ring.{TxReg}
use phytium_sdk.Xmac.If.Ioctl.{
  IoctlCmd, IoctlCalls, enxio, siocsifflags, siocaddmulti, siocdelmulti, siocsifmedia, siocgifmedia,
  siocsifcap, other_cmd,
}
use phytium_sdk.XmacV2.Driver.{MsgDriver, MsgReg, enable_txcsum, enable_rxcsum, tell}
use phytium_sdk.XmacV2.Filter.{msg_rx_filter}
use phytium_sdk.XmacV2.Start.{msg_init_locked, msg_stop}

unfoldable pub msg_set_txcsum : Bool → MsgDriver → MsgDriver
unfolding tell
msg_set_txcsum on d = tell (enable_txcsum on) (record d { txcsum = on; hwassist = on })

unfoldable pub msg_set_rxcsum : Bool → MsgDriver → MsgDriver
unfolding tell
msg_set_rxcsum on d = tell (enable_rxcsum on) (record d { rx = record (d.rx) { rxcsum = on } })

unfoldable pub msg_set_caps : Bool → Bool → MsgDriver → MsgDriver
unfolding msg_set_txcsum msg_set_rxcsum
msg_set_caps tx_asked rx_asked d =
    let t = if differs d.txcsum tx_asked then msg_set_txcsum tx_asked d else d in
    let u = if differs d.rx.rxcsum rx_asked then msg_set_rxcsum rx_asked t else t in
    record u { vlan_hwcsum = u.rx.rxcsum && u.txcsum }

module _ (reg : MsgReg) (xreg : XmacReg) (txreg : TxReg) (calls : IoctlCalls) where
  unfoldable pub msg_set_flags : MsgDriver → Outcome MsgDriver
  unfolding msg_rx_filter msg_init_locked msg_stop
  msg_set_flags d =
      if d.flags.up
      then (if d.running
          then (if differs d.flags.promisc d.old_flags.promisc
                || differs d.flags.allmulti d.old_flags.allmulti
              then msg_rx_filter d
              else returns d)
          else msg_init_locked reg xreg calls.mii_mediachg calls.m_getcl d)
      else returns (if d.running then msg_stop reg xreg txreg (record d { running = false }) else d)

  -- the multicast addresses have changed
  unfoldable pub msg_set_multi : MsgDriver → Outcome MsgDriver
  unfolding msg_rx_filter
  msg_set_multi d = if d.running then msg_rx_filter d else returns d

  unfoldable pub msg_set_media : MsgDriver → ℕ × MsgDriver
  msg_set_media d =
      if d.has_miibus
      then (let r = calls.ifmedia_ioctl d.rx in (r.0, record d { rx = r.1 }))
      else (enxio, d)

  -- `phytium_xmac_msg_init`, where `ether_ioctl` calls it
  unfoldable pub msg_init : Bool → MsgDriver → Outcome MsgDriver
  unfolding msg_init_locked
  msg_init inits d =
      if inits then msg_init_locked reg xreg calls.mii_mediachg calls.m_getcl d else returns d

  unfoldable pub msg_ioctl : IoctlCmd → MsgDriver → Outcome (ℕ × MsgDriver)
  unfolding msg_set_flags msg_set_multi msg_set_media msg_set_caps msg_init
  msg_ioctl siocsifflags d = msg_set_flags d >>= λ t. returns (0, record t { old_flags = t.flags })
  msg_ioctl siocaddmulti d = msg_set_multi d >>= λ t. returns (0, t)
  msg_ioctl siocdelmulti d = msg_set_multi d >>= λ t. returns (0, t)
  msg_ioctl siocsifmedia d = returns (msg_set_media d)
  msg_ioctl siocgifmedia d = returns (msg_set_media d)
  msg_ioctl (siocsifcap tx_asked rx_asked) d = returns (0, msg_set_caps tx_asked rx_asked d)
  msg_ioctl other_cmd d =
      let (error, flags, inits) = calls.ether_ioctl d.flags in
      msg_init inits (record d { flags = flags }) >>= λ t. returns (error, t)
