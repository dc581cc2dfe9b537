-- ===== src/Xmac/If/Ioctl.antt =====
-- drivers/fxmac/phytium_xmac.c: `phytium_xmac_ioctl`. The bits for checksums over IPv6, which follow those
-- over IPv4, are left out.
use phytium_sdk.Prelude.{
  ℕ, Bool, false, ◌&&◌, ◌||◌, Option, bit_or, if◌then◌else◌, Outcome, returns, ◌>>=◌,
}
use phytium_sdk.Bits.{differs}
use phytium_sdk.Xmac.Softc.{XmacSoftc, XmacReg, Mbuf}
use phytium_sdk.Xmac.Media.{clear}
use phytium_sdk.Xmac.Tx.Ring.{TxReg}
use phytium_sdk.Xmac.If.Driver.{Driver, IfFlags, IfReg, nwcfg, dmacr, write_reg, set_net_cfg}
use phytium_sdk.Xmac.If.Filter.{rx_filter}
use phytium_sdk.Xmac.If.Start.{init_locked, stop}

-- the commands, with IFCAP_TXCSUM and IFCAP_RXCSUM of the capabilities asked for
pub data IoctlCmd : Type 0 where
  siocsifflags siocaddmulti siocdelmulti siocsifmedia siocgifmedia other_cmd : IoctlCmd
  siocsifcap : Bool → Bool → IoctlCmd

-- `ENXIO` of errno.h
abbrev pub enxio : ℕ
enxio = 6

-- What the code outside the driver answers: the registers, `m_getcl`, `mii_mediachg`,
-- `ifmedia_ioctl` and `ether_ioctl`.
pub record IoctlCalls : Type 0 where
  pub designcfg_value : ℕ
  pub dmacr_value : ℕ
  pub m_getcl : ℕ → Option Mbuf
  pub mii_mediachg : XmacSoftc → XmacSoftc
  pub ifmedia_ioctl : XmacSoftc → ℕ × XmacSoftc
  -- its error, the flags that it leaves, and whether it calls `phytium_xmac_init`
  pub ether_ioctl : IfFlags → ℕ × IfFlags × Bool

module _ (reg : IfReg) where
  unfoldable pub set_txcsum : ℕ → Bool → Driver → Driver
  unfolding write_reg clear
  set_txcsum dmacr_value on d =
      write_reg dmacr
        (if on then bit_or dmacr_value reg.dmacr_tcpcksum else clear dmacr_value reg.dmacr_tcpcksum)
        (record d { txcsum = on; hwassist = on })

  unfoldable pub set_rxcsum : Bool → Driver → Driver
  unfolding write_reg set_net_cfg clear
  set_rxcsum on d =
      let cfg =
        if on
        then bit_or d.rx.net_cfg_shadow reg.nwcfg_rxchksumen
        else clear d.rx.net_cfg_shadow reg.nwcfg_rxchksumen in
      write_reg nwcfg cfg (record d { rx = record (d.rx) { rxcsum = on; net_cfg_shadow = cfg } })

  unfoldable pub set_caps : ℕ → Bool → Bool → Driver → Driver
  unfolding set_txcsum set_rxcsum
  set_caps dmacr_value tx_asked rx_asked d =
      let t = if differs d.txcsum tx_asked then set_txcsum dmacr_value tx_asked d else d in
      let u = if differs d.rx.rxcsum rx_asked then set_rxcsum rx_asked t else t in
      record u { vlan_hwcsum = u.rx.rxcsum && u.txcsum }

  module _ (xreg : XmacReg) (txreg : TxReg) (calls : IoctlCalls) where
    unfoldable pub set_flags : Driver → Outcome Driver
    unfolding rx_filter init_locked stop
    set_flags d =
        if d.flags.up
        then (if d.running
            then (if differs d.flags.promisc d.old_flags.promisc
                  || differs d.flags.allmulti d.old_flags.allmulti
                then rx_filter reg d
                else returns d)
            else init_locked reg xreg calls.mii_mediachg calls.m_getcl d)
        else returns (
            if d.running
            then stop reg xreg txreg calls.designcfg_value (record d { running = false })
            else d)

    -- the multicast addresses have changed
    unfoldable pub set_multi : Driver → Outcome Driver
    unfolding rx_filter
    set_multi d = if d.running then rx_filter reg d else returns d

    unfoldable pub set_media : Driver → ℕ × Driver
    set_media d =
        if d.has_miibus
        then (let r = calls.ifmedia_ioctl d.rx in (r.0, record d { rx = r.1 }))
        else (enxio, d)

    -- `phytium_xmac_init`, where `ether_ioctl` calls it
    unfoldable pub set_address : Bool → Driver → Outcome Driver
    unfolding init_locked
    set_address inits d =
        if inits then init_locked reg xreg calls.mii_mediachg calls.m_getcl d else returns d

    unfoldable pub ioctl : IoctlCmd → Driver → Outcome (ℕ × Driver)
    unfolding set_flags set_multi set_media set_caps set_address
    ioctl siocsifflags d = set_flags d >>= λ t. returns (0, record t { old_flags = t.flags })
    ioctl siocaddmulti d = set_multi d >>= λ t. returns (0, t)
    ioctl siocdelmulti d = set_multi d >>= λ t. returns (0, t)
    ioctl siocsifmedia d = returns (set_media d)
    ioctl siocgifmedia d = returns (set_media d)
    ioctl (siocsifcap tx_asked rx_asked) d =
        returns (0, set_caps calls.dmacr_value tx_asked rx_asked d)
    ioctl other_cmd d =
        let (error, flags, inits) = calls.ether_ioctl d.flags in
        set_address inits (record d { flags = flags }) >>= λ t. returns (error, t)
