-- ===== src/Xmac/If/Callbacks.antt =====
-- drivers/fxmac/phytium_xmac.c: the callbacks of the callout, of the media layer and of the MII bus. What
-- the PHY drivers do with the link is an argument.
use phytium_sdk.Prelude.{
  ℕ, ◌==◌, Bool, true, false, not, ◌&&◌, if◌then◌else◌, Outcome, returns, panics, ◌>>=◌,
}
use phytium_sdk.Xmac.Softc.{XmacSoftc, XmacReg}
use phytium_sdk.Xmac.Media.{mediachange}
use phytium_sdk.Xmac.If.Driver.{Driver}

-- each second the PHY is polled
unfoldable pub tick : (XmacSoftc → XmacSoftc) → Driver → Driver
tick mii_tick d = record d { rx = if d.has_miibus then mii_tick d.rx else d.rx; ticking = true }

-- `mii_mediachg` stands for the reset of each PHY and the call of that name. The `miibus` is read
-- without a test.
unfoldable pub ifmedia_upd : (XmacSoftc → ℕ × XmacSoftc) → Driver → Outcome (ℕ × Driver)
ifmedia_upd mii_mediachg d =
    if not d.has_miibus
    then panics
    else if d.flags.up
    then (let r = mii_mediachg d.rx in returns (r.0, record d { rx = r.1 }))
    else returns (0, d)

unfoldable pub child_detached : Bool → Driver → Driver
child_detached is_miibus d = if is_miibus then record d { has_miibus = false } else d

-- `phytium_xmac_miibus_statchg`; `usable`: IFM_ACTIVE and IFM_AVALID are set, `active` is the
-- `mii_media_active` of the PHY; the `miibus` is read without a test
unfoldable pub statchg : XmacReg → ℕ → Bool → ℕ → Driver → Outcome Driver
unfolding mediachange
statchg xreg hsmac_value usable active d =
    if not d.has_miibus
    then panics
    else if usable && not (d.rx.mii_media_active == active)
    then (mediachange xreg hsmac_value active d.rx >>= λ rx. returns (record d { rx = rx }))
    else returns d
