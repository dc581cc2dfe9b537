-- ===== src/XmacV2/Callbacks.antt =====
-- drivers/fxmac_v2_0/phytium_xmac_v2.c: the callbacks of the callout, of the media layer and of the MII
-- bus. What the PHY drivers do with the link is an argument.
use phytium_sdk.Prelude.{ℕ, Bool, true, false, not, if◌then◌else◌, Outcome, returns, panics}
use phytium_sdk.Xmac.Softc.{XmacSoftc}
use phytium_sdk.XmacV2.Driver.{MsgDriver}

-- each second the PHY is polled
unfoldable pub msg_tick : (XmacSoftc → XmacSoftc) → MsgDriver → MsgDriver
msg_tick mii_tick d = record d { rx = if d.has_miibus then mii_tick d.rx else d.rx; ticking = true }

-- `mii_mediachg` stands for the reset of each PHY and the call of that name. The `miibus` is read
-- without a test.
unfoldable pub msg_ifmedia_upd : (XmacSoftc → ℕ × XmacSoftc) → MsgDriver → Outcome (ℕ × MsgDriver)
msg_ifmedia_upd mii_mediachg d =
    if not d.has_miibus
    then panics
    else if d.flags.up
    then (let r = mii_mediachg d.rx in returns (r.0, record d { rx = r.1 }))
    else returns (0, d)

unfoldable pub msg_child_detached : Bool → MsgDriver → MsgDriver
msg_child_detached is_miibus d = if is_miibus then record d { has_miibus = false } else d
