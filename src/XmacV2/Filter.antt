-- ===== src/XmacV2/Filter.antt =====
-- drivers/fxmac_v2_0/phytium_xmac_v2.c: `phytium_xmac_msg_rx_filter`, and the link.
use phytium_sdk.Prelude.{
  ℕ, ◌-◌, ◌^◌, ◌==◌, Bool, true, not, ◌&&◌, List, [], ◌∷◌, bit_and, if◌then◌else◌, Outcome, returns,
  panics, ◌>>=◌,
}
use phytium_sdk.Xmac.If.Filter.{Hashes}
use phytium_sdk.XmacV2.Driver.{
  MsgDriver, enable_promise, set_mc_hash, interface_linkup, mdio_read, mdio_write, tell, tell_if,
}
use phytium_sdk.XmacV2.Rings.{msg_hash_maddr}

-- `if_foreach_llmaddr(ifp, phytium_xmac_msg_hash_maddr, hashes)`
unfoldable pub msg_hash_all : List (ℕ → ℕ) → Hashes → Outcome Hashes
unfolding msg_hash_maddr
msg_hash_all [] hs = returns hs
msg_hash_all (e ∷ es) hs = msg_hash_maddr e hs >>= msg_hash_all es

-- the hash registers for the flags and the addresses
unfoldable pub msg_hashes_for : MsgDriver → Outcome Hashes
unfolding msg_hash_all
msg_hashes_for d =
    if d.flags.promisc
    then returns (record { high = 0; low = 0 })
    else if d.flags.allmulti
    then returns (record { high = 2 ^ 32 - 1; low = 2 ^ 32 - 1 })
    else msg_hash_all d.multicast (record { high = 0; low = 0 })

unfoldable pub msg_rx_filter : MsgDriver → Outcome MsgDriver
unfolding msg_hashes_for tell tell_if
msg_rx_filter d = msg_hashes_for d >>= λ hs.
    returns (tell (set_mc_hash hs.high hs.low) (tell_if d.flags.promisc (enable_promise true) d))

-- `active` is the `mii_media_active` of the PHY
unfoldable pub msg_mediachange : ℕ → MsgDriver → MsgDriver
unfolding tell
msg_mediachange active d =
    let t = tell interface_linkup d in record t { rx = record (t.rx) { mii_media_active = active } }

-- `phytium_xmac_msg_miibus_statchg`; `usable`: IFM_ACTIVE and IFM_AVALID are
-- set; the `miibus` is read without a test
unfoldable pub msg_statchg : Bool → ℕ → MsgDriver → Outcome MsgDriver
unfolding msg_mediachange
msg_statchg usable active d =
    if not d.has_miibus
    then panics
    else returns
        (if usable && not (d.rx.mii_media_active == active) then msg_mediachange active d else d)

-- `answer` is what `FXMAC_MSG_MDIO` reads when the controller is idle.
unfoldable pub msg_readreg : ℕ → ℕ → ℕ → MsgDriver → ℕ × MsgDriver
unfolding tell
msg_readreg answer phy reg d = (bit_and answer 0xffff, tell (mdio_read phy reg) d)

unfoldable pub msg_writereg : ℕ → ℕ → ℕ → MsgDriver → ℕ × MsgDriver
unfolding tell
msg_writereg phy reg value d = (0, tell (mdio_write phy reg value) d)
