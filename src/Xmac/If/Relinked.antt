-- ===== src/Xmac/If/Relinked.antt =====
-- A change of the link keeps both rings in order.
use phytium_sdk.Prelude.{
  ℕ, ◌≡◌, ◌==◌, refl, ap, subst, Bool, true, false, not, ◌&&◌, if◌then◌else◌, Outcome, returns,
  panics, out_of_fuel, ◌>>=◌, returns-injective, arith,
}
use phytium_sdk.Xmac.Softc.{XmacSoftc, XmacReg}
use phytium_sdk.Xmac.Media.{
  mediachange, set_clock, set_ref_clk_1p0, set_ref_clk_2p0, write_speed, write,
}
use phytium_sdk.Xmac.Tx.Ring.{TxReg}
use phytium_sdk.Xmac.If.Driver.{Driver}
use phytium_sdk.Xmac.If.Callbacks.{statchg, ifmedia_upd}
use phytium_sdk.Xmac.If.Sound.{IsReady}
use phytium_sdk.Xmac.If.Stopped.{LeavesRing, same_fields}
use phytium_sdk.Xmac.If.Opened.{LeavesRing-IsReady}

-- one of two clocks is set, or none
clock_or_panic :
    (b c : Bool) (media : ℕ) (s x y t : XmacSoftc)
    → LeavesRing s (record x { mii_media_active = media })
    → LeavesRing s (record y { mii_media_active = media })
    → ((if b then returns x else if c then returns y else panics) >>= λ u.
        returns (record u { mii_media_active = media }))
      ≡ returns t
    → LeavesRing s t
clock_or_panic true c media s x y t f g e = subst (LeavesRing s) (returns-injective e) f
clock_or_panic false true media s x y t f g e = subst (LeavesRing s) (returns-injective e) g
clock_or_panic false false media s x y t f g e = absurd (ground arith)

pub mediachange-LeavesRing :
    (reg : XmacReg) (hsmac_value media : ℕ) (s t : XmacSoftc)
    → mediachange reg hsmac_value media s ≡ returns t
    → LeavesRing s t
unfolding mediachange set_clock set_ref_clk_1p0 set_ref_clk_2p0 write_speed write
mediachange-LeavesRing reg hsmac_value media s t e =
    clock_or_panic (s.version == 1) (s.version == 2) media s _ _ t
      (same_fields _ _ refl refl refl refl refl) (same_fields _ _ refl refl refl refl refl) e

-- the link is set anew, or nothing changes, if there is a MII bus
relinked_or_not :
    (has b : Bool) (txreg : TxReg) (d t : Driver) (o : Outcome XmacSoftc)
    → ((s : XmacSoftc) → o ≡ returns s → LeavesRing d.rx s)
    → IsReady txreg d
    → (if not has
        then panics
        else if b
        then (o >>= λ rx. returns (record d { rx = rx }))
        else returns d)
      ≡ returns t
    → IsReady txreg t
relinked_or_not false b txreg d t o leaves f e = absurd (ground arith)
relinked_or_not true false txreg d t o leaves f e = subst (IsReady txreg) (returns-injective e) f
relinked_or_not true true txreg d t (returns s) leaves f e =
    subst (IsReady txreg) (returns-injective e) (LeavesRing-IsReady txreg d s (leaves s refl) f)
relinked_or_not true true txreg d t panics leaves f e = absurd (ground arith)
relinked_or_not true true txreg d t out_of_fuel leaves f e = absurd (ground arith)

pub statchg-IsReady :
    (txreg : TxReg) (xreg : XmacReg) (hsmac_value : ℕ) (usable : Bool) (active : ℕ) (d t : Driver)
    → IsReady txreg d
    → statchg xreg hsmac_value usable active d ≡ returns t
    → IsReady txreg t
unfolding statchg
statchg-IsReady txreg xreg hsmac_value usable active d t f e =
    relinked_or_not d.has_miibus (usable && not (d.rx.mii_media_active == active)) txreg d t
      (mediachange xreg hsmac_value active d.rx)
      (mediachange-LeavesRing xreg hsmac_value active d.rx) f e

media_or_not :
    (has b : Bool) (txreg : TxReg) (d t : Driver) (r : ℕ × Driver) {error : ℕ}
    → IsReady txreg r.1
    → IsReady txreg d
    → (if not has then panics else if b then returns r else returns (0, d)) ≡ returns (error, t)
    → IsReady txreg t
media_or_not false b txreg d t r f g e = absurd (ground arith)
media_or_not true true txreg d t r f g e =
    subst (IsReady txreg) (ap (λ x. x.1) (returns-injective e)) f
media_or_not true false txreg d t r f g e =
    subst (IsReady txreg) (ap (λ x. x.1) (returns-injective e)) g

pub ifmedia_upd-IsReady :
    (txreg : TxReg) (mii_mediachg : XmacSoftc → ℕ × XmacSoftc) (d t : Driver) {error : ℕ}
    → LeavesRing d.rx (mii_mediachg d.rx).1
    → IsReady txreg d
    → ifmedia_upd mii_mediachg d ≡ returns (error, t)
    → IsReady txreg t
unfolding ifmedia_upd
ifmedia_upd-IsReady txreg mii_mediachg d t same f e =
    media_or_not d.has_miibus d.flags.up txreg d t _ (LeavesRing-IsReady txreg d _ same f) f e
