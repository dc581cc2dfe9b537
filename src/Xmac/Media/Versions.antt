-- ===== src/Xmac/Media/Versions.antt =====
-- The two versions of the controller get the same link settings.
use phytium_sdk.Prelude.{
  ℕ, ◌≡◌, ◌≢◌, ◌↔◌, refl, List, [], ◌∷◌, Option, none, some, arith, returns, panics,
}
use phytium_sdk.Xmac.Softc.{XmacSoftc, XmacReg, ClockReg, hsmac}
use phytium_sdk.Xmac.Media.{
  mediachange, set_clock, set_ref_clk_1p0, set_ref_clk_2p0, write_speed, high_speed,
  interface_speed_for, write,
}

-- the value last written to HSMAC
unfoldable pub last_hsmac : List (ClockReg × ℕ) → Option ℕ
last_hsmac [] = none
last_hsmac ((hsmac, v) ∷ ws) = some v
last_hsmac ((_, v) ∷ ws) = last_hsmac ws

-- the settings of the link agree
pub record SameLink (media : ℕ) (t u : XmacSoftc) : Type 0 where
  pub same_speed : last_hsmac t.writes ≡ last_hsmac u.writes
  pub speed_set : last_hsmac t.writes ≢ none
  pub same_cfg : t.net_cfg_shadow ≡ u.net_cfg_shadow
  pub first_active : t.mii_media_active ≡ media
  pub second_active : u.mii_media_active ≡ media

module _ (reg : XmacReg) (hsmac_value media : ℕ) (s : XmacSoftc) where
  -- A change of the media sets the same speed and the same network configuration on both versions of
  -- the controller, when its PHY is connected by SGMII, and records the media.
  pub mediachange-SameLink :
      s.phy_contype ≡ reg.contype_sgmii
      → (t : XmacSoftc) × (u : XmacSoftc) × (mediachange reg hsmac_value media
            (record s { version = 1 })
          ≡ returns t)
        × (mediachange reg hsmac_value media (record s { version = 2 }) ≡ returns u)
        × SameLink media t u
  unfolding mediachange set_clock set_ref_clk_1p0 set_ref_clk_2p0 write_speed interface_speed_for
      last_hsmac high_speed write
  mediachange-SameLink sgmii = (
    _,
    _,
    refl,
    refl,
    record {
      same_speed = ground arith;
      speed_set = ground arith;
      same_cfg = refl;
      first_active = refl;
      second_active = refl;
    },
  )

  -- A change of the media panics exactly when the version of the controller is neither 1 nor 2.
  pub mediachange-panics_iff :
      (mediachange reg hsmac_value media s ≡ panics) ↔ ((s.version ≢ 1) × (s.version ≢ 2))
  unfolding mediachange set_clock write
  mediachange-panics_iff = ground arith
