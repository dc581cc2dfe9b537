-- ===== src/Xmac/Media.antt =====
-- drivers/fxmac/phytium_xmac.c: the reference clock and the network configuration for a media. The
-- mutex, which is released while the clock is set, and what is printed are left out. `hsmac_value` is
-- what the HSMAC register reads.
pub mod Versions
use phytium_sdk.Prelude.{
  ℕ, ◌-◌, ◌^◌, ◌==◌, not, ◌||◌, List, [], ◌∷◌, ◌++◌, bit_and, bit_or, if◌then◌else◌, Outcome,
  returns, panics, ◌>>=◌,
}
use phytium_sdk.Xmac.Softc.{
  XmacSoftc, XmacReg, ClockReg, nwcfg, hsmac, src_sel_ln, div_sel0_ln, div_sel1_ln,
  pma_xcvr_power_state, tx_clk_sel0, tx_clk_sel1, tx_clk_sel2, tx_clk_sel3, rx_clk_sel0,
  rx_clk_sel1, tx_clk_sel3_0, tx_clk_sel4_0, rx_clk_sel3_0, rx_clk_sel4_0,
}

-- `x & ~mask` on 32 bits
unfoldable pub clear : ℕ → ℕ → ℕ
clear x mask = bit_and x (2 ^ 32 - 1 - mask)

unfoldable pub write : ClockReg → ℕ → XmacSoftc → XmacSoftc
write r v s = record s { writes = (r, v) ∷ s.writes }

unfoldable pub high_speed : ℕ → ℕ
high_speed speed =
    if speed == 25000
    then 2
    else if speed == 10000
    then 4
    else if speed == 5000
    then 3
    else if speed == 2500
    then 2
    else if speed == 1000
    then 1
    else 0

-- the writes of the clock registers for SGMII at 1000 Mbit/s, newest first
abbrev pub gigabit_clocks : List (ClockReg × ℕ)
gigabit_clocks =
    (rx_clk_sel4_0, 0)
    ∷ (rx_clk_sel3_0, 0)
    ∷ (tx_clk_sel4_0, 0)
    ∷ (tx_clk_sel3_0, 0)
    ∷ (rx_clk_sel1, 0)
    ∷ (rx_clk_sel0, 1)
    ∷ (tx_clk_sel3, 1)
    ∷ (tx_clk_sel2, 0)
    ∷ (tx_clk_sel1, 0)
    ∷ (tx_clk_sel0, 0)
    ∷ (pma_xcvr_power_state, 1)
    ∷ (div_sel1_ln, 8)
    ∷ (div_sel0_ln, 4)
    ∷ (src_sel_ln, 1)
    ∷ []

-- the same at 100 and 10 Mbit/s
abbrev pub fast_clocks : List (ClockReg × ℕ)
fast_clocks =
    (rx_clk_sel4_0, 1)
    ∷ (rx_clk_sel3_0, 0)
    ∷ (tx_clk_sel4_0, 0)
    ∷ (tx_clk_sel3_0, 1)
    ∷ (rx_clk_sel1, 0)
    ∷ (rx_clk_sel0, 1)
    ∷ (tx_clk_sel3, 1)
    ∷ (tx_clk_sel2, 1)
    ∷ (tx_clk_sel1, 0)
    ∷ (tx_clk_sel0, 0)
    ∷ (pma_xcvr_power_state, 1)
    ∷ (div_sel1_ln, 8)
    ∷ (div_sel0_ln, 4)
    ∷ (src_sel_ln, 1)
    ∷ []

module _ (reg : XmacReg) (hsmac_value : ℕ) where
  unfoldable pub write_speed : ℕ → XmacSoftc → XmacSoftc
  unfolding write clear
  write_speed speed s =
      write hsmac (bit_or (clear hsmac_value reg.hsmac_speed) (bit_and speed reg.hsmac_speed)) s

  unfoldable pub set_ref_clk_1p0 : ℕ → ℕ → XmacSoftc → XmacSoftc
  unfolding write_speed high_speed
  set_ref_clk_1p0 interface_type interface_speed s =
      let clocks =
        if not (interface_type == reg.contype_sgmii)
        then []
        else if interface_speed == 1000
        then gigabit_clocks
        else if (interface_speed == 100) || (interface_speed == 10)
        then fast_clocks
        else [] in
      write_speed (high_speed interface_speed) (record s { writes = clocks ++ s.writes })

  unfoldable pub set_ref_clk_2p0 : ℕ → ℕ → XmacSoftc → XmacSoftc
  unfolding write_speed
  set_ref_clk_2p0 interface_type interface_speed s =
      write_speed
        (if not (interface_type == reg.contype_sgmii)
          then 0
          else if interface_speed == 1000
          then 1
          else 0)
        s

  -- `net_cfg_shadow` for a media
  unfoldable pub net_cfg_for : ℕ → ℕ → ℕ
  unfolding clear
  net_cfg_for media cfg =
      let bare = clear cfg (bit_or (bit_or reg.nwcfg_100 reg.nwcfg_1000) reg.nwcfg_fden) in
      let with_speed =
        if reg.ifm_subtype media == reg.ifm_1000_t
        then bit_or bare (bit_or reg.nwcfg_100 reg.nwcfg_1000)
        else if reg.ifm_subtype media == reg.ifm_100_tx
        then bit_or bare reg.nwcfg_100
        else bare in
      if bit_and media reg.ifm_fdx == 0 then with_speed else bit_or with_speed reg.nwcfg_fden

  unfoldable pub interface_speed_for : ℕ → ℕ
  interface_speed_for media =
      if reg.ifm_subtype media == reg.ifm_1000_t
      then 1000
      else if reg.ifm_subtype media == reg.ifm_100_tx
      then 100
      else 1000

  unfoldable pub set_clock : ℕ → XmacSoftc → Outcome XmacSoftc
  unfolding set_ref_clk_1p0 set_ref_clk_2p0
  set_clock speed s =
      if s.version == 1
      then returns (set_ref_clk_1p0 s.phy_contype speed s)
      else if s.version == 2
      then returns (set_ref_clk_2p0 s.phy_contype speed s)
      else panics

  unfoldable pub mediachange : ℕ → XmacSoftc → Outcome XmacSoftc
  unfolding set_clock net_cfg_for interface_speed_for write
  mediachange media s =
      let cfg = net_cfg_for media s.net_cfg_shadow in
      set_clock (interface_speed_for media) (write nwcfg cfg (record s { net_cfg_shadow = cfg }))
      >>= λ t. returns (record t { mii_media_active = media })
