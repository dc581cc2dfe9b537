-- ===== src/SdifV2/Host/Settings.antt =====
-- The settings that `update_ios` sends to the controller.
use phytium_sdk.Prelude.{
  ℕ, ◌≡◌, ◌⊎◌, Bool, true, false, Option, none, some, arith, ◌==◌, if◌then◌else◌, Option-cases,
  Bool-cases, inl, inr, returns, ◌>>=◌, bind-eq-returns,
}
use phytium_sdk.SdifV2.Msg.{
  SetIos, PowerMode, BusWidth, Timing, power_off, power_up, power_on, width_1, width_4, width_8,
  legacy, mmc_hs, sd_hs, uhs_sdr12, uhs_sdr25, uhs_sdr50, uhs_ddr50, uhs_sdr104, mmc_ddr52,
  mmc_hs200, mmc_hs400,
}
use phytium_sdk.SdifV2.Ios.{
  kind_power_mode, kind_bus_width, kind_timing, kind_clock, prepare_update_ios,
}
use phytium_sdk.SdifV2.Softc.{Softc, MmcIos, Errno, success, eio}
use phytium_sdk.SdifV2.Host.{
  MsgLayer, change, target_ios, apply_ios, switch_voltage, release, update_ios,
}

-- After a call that returns: the mutex is free; on success the settings applied last are those of
-- the host, and the settings sent are the new ones of the controller; on failure the settings
-- applied last are unchanged, so the next call sends the same changes again.
pub update_ios_effect :
    (msg : MsgLayer) (s : Softc) {e : Errno} {t : Softc}
    → update_ios msg s ≡ returns (e, t)
    → (t.locked ≡ false)
      × (t.host ≡ s.host)
      × (((e ≡ success) × (t.curios ≡ s.host.ios)) ⊎ ((e ≡ eio) × (t.curios ≡ s.curios)))
unfolding update_ios
update_ios_effect msg s e = ground arith

-- What the values of `struct mmc_ios` mean (FreeBSD's mmcbr.h), apart from the driver.
abbrev pub width_of : ℕ → Option BusWidth
width_of n =
    if n == 0
    then some width_1
    else if n == 2
    then some width_4
    else if n == 3
    then some width_8
    else none

abbrev pub power_of : ℕ → Option PowerMode
power_of n =
    if n == 0
    then some power_off
    else if n == 1
    then some power_up
    else if n == 2
    then some power_on
    else none

unfoldable pub timing_of : Bool → ℕ → Option Timing
timing_of soldered n =
    if n == 0
    then some legacy
    else if n == 1
    then some (if soldered then mmc_hs else sd_hs)
    else if n == 2
    then some uhs_sdr12
    else if n == 3
    then some uhs_sdr25
    else if n == 4
    then some uhs_sdr50
    else if n == 5
    then some uhs_ddr50
    else if n == 6
    then some uhs_sdr104
    else if n == 7
    then some mmc_ddr52
    else if n == 8
    then some mmc_hs200
    else if n == 9
    then some mmc_hs400
    else none

-- the controller's settings are those that a `struct mmc_ios` means
pub record Means (soldered : Bool) (ios : MmcIos) (set : SetIos) : Type 0 where
  pub clock : set.ios_clock ≡ ios.clock
  pub width : some set.ios_bus_width ≡ width_of ios.bus_width
  pub timing : some set.ios_timing ≡ timing_of soldered ios.timing
  pub power : some set.ios_power_mode ≡ power_of ios.power_mode

module _ (applied wanted : ℕ) (soldered : Bool) (ios : SetIos) where
  change_clock :
      {set : SetIos}
      → ios.ios_clock ≡ applied
      → change kind_clock applied wanted soldered ios ≡ returns set
      → set ≡ record ios { ios_clock = wanted }
  unfolding change prepare_update_ios
  change_clock old e = ground arith

  change_width :
      {set : SetIos}
      → some ios.ios_bus_width ≡ width_of applied
      → change kind_bus_width applied wanted soldered ios ≡ returns set
      → (some set.ios_bus_width ≡ width_of wanted)
        × (set ≡ record ios { ios_bus_width = set.ios_bus_width })
  unfolding change prepare_update_ios
  change_width old e = ground arith

  change_power :
      {set : SetIos}
      → some ios.ios_power_mode ≡ power_of applied
      → change kind_power_mode applied wanted soldered ios ≡ returns set
      → (some set.ios_power_mode ≡ power_of wanted)
        × (set ≡ record ios { ios_power_mode = set.ios_power_mode })
  unfolding change prepare_update_ios
  change_power old e = ground arith

  -- HS400 sets the width too, to the 8 bits that it needs
  prepared_timing :
      {set : SetIos}
      → (wanted ≡ 9 → ios.ios_bus_width ≡ width_8)
      → prepare_update_ios kind_timing wanted soldered ios ≡ some set
      → (some set.ios_timing ≡ timing_of soldered wanted)
        × (set ≡ record ios { ios_timing = set.ios_timing })
  unfolding prepare_update_ios timing_of
  prepared_timing wide e = (ground arith, ground arith)

module _ (applied wanted : ℕ) (soldered : Bool) (ios : SetIos) where
  change_timing :
      {set : SetIos}
      → some ios.ios_timing ≡ timing_of soldered applied
      → (wanted ≡ 9 → ios.ios_bus_width ≡ width_8)
      → change kind_timing applied wanted soldered ios ≡ returns set
      → (some set.ios_timing ≡ timing_of soldered wanted)
        × (set ≡ record ios { ios_timing = set.ios_timing })
  unfolding change
  change_timing old wide e = elim (Bool-cases (applied == wanted)) [
    | inl same ↦ ground arith
    | inr other ↦ prepared_timing applied wanted soldered ios wide (ground arith)
  ]

target_ios-Means :
    (s : Softc) {set : SetIos}
    → Means s.non_removable s.curios s.cur_ios
    → (s.host.ios.timing ≡ 9 → s.host.ios.bus_width ≡ 3)
    → target_ios s ≡ returns set
    → Means s.non_removable s.host.ios set
unfolding target_ios
target_ios-Means s m wide e =
    let (a, ea, ra) =
      bind-eq-returns (change kind_clock s.curios.clock s.host.ios.clock s.non_removable s.cur_ios)
        _ e in
    let ca = change_clock s.curios.clock s.host.ios.clock s.non_removable s.cur_ios m.clock ea in
    let (b, eb, rb) =
      bind-eq-returns
        (change kind_bus_width s.curios.bus_width s.host.ios.bus_width s.non_removable a) _ ra in
    let cb =
      change_width s.curios.bus_width s.host.ios.bus_width s.non_removable a
        (ground (arith, ca, m.width)) eb in
    let (c, ec, rc) =
      bind-eq-returns (change kind_timing s.curios.timing s.host.ios.timing s.non_removable b) _
        rb in
    let cc' =
      change_timing s.curios.timing s.host.ios.timing s.non_removable b
        (ground (arith, ca, cb, m.timing)) (λ k. ground (arith, wide k, cb)) ec in
    let cd =
      change_power s.curios.power_mode s.host.ios.power_mode s.non_removable c
        (ground (arith, ca, cb, cc', m.power)) rc in
    record {
      clock = ground (arith, ca, cb, cc', cd);
      width = ground (arith, ca, cb, cc', cd);
      timing = ground (arith, ca, cb, cc', cd);
      power = ground (arith, ca, cb, cc', cd);
    }

switch_voltage_keeps :
    (msg : MsgLayer) (s : Softc) {o : Bool × Softc}
    → switch_voltage msg s ≡ returns o
    → (o.1.non_removable ≡ s.non_removable)
      × (o.1.curios ≡ s.curios)
      × (o.1.host ≡ s.host)
      × (o.1.cur_ios ≡ s.cur_ios)
unfolding switch_voltage
switch_voltage_keeps msg s e = ground arith

apply_ios-Means :
    (msg : MsgLayer) (set : SetIos) (s : Softc) {t : Softc}
    → ((x : SetIos) → msg.set_ios s.cur_ios set ≡ some x → x ≡ set)
    → Means s.non_removable s.host.ios set
    → release (apply_ios msg set s) ≡ (success, t)
    → Means t.non_removable t.curios t.cur_ios
unfolding apply_ios release
apply_ios-Means msg set s {t} stores m e = elim (Option-cases (msg.set_ios s.cur_ios set)) [
  | inl n ↦ absurd (ground arith)
  | inr (x, f) ↦ record {
    clock = ground (arith, stores x, m.clock);
    width = ground (arith, stores x, m.width);
    timing = ground (arith, stores x, m.timing);
    power = ground (arith, stores x, m.power);
  }
]

after_switch-Means :
    (msg : MsgLayer) (s u : Softc) {t : Softc}
    → ((cur set x : SetIos) → msg.set_ios cur set ≡ some x → x ≡ set)
    → Means s.non_removable s.curios s.cur_ios
    → (s.host.ios.timing ≡ 9 → s.host.ios.bus_width ≡ 3)
    → u.non_removable ≡ s.non_removable
    → u.curios ≡ s.curios
    → u.host ≡ s.host
    → u.cur_ios ≡ s.cur_ios
    → (target_ios u >>= λ set. returns (release (apply_ios msg set u))) ≡ returns (success, t)
    → Means t.non_removable t.curios t.cur_ios
after_switch-Means msg s u {t} stores m wide en ec eh ei e =
    let old : Means u.non_removable u.curios u.cur_ios = rw (en, ec, ei) m in
    let (set, es, rs) = bind-eq-returns (target_ios u) _ e in
    apply_ios-Means msg set u {t = t} (λ x f. stores u.cur_ios set x f)
      (target_ios-Means u old (rw eh wide) es) (ground (arith, rs))

-- When the controller's settings are what the host's last applied settings mean, they still are
-- after a successful `update_ios`, for the settings that the host asks for now. The FSdifMsg layer
-- keeps the settings that it accepts, and HS400 is asked for with a bus of 8 bits.
pub update_ios-Means :
    (msg : MsgLayer) (s : Softc) {t : Softc}
    → ((cur set x : SetIos) → msg.set_ios cur set ≡ some x → x ≡ set)
    → Means s.non_removable s.curios s.cur_ios
    → (s.host.ios.timing ≡ 9 → s.host.ios.bus_width ≡ 3)
    → update_ios msg s ≡ returns (success, t)
    → Means t.non_removable t.curios t.cur_ios
unfolding update_ios
update_ios-Means msg s {t} stores m wide e =
    let (v, ev, rv) = bind-eq-returns (switch_voltage msg (record s { locked = true })) _ e in
    let (en, ec, eh, ei) = switch_voltage_keeps msg (record s { locked = true }) ev in
    elim (Bool-cases v.0) [
      | inr refused ↦ absurd (ground (arith, rv, refused))
      | inl switched ↦ after_switch-Means msg s v.1 stores m wide en ec eh ei (rw switched at rv)
    ]
