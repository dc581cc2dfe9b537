-- ===== src/SdifV1/Host/Calls.antt =====
-- What `update_ios` asks of the FSdif layer for the settings of the host.
use phytium_sdk.Prelude.{
  ℕ, Bool, true, false, not, ◌&&◌, ◌||◌, List, [], ◌∷◌, Option, none, some, ◌==◌, if◌then◌else◌,
}
use phytium_sdk.SdifV2.Softc.{MmcHost}
use phytium_sdk.SdifV1.Softc.{
  Softc, Effect, Timing, set_bus_width, set_power, set_clock_by_calc, set_clock_by_dict,
  set_ddr_mode, set_voltage_1_8v, unhandled_vdd,
}
use phytium_sdk.SdifV1.Host.{
  Speeds, Clocks, clock_by_calc, clock_by_dict, is_ddr, get_mmc_timing, get_sd_timing,
}

-- the calls for the bus width; the settings 3 and 2 stand for 8 and 4 lines
abbrev pub width_calls : Softc → List Effect
width_calls s =
    if s.bus_width == s.host.ios.bus_width
    then []
    else if s.host.ios.bus_width == 3
    then set_bus_width 8 ∷ []
    else if s.host.ios.bus_width == 2
    then set_bus_width 4 ∷ []
    else set_bus_width 1 ∷ []

-- the calls for a power mode that changes: 0 is off and 1 is up
abbrev pub power_of : ℕ → MmcHost → List Effect
power_of remembered h =
    if remembered == h.ios.power_mode
    then []
    else if h.ios.power_mode == 0
    then set_power false ∷ []
    else if h.ios.power_mode == 1
    then set_power true ∷ []
    else []

abbrev pub power_calls : Softc → List Effect
power_calls s = power_of s.power_mode s.host

-- the calls for the voltage of a removable card: 20 and 21 are 3.3 V, and 5 is 1.8 V
abbrev pub voltage_calls : Softc → List Effect
voltage_calls s =
    if s.non_removable || (s.voltage == s.host.ios.vdd)
    then []
    else if (s.host.ios.vdd == 20) || (s.host.ios.vdd == 21)
    then set_voltage_1_8v false ∷ []
    else if s.host.ios.vdd == 5
    then set_voltage_1_8v true ∷ []
    else unhandled_vdd s.host.ios.vdd ∷ []

-- The clock that the host asks for is refused: there is no fixed timing for it, or the FSdif layer
-- cannot set it.
unfoldable pub refuses : Speeds → Clocks → Softc → Bool
unfolding clock_by_calc clock_by_dict
refuses p k s =
    not (s.card_clock == s.host.ios.clock)
    && not (if s.pre_fix_timing == 0 then clock_by_calc k s else clock_by_dict p k s).0

-- the fixed timing for the host's clock
abbrev pub fixed_timing : Speeds → Softc → Option Timing
fixed_timing p s =
    if s.non_removable then get_mmc_timing p s.host.ios.clock else get_sd_timing p s.host.ios.clock

-- The calls for the clock, newest first: with a fixed timing if the device tree asks for one; the
-- double data rate follows a clock that was set.
abbrev pub clock_calls : Speeds → Clocks → Softc → List Effect
clock_calls p k s =
    let ddr = is_ddr s.host.ios.timing in
    let asked =
      (if s.pre_fix_timing == 0
        then set_clock_by_calc ddr s.host.ios.clock ∷ []
        else elim (fixed_timing p s) [
          | none ↦ []
          | some t ↦ set_clock_by_dict ddr t s.host.ios.clock ∷ []
        ]) in
    if s.card_clock == s.host.ios.clock
    then []
    else if refuses p k s
    then asked
    else set_ddr_mode ddr ∷ asked
