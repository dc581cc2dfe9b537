-- ===== src/SdifV1/Host.antt =====
-- drivers/fsdif/phytium_sdif.c: the settings that the MMC bus reads, writes and applies, and the
-- ownership of the host.
pub mod Timings
pub mod Calls
pub mod Settings
pub mod Repeated
use phytium_sdk.Prelude.{
  ℕ, ◌+◌, ◌-◌, ◌*◌, ◌/◌, ◌%◌, ◌^◌, Bool, true, false, not, ◌&&◌, ◌||◌, Option, none, some, ◌==◌,
  leb, if◌then◌else◌,
}
use phytium_sdk.SdifV2.Softc.{MmcHost, MmcReg, Errno, success, eio, is_success}
use phytium_sdk.SdifV2.Host.{Ivar, ivar_max_data, idmac_desc_segs, idmac_max_size}
use phytium_sdk.SdifV2
use phytium_sdk.SdifV1.Softc.{
  FsdifReg, Softc, Timing, is_pio, emit, set_bus_width, set_power, set_clock_by_calc,
  set_clock_by_dict, set_ddr_mode, set_voltage_1_8v, unhandled_vdd, wakeup,
}

-- `SDIF_MAX_DATA` and `SDIF_MAX_PIO_DATA`, in sectors
abbrev pub sdif_max_data : MmcReg → ℕ
sdif_max_data reg = idmac_max_size * (idmac_desc_segs - 2) / reg.sector_size

abbrev pub sdif_max_pio_data : FsdifReg → MmcReg → ℕ
sdif_max_pio_data f reg = f.max_fifo_cnt / reg.sector_size

-- `none` is EINVAL; the variables but the data's size are read as in the other driver
unfoldable pub read_ivar : FsdifReg → MmcReg → Ivar → Softc → Option ℕ
unfolding SdifV2.Host.read_ivar
read_ivar f reg ivar_max_data s =
    some (if not (is_pio s.trans_mode) then sdif_max_data reg else sdif_max_pio_data f reg)
read_ivar f reg i s = SdifV2.Host.read_ivar reg i s.host

unfoldable pub write_ivar : Ivar → ℕ → Softc → Option Softc
unfolding SdifV2.Host.write_ivar
write_ivar i v s = elim (SdifV2.Host.write_ivar i v s.host) [
  | none ↦ none
  | some h ↦ some (record s { host = h })
]

-- `FSDIF_CLK_SPEED_*`, in Hz
pub record Speeds : Type 0 where
  pub speed_400_khz : ℕ
  pub speed_25_mhz : ℕ
  pub speed_26_mhz : ℕ
  pub speed_50_mhz : ℕ
  pub speed_52_mhz : ℕ
  pub speed_66_mhz : ℕ
  pub speed_100_mhz : ℕ

abbrev pub timing_of : ℕ → ℕ → ℕ → Timing
timing_of use_hold clk_div clk_src = record {
  use_hold = use_hold;
  clk_div = clk_div;
  clk_src = clk_src;
  shift = 0x0;
}

-- above the first speed and up to the second
abbrev pub between : ℕ → ℕ → ℕ → Bool
between low high target_clock = not (leb target_clock low) && leb target_clock high

unfoldable pub get_sd_timing : Speeds → ℕ → Option Timing
get_sd_timing p target_clock =
    if leb target_clock p.speed_400_khz
    then some (timing_of 1 0x7e7dfa 0x000502)
    else if between p.speed_400_khz p.speed_25_mhz target_clock
    then some (timing_of 1 0x030204 0x000302)
    else if between p.speed_25_mhz p.speed_50_mhz target_clock
    then some (timing_of 1 0x030204 0x000502)
    else if between p.speed_50_mhz p.speed_100_mhz target_clock
    then some (timing_of 0 0x010002 0x000202)
    else none

unfoldable pub get_mmc_timing : Speeds → ℕ → Option Timing
get_mmc_timing p target_clock =
    if leb target_clock p.speed_400_khz
    then some (timing_of 1 0x7e7dfa 0x000502)
    else if between p.speed_400_khz p.speed_26_mhz target_clock
    then some (timing_of 1 0x030204 0x000302)
    else if between p.speed_26_mhz p.speed_52_mhz target_clock
    then some (timing_of 0 0x030204 0x000202)
    else if between p.speed_52_mhz p.speed_66_mhz target_clock
    then some (timing_of 0 0x010002 0x000202)
    else if between p.speed_66_mhz p.speed_100_mhz target_clock
    then some (timing_of 0 0x010002 0x000202)
    else none

-- What `FSdifSetClkFreqByCalc` and `FSdifSetClkFreqByDict` answer: true is success.
pub record Clocks : Type 0 where
  pub by_calc : Bool → ℕ → Bool
  pub by_dict : Bool → Timing → ℕ → Bool

-- `bus_timing_uhs_ddr50`, `bus_timing_mmc_ddr52`, `bus_timing_mmc_hs400`
unfoldable pub is_ddr : ℕ → Bool
is_ddr timing = (timing == 5) || (timing == 7) || (timing == 9)

-- `bus_width_8` is 3 and `bus_width_4` is 2
unfoldable pub apply_bus_width : Softc → Softc
apply_bus_width s =
    let w = s.host.ios.bus_width in
    if s.bus_width == w
    then s
    else record (emit (set_bus_width (if w == 3 then 8 else if w == 2 then 4 else 1)) s) {
      bus_width = w;
    }

-- `power_off` is 0, `power_up` 1 and `power_on` 2
unfoldable pub apply_power_mode : Softc → Softc
apply_power_mode s =
    let m = s.host.ios.power_mode in
    let t =
      (if m == 0
        then emit (set_power false) s
        else if m == 1
        then emit (set_power true) (record s { card_need_init = true })
        else s) in
    if s.power_mode == m then s else record t { power_mode = m }

-- the clock by calculation; false is an error
unfoldable pub clock_by_calc : Clocks → Softc → Bool × Softc
unfolding is_ddr
clock_by_calc k s =
    let ios = s.host.ios in
    (
      k.by_calc (is_ddr ios.timing) ios.clock,
      emit (set_clock_by_calc (is_ddr ios.timing) ios.clock) s,
    )

-- the clock by a fixed timing; false is an error
unfoldable pub clock_by_dict : Speeds → Clocks → Softc → Bool × Softc
unfolding is_ddr get_sd_timing get_mmc_timing
clock_by_dict p k s =
    let ios = s.host.ios in
    let found =
      (if s.non_removable then get_mmc_timing p ios.clock else get_sd_timing p ios.clock) in
    elim found [
      | none ↦ (false, record s { cur_timing = none })
      | some t ↦ (
        k.by_dict (is_ddr ios.timing) t ios.clock,
        emit (set_clock_by_dict (is_ddr ios.timing) t ios.clock)
            (record s { cur_timing = some t; use_hold = t.use_hold }),
      )
    ]

unfoldable pub apply_clock : Speeds → Clocks → Softc → Errno × Softc
unfolding is_ddr clock_by_calc clock_by_dict
apply_clock p k s =
    let ios = s.host.ios in
    let (set, t) = (if s.pre_fix_timing == 0 then clock_by_calc k s else clock_by_dict p k s) in
    if s.card_clock == ios.clock
    then (success, s)
    else if set
    then (success, record (emit (set_ddr_mode (is_ddr ios.timing)) t) { card_clock = ios.clock })
    else (eio, t)

-- `vdd_330` is 20, `vdd_340` 21 and `vdd_180` 5
unfoldable pub apply_voltage : Softc → Softc
apply_voltage s =
    let v = s.host.ios.vdd in
    let e =
      (if (v == 20) || (v == 21)
        then set_voltage_1_8v false
        else if v == 5
        then set_voltage_1_8v true
        else unhandled_vdd v) in
    if not s.non_removable && not (s.voltage == v) then record (emit e s) { voltage = v } else s

-- after the clock: the voltage, and `err_exit`
unfoldable pub finish_ios : Errno × Softc → Errno × Softc
unfolding apply_voltage
finish_ios (e, s) =
    if is_success e
    then (success, record (apply_voltage s) { locked = false })
    else (e, record s { locked = false })

unfoldable pub update_ios : Speeds → Clocks → Softc → Errno × Softc
unfolding apply_bus_width apply_power_mode apply_clock finish_ios
update_ios p k s =
    finish_ios (apply_clock p k (apply_power_mode (apply_bus_width (record s { locked = true }))))

-- `phytium_sdif_acquire_host` once: `none` is a thread that sleeps, to try again when woken
unfoldable pub acquire_host : Softc → Option Softc
acquire_host s = if s.bus_busy == 0 then some (record s { bus_busy = s.bus_busy + 1 }) else none

-- `bus_busy--` on an `int`, as its bit pattern
unfoldable pub release_host : Softc → Softc
release_host s = emit wakeup (record s { bus_busy = (s.bus_busy + 2 ^ 32 - 1) % 2 ^ 32 })
