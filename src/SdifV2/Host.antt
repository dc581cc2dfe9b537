-- ===== src/SdifV2/Host.antt =====
-- drivers/fsdif_v2_0/phytium_sdif_v2.c: the instance variables that the MMC bus reads and writes, the
-- settings that it applies to the controller, and the ownership of the host.
pub mod Ivars
pub mod Settings
pub mod Owner
use phytium_sdk.Prelude.{
  ℕ, ◌+◌, ◌-◌, ◌*◌, ◌/◌, ◌%◌, ◌^◌, Bool, true, false, not, ◌&&◌, Option, none, some, ◌∷◌, ◌==◌,
  if◌then◌else◌, Outcome, returns, panics, ◌>>=◌, or_panic,
}
use phytium_sdk.SdifV2.Msg.{SetIos, SignalVoltage}
use phytium_sdk.SdifV2.Ios.{
  IosKind, kind_power_mode, kind_bus_width, kind_timing, kind_clock, prepare_update_ios,
  prepare_update_voltage,
}
use phytium_sdk.SdifV2.Softc.{
  Softc, MmcHost, MmcIos, MmcReg, Errno, success, eio, einval, emit, sent_ios, sent_voltage, wakeup,
}

-- `MMCBR_IVAR_*`; `ivar_other` is any other number
pub data Ivar : Type 0 where
  ivar_bus_mode ivar_bus_width ivar_chip_select ivar_clock ivar_f_min ivar_f_max : Ivar
  ivar_host_ocr ivar_mode ivar_ocr ivar_power_mode ivar_vdd ivar_vccq ivar_caps : Ivar
  ivar_max_data ivar_timing ivar_max_busy_timeout ivar_other : Ivar

-- `IDMAC_DESC_SEGS`, `IDMAC_MAX_SIZE` and `SDIF_MAX_DATA`
abbrev pub idmac_desc_segs : ℕ
idmac_desc_segs = 1024

abbrev pub idmac_max_size : ℕ
idmac_max_size = 2048

abbrev pub sdif_max_data : MmcReg → ℕ
sdif_max_data reg = idmac_max_size * idmac_desc_segs / reg.sector_size

-- `none` is EINVAL, and `result` is left alone
unfoldable pub read_ivar : MmcReg → Ivar → MmcHost → Option ℕ
read_ivar reg ivar_bus_mode h = some h.ios.bus_mode
read_ivar reg ivar_bus_width h = some h.ios.bus_width
read_ivar reg ivar_chip_select h = some h.ios.chip_select
read_ivar reg ivar_clock h = some h.ios.clock
read_ivar reg ivar_f_min h = some h.f_min
read_ivar reg ivar_f_max h = some h.f_max
read_ivar reg ivar_host_ocr h = some h.host_ocr
read_ivar reg ivar_mode h = some h.mode
read_ivar reg ivar_ocr h = some h.ocr
read_ivar reg ivar_power_mode h = some h.ios.power_mode
read_ivar reg ivar_vdd h = some h.ios.vdd
read_ivar reg ivar_vccq h = some h.ios.vccq
read_ivar reg ivar_caps h = some h.caps
read_ivar reg ivar_max_data h = some (sdif_max_data reg)
read_ivar reg ivar_timing h = some h.ios.timing
read_ivar reg ivar_max_busy_timeout h = some 1000000
read_ivar reg ivar_other h = none

-- the assignment of `phytium_sdif_v2_write_ivar`; `none` is EINVAL
unfoldable pub write_ivar : Ivar → ℕ → MmcHost → Option MmcHost
write_ivar ivar_bus_mode v h = some (record h { ios = record h.ios { bus_mode = v } })
write_ivar ivar_bus_width v h = some (record h { ios = record h.ios { bus_width = v } })
write_ivar ivar_chip_select v h = some (record h { ios = record h.ios { chip_select = v } })
write_ivar ivar_clock v h = some (record h { ios = record h.ios { clock = v } })
write_ivar ivar_mode v h = some (record h { mode = v })
write_ivar ivar_ocr v h = some (record h { ocr = v })
write_ivar ivar_power_mode v h = some (record h { ios = record h.ios { power_mode = v } })
write_ivar ivar_vdd v h = some (record h { ios = record h.ios { vdd = v } })
write_ivar ivar_timing v h = some (record h { ios = record h.ios { timing = v } })
write_ivar ivar_vccq v h = some (record h { ios = record h.ios { vccq = v } })
write_ivar ivar_caps v h = none
write_ivar ivar_host_ocr v h = none
write_ivar ivar_f_min v h = none
write_ivar ivar_f_max v h = none
write_ivar ivar_max_data v h = none
write_ivar ivar_max_busy_timeout v h = none
write_ivar ivar_other v h = none

-- What `FSdifMsgSetVoltage` and `FSdifMsgSetIos` do to the values that the controller's instance
-- keeps (`hc.cur_volt`, `hc.cur_ios`): `none` is an error.
pub record MsgLayer : Type 0 where
  pub set_voltage : SignalVoltage → SignalVoltage → Option SignalVoltage
  pub set_ios : SetIos → SetIos → Option SetIos

-- one field of the settings, if its value is not the one applied last
unfoldable pub change : IosKind → ℕ → ℕ → Bool → SetIos → Outcome SetIos
change kind applied wanted non_removable ios =
    if applied == wanted
    then returns ios
    else or_panic (prepare_update_ios kind wanted non_removable ios)

unfoldable pub target_ios : Softc → Outcome SetIos
unfolding change
target_ios s = change kind_clock s.curios.clock s.host.ios.clock s.non_removable s.cur_ios >>= λ a.
    change kind_bus_width s.curios.bus_width s.host.ios.bus_width s.non_removable a >>= λ b.
    change kind_timing s.curios.timing s.host.ios.timing s.non_removable b
    >>= change kind_power_mode s.curios.power_mode s.host.ios.power_mode s.non_removable

-- the voltage of a removable card; the Boolean is false if the controller refuses it
unfoldable pub switch_voltage : MsgLayer → Softc → Outcome (Bool × Softc)
switch_voltage msg s =
    if not s.non_removable && not (s.curios.vdd == s.host.ios.vdd)
    then (or_panic (prepare_update_voltage s.host.ios.vdd) >>= λ v.
        elim (msg.set_voltage s.cur_volt v) [
          | none ↦ returns (false, emit (sent_voltage v) s)
          | some volt ↦ returns (true, emit (sent_voltage v) (record s { cur_volt = volt }))
        ])
    else returns (true, s)

unfoldable pub apply_ios : MsgLayer → SetIos → Softc → Errno × Softc
apply_ios msg target s = elim (msg.set_ios s.cur_ios target) [
  | none ↦ (eio, emit (sent_ios target) s)
  | some ios ↦ (success, emit (sent_ios target) (record s { cur_ios = ios; curios = s.host.ios }))
]

unfoldable pub release : Errno × Softc → Errno × Softc
release (e, s) = (e, record s { locked = false })

unfoldable pub update_ios : MsgLayer → Softc → Outcome (Errno × Softc)
unfolding switch_voltage apply_ios release
update_ios msg s = switch_voltage msg (record s { locked = true }) >>= λ v.
    (if v.0
      then (target_ios v.1 >>= λ target. returns (release (apply_ios msg target v.1)))
      else returns (release (eio, v.1)))

-- `phytium_sdif_v2_acquire_host` once: `none` is a thread that sleeps, to try again when woken
unfoldable pub acquire_host : Softc → Option Softc
acquire_host s = if s.bus_busy == 0 then some (record s { bus_busy = s.bus_busy + 1 }) else none

-- `bus_busy--` on an `int`, as its bit pattern
unfoldable pub release_host : Softc → Softc
release_host s = emit wakeup (record s { bus_busy = (s.bus_busy + 2 ^ 32 - 1) % 2 ^ 32 })
