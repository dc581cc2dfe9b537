-- ===== src/SdifV2/Ios.antt =====
-- drivers/fsdif_v2_0/phytium_sdif_v2_wrapper.c: from the values of FreeBSD's `struct mmc_ios` to
-- those of the FSdifMsg layer. `none` is a call of `panic`; a value is the `int` passed as a number.
use phytium_sdk.Prelude.{ℕ, Bool, ◌||◌, Option, none, some, ◌==◌, if◌then◌else◌}
use phytium_sdk.SdifV2.Msg.{
  SetIos, SignalVoltage, voltage_180, voltage_330, power_off, power_up, power_on, width_1, width_4,
  width_8, legacy, mmc_hs, sd_hs, uhs_sdr12, uhs_sdr25, uhs_sdr50, uhs_ddr50, uhs_sdr104, mmc_ddr52,
  mmc_hs200, mmc_hs400,
}

-- the `type` of `sdif_v2_prepare_update_ios`: `SDIF_IOS_*`
pub data IosKind : Type 0 where
  kind_power_mode kind_bus_width kind_timing kind_clock : IosKind

unfoldable pub prepare_update_voltage : ℕ → Option SignalVoltage
prepare_update_voltage value =
    if value == 5
    then some voltage_180
    else if (value == 20) || (value == 21)
    then some voltage_330
    else none

update_power_mode : ℕ → SetIos → Option SetIos
update_power_mode value ios =
    if value == 0
    then some (record ios { ios_power_mode = power_off })
    else if value == 1
    then some (record ios { ios_power_mode = power_up })
    else if value == 2
    then some (record ios { ios_power_mode = power_on })
    else none

update_bus_width : ℕ → SetIos → Option SetIos
update_bus_width value ios =
    if value == 0
    then some (record ios { ios_bus_width = width_1 })
    else if value == 2
    then some (record ios { ios_bus_width = width_4 })
    else if value == 3
    then some (record ios { ios_bus_width = width_8 })
    else none

update_timing : ℕ → Bool → SetIos → Option SetIos
update_timing value non_removable ios =
    if value == 0
    then some (record ios { ios_timing = legacy })
    else if value == 1
    then (if non_removable
        then some (record ios { ios_timing = mmc_hs })
        else some (record ios { ios_timing = sd_hs }))
    else if value == 2
    then some (record ios { ios_timing = uhs_sdr12 })
    else if value == 3
    then some (record ios { ios_timing = uhs_sdr25 })
    else if value == 4
    then some (record ios { ios_timing = uhs_sdr50 })
    else if value == 5
    then some (record ios { ios_timing = uhs_ddr50 })
    else if value == 6
    then some (record ios { ios_timing = uhs_sdr104 })
    else if value == 7
    then some (record ios { ios_timing = mmc_ddr52 })
    else if value == 8
    then some (record ios { ios_timing = mmc_hs200 })
    else if value == 9
    then some (record ios { ios_timing = mmc_hs400; ios_bus_width = width_8 })
    else none

unfoldable pub prepare_update_ios : IosKind → ℕ → Bool → SetIos → Option SetIos
unfolding update_power_mode update_bus_width update_timing
prepare_update_ios kind_power_mode value non_removable ios = update_power_mode value ios
prepare_update_ios kind_bus_width value non_removable ios = update_bus_width value ios
prepare_update_ios kind_timing value non_removable ios = update_timing value non_removable ios
prepare_update_ios kind_clock value non_removable ios = some (record ios { ios_clock = value })
