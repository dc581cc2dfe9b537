-- ===== src/SdifV1/Tests/Settings.antt =====
-- Settings, timings and attachment at concrete inputs.
use phytium_sdk.Prelude.{◌≡◌, refl, true, false, arith}
use phytium_sdk.SdifV2.Softc.{success}
use phytium_sdk.SdifV1.Softc.{idma_trans_mode}
use phytium_sdk.SdifV1.Host.{update_ios, get_sd_timing, get_mmc_timing}
use phytium_sdk.SdifV1.Host.Timings.{LeastFit, sd_table, mmc_table, Rise, get_timing-LeastFit}
use phytium_sdk.SdifV1.Host.Calls.{refuses, clock_calls}
use phytium_sdk.SdifV1.Host.Settings.{IsApplied, update_ios-IsApplied}
use phytium_sdk.SdifV1.Attach.{AttachAnswers, DetachAnswers, attach, detach}
use phytium_sdk.SdifV1.Attach.Acts.{nothing, replay, replay-detach-attach}
use phytium_sdk.SdifV1.Tests.Sample.{speeds, clocks, at_rest}

speeds-Rise : Rise speeds
speeds-Rise = record {
  slowest = (omega arith, omega arith);
  sd = (omega arith, omega arith);
  mmc = (omega arith, omega arith);
  fastest = omega arith;
}

get_timing-LeastFit_example :
    LeastFit (sd_table speeds) 52000000 (get_sd_timing speeds 52000000)
    × LeastFit (mmc_table speeds) 52000000 (get_mmc_timing speeds 52000000)
get_timing-LeastFit_example = get_timing-LeastFit speeds 52000000 speeds-Rise

update_ios-IsApplied_example :
    IsApplied
      (refuses speeds clocks at_rest)
      (clock_calls speeds clocks at_rest)
      at_rest
      (update_ios speeds clocks at_rest)
update_ios-IsApplied_example = update_ios-IsApplied speeds clocks at_rest

applied : (update_ios speeds clocks at_rest).0 ≡ success
unfolding update_ios
applied = refl

abbrev all_good : AttachAnswers
all_good = record {
  resources = true;
  configured = true;
  ring_memory = true;
  buffer_memory = true;
  intr = true;
}

abbrev lets_go : DetachAnswers
lets_go = record { children_deleted = true; intr_torn_down = true }

attached : (attach all_good idma_trans_mode false).0 ≡ success
unfolding attach
attached = refl

detached : (detach lets_go idma_trans_mode false true).0 ≡ true
unfolding detach
detached = refl

replay-detach-attach_example :
    (replay (attach all_good idma_trans_mode false).1 nothing ≡ record {
      mutex = true;
      resources = true;
      controller = true;
      ring = true;
      bounce = true;
      handler = true;
    })
    × (replay
          (detach lets_go idma_trans_mode false true).1
          (replay (attach all_good idma_trans_mode false).1 nothing)
        ≡ nothing)
replay-detach-attach_example =
    replay-detach-attach all_good lets_go idma_trans_mode false attached detached
