-- ===== src/SdifV2/Tests/Settings.antt =====
-- The host's settings and ownership, the card task, attach and detach at concrete inputs.
use phytium_sdk.Prelude.{◌≡◌, refl, true, false, inl, arith, returns, result_of, update}
use phytium_sdk.SdifV2.Softc.{Softc, MmcHost, success, eio}
use phytium_sdk.SdifV2.Ios.{prepare_update_ios, prepare_update_voltage}
use phytium_sdk.SdifV2.Host.{
  update_ios, switch_voltage, target_ios, change, apply_ios, release, acquire_host, release_host,
}
use phytium_sdk.SdifV2.Host.Settings.{Means, timing_of, update_ios-Means}
use phytium_sdk.SdifV2.Host.Owner.{
  Threads, Reach, here, next, acquires, releases, IsExclusive, Reach-IsExclusive,
}
use phytium_sdk.SdifV2.Attach.{
  AttachAnswers, DetachAnswers, attach, dma_setup, attach_events, attach_settings, prepare_init_ios,
  prepare_init_volt, initial_voltage,
}
use phytium_sdk.SdifV2.Attach.Acts.{gives_back, attach-gives_back}
use phytium_sdk.SdifV2.Tests.Sample.{rest, host, ios, layer}

abbrev faster : MmcHost
faster = record host { ios = record ios { clock = 25000000 } }

-- 25 MHz, 4 bits, high speed, at 1.8 V
abbrev asked : Softc
asked = record rest {
  host = record host { ios = record ios { clock = 25000000; bus_width = 2; timing = 1; vdd = 5 } };
}

abbrev applied : Softc
applied = (result_of (eio, rest) (update_ios layer asked)).1

applied_ok : update_ios layer asked ≡ returns (success, applied)
unfolding update_ios switch_voltage target_ios change apply_ios release prepare_update_ios
    prepare_update_voltage
applied_ok = refl

update_ios-Means_example : Means applied.non_removable applied.curios applied.cur_ios
unfolding timing_of
update_ios-Means_example =
    update_ios-Means layer asked {t = applied} (λ cur set x e. ground arith)
      (record { clock = refl; width = refl; timing = refl; power = refl })
      (λ e. absurd (omega arith)) applied_ok

abbrev free : Threads
free = record { softc = rest; owns = λ i. false }

abbrev owned : Softc
owned = record rest { bus_busy = 1 }

two_calls :
    Reach free
      (record { softc = release_host owned; owns = update (update (λ i. false) 3 true) 3 false })
two_calls =
    next (next here (acquires 3 owned refl (unfold acquire_host in refl) refl))
      (releases 3 refl refl)

free-IsExclusive : IsExclusive free
free-IsExclusive = record {
  count = inl refl;
  somebody = λ e. absurd (ground (arith, e));
  nobody = λ i e. refl;
  alone = λ i j p q. cc;
}

Reach-IsExclusive_example :
    IsExclusive
      (record { softc = release_host owned; owns = update (update (λ i. false) 3 true) 3 false })
Reach-IsExclusive_example = Reach-IsExclusive free-IsExclusive two_calls

abbrev all_well : AttachAnswers
all_well = record {
  resources = true;
  configured = true;
  ring_memory = true;
  buffer_memory = true;
  intr = true;
}

abbrev no_buffer : AttachAnswers
no_buffer = record all_well { buffer_memory = false }

attach-gives_back_example : gives_back (attach no_buffer layer false).1 ≡ false
attach-gives_back_example = attach-gives_back no_buffer layer false

abbrev detached : DetachAnswers
detached = record { children_deleted = true; intr_torn_down = true }

attached : (attach all_well layer false).0 ≡ success
unfolding attach dma_setup attach_events attach_settings prepare_init_ios prepare_init_volt
    initial_voltage
attached = refl
