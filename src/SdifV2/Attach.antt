-- ===== src/SdifV2/Attach.antt =====
-- drivers/fsdif_v2_0: attach and detach of the device, with the wrapper's initial settings. What the
-- driver asks of the kernel and of the FSdifMsg layer is a list of acts, in their order.
pub mod Acts
use phytium_sdk.Prelude.{
  ℕ, Bool, true, false, not, ◌&&◌, List, [], ◌∷◌, ◌++◌, Option, none, some, bit_or, if◌then◌else◌,
}
use phytium_sdk.SdifV2.Msg.{
  SetIos, SignalVoltage, voltage_180, voltage_330, legacy, width_1, power_up, power_on,
}
use phytium_sdk.SdifV2.Softc.{Errno, success, enxio, is_success}
use phytium_sdk.SdifV2.Host.{MsgLayer}

-- `FSDIF_MMC_CAP_*`
pub record Caps : Type 0 where
  pub cap_4_bit_data : ℕ
  pub cap_8_bit_data : ℕ
  pub cap_mmc_highspeed : ℕ
  pub cap_nonremovable : ℕ
  pub cap_1_8v_ddr : ℕ
  pub cap_cmd23 : ℕ
  pub cap_hw_reset : ℕ
  pub cap_sd_highspeed : ℕ
  pub cap_uhs : ℕ

-- `FSdifMsgDataInit`
pub record InitData : Type 0 where
  pub caps : ℕ
  pub clk_rate : ℕ

infixl 60 ◌|||◌
abbrev ◌|||◌ : ℕ → ℕ → ℕ
a ||| b = bit_or a b

unfoldable pub prepare_init_data : Caps → Bool → ℕ → InitData
prepare_init_data c non_removable source_clk_hz = record {
  caps =
      if non_removable
      then c.cap_4_bit_data ||| c.cap_8_bit_data ||| c.cap_mmc_highspeed ||| c.cap_nonremovable
        ||| c.cap_1_8v_ddr ||| c.cap_cmd23 ||| c.cap_hw_reset
      else c.cap_4_bit_data ||| c.cap_sd_highspeed ||| c.cap_uhs ||| c.cap_cmd23;
  clk_rate = source_clk_hz;
}

abbrev pub initial_ios : SetIos
initial_ios = record {
  ios_clock = 0;
  ios_timing = legacy;
  ios_bus_width = width_1;
  ios_power_mode = power_up;
}

-- The settings are prepared in `hc->cur_ios` itself.
unfoldable pub prepare_init_ios : MsgLayer → Errno × SetIos
prepare_init_ios msg = elim (msg.set_ios initial_ios initial_ios) [
  | none ↦ (enxio, initial_ios)
  | some ios ↦ (success, record ios { ios_power_mode = power_on })
]

unfoldable pub initial_voltage : Bool → SignalVoltage
initial_voltage non_removable = if non_removable then voltage_180 else voltage_330

unfoldable pub prepare_init_volt : MsgLayer → Bool → Errno × SignalVoltage
unfolding initial_voltage
prepare_init_volt msg non_removable =
    let v = initial_voltage non_removable in
    elim (msg.set_voltage v v) [ none ↦ (enxio, v) | some volt ↦ (success, volt) ]

pub data Act : Type 0 where
  lock_init callout_init lock_destroy callout_drain : Act
  alloc_resources release_resources : Act
  cfg_initialize deinitialize : Act
  coherent_allocate_ring coherent_allocate_buffer dma_destroy : Act
  set_idma_list : Act
  register_card_detected register_err_occurred register_cmd_done register_data_done : Act
  setup_intr teardown_intr : ℕ → Act
  send_init_ios send_init_volt : Act
  init_tasks run_card_task : Act
  delete_children drain_card_task drain_delayed_task : Act

-- what the calls of attach answer: true is success
pub record AttachAnswers : Type 0 where
  pub resources : Bool
  pub configured : Bool
  pub ring_memory : Bool
  pub buffer_memory : Bool
  pub intr : Bool

-- `sdif_v2_dma_setup` of the RTEMS build; false is its return value 1
unfoldable pub dma_setup : AttachAnswers → Bool × List Act
dma_setup a =
    if not a.ring_memory
    then (false, coherent_allocate_ring ∷ [])
    else (a.buffer_memory, coherent_allocate_ring ∷ coherent_allocate_buffer ∷ [])

-- after the interrupt handler has been set up
unfoldable pub attach_settings : MsgLayer → Bool → Errno × List Act
attach_settings msg non_removable =
    let (e, ios) = prepare_init_ios msg in
    if not (is_success e)
    then (e, send_init_ios ∷ [])
    else (let (f, volt) = prepare_init_volt msg non_removable in
        if not (is_success f) then (f, send_init_ios ∷ send_init_volt ∷ []) else (
          success,
          send_init_ios
              ∷ send_init_volt
              ∷ ((if non_removable then [] else init_tasks ∷ []) ++ run_card_task ∷ []),
        ))

unfoldable pub attach_events : AttachAnswers → MsgLayer → Bool → Errno × List Act
unfolding attach_settings
attach_events a msg non_removable =
    let begun =
      set_idma_list
      ∷ register_card_detected
      ∷ register_err_occurred
      ∷ register_cmd_done
      ∷ register_data_done
      ∷ setup_intr 2
      ∷ [] in
    if not a.intr
    then (enxio, begun)
    else (let (e, acts) = attach_settings msg non_removable in (e, begun ++ acts))

-- The interrupt is `sc->res[2]`.
unfoldable pub attach : AttachAnswers → MsgLayer → Bool → Errno × List Act
unfolding dma_setup attach_events
attach a msg non_removable =
    let prefix = lock_init ∷ callout_init ∷ alloc_resources ∷ [] in
    if not a.resources
    then (enxio, prefix)
    else if not a.configured
    then (enxio, prefix ++ cfg_initialize ∷ [])
    else (let (ready, acts) = dma_setup a in
        if not ready
        then (enxio, prefix ++ cfg_initialize ∷ acts)
        else (let (e, later) = attach_events a msg non_removable in
            (e, prefix ++ cfg_initialize ∷ (acts ++ later))))

-- `ret` values of the calls that may refuse; true is 0
pub record DetachAnswers : Type 0 where
  pub children_deleted : Bool
  pub intr_torn_down : Bool

-- false is a return of the call's error
unfoldable pub detach : DetachAnswers → Bool → Bool → Bool × List Act
detach a non_removable has_intr =
    let drained = (if non_removable then [] else drain_card_task ∷ []) ++ drain_delayed_task ∷ [] in
    let torn = (if has_intr then teardown_intr 1 ∷ [] else []) in
    if not a.children_deleted
    then (false, delete_children ∷ [])
    else if has_intr && not a.intr_torn_down
    then (false, delete_children ∷ (drained ++ torn))
    else (
      true,
      delete_children
          ∷ (drained
              ++ torn
              ++ deinitialize ∷ dma_destroy ∷ release_resources ∷ lock_destroy ∷ callout_drain
                ∷ []),
    )
