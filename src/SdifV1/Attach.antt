-- ===== src/SdifV1/Attach.antt =====
-- drivers/fsdif/phytium_sdif.c: attach and detach of the device. What the driver asks of the kernel and
-- of the FSdif layer is a list of acts, in their order.
pub mod Acts
use phytium_sdk.Prelude.{ℕ, Bool, true, false, not, ◌&&◌, List, [], ◌∷◌, ◌++◌, if◌then◌else◌}
use phytium_sdk.SdifV2.Softc.{Errno, success, enxio}
use phytium_sdk.SdifV1.Softc.{Softc, TransMode, is_pio}

pub data Act : Type 0 where
  lock_init lock_destroy callout_init callout_drain : Act
  alloc_resources release_resources : Act
  cfg_initialize deinitialize : Act
  coherent_allocate_ring coherent_allocate_buffer dma_destroy : Act
  set_idma_list : Act
  register_card_detected register_err_occurred register_cmd_done register_data_done : Act
  setup_intr teardown_intr : ℕ → Act
  init_tasks run_card_task : Act
  delete_children drain_card_task drain_delayed_task : Act

-- the settings after attach: none that the host can ask for
unfoldable pub unsettled : Softc → Softc
unsettled s = record s { bus_width = 0xff; card_clock = 0xff; power_mode = 0xff }

-- what the calls of attach answer: true is success
pub record AttachAnswers : Type 0 where
  pub resources : Bool
  pub configured : Bool
  pub ring_memory : Bool
  pub buffer_memory : Bool
  pub intr : Bool

-- `sdif_dma_setup` of the RTEMS build; false is its return value 1
unfoldable pub dma_setup : AttachAnswers → Bool × List Act
dma_setup a =
    if not a.ring_memory
    then (false, coherent_allocate_ring ∷ [])
    else (a.buffer_memory, coherent_allocate_ring ∷ coherent_allocate_buffer ∷ [])

-- the descriptor memory of the DMA, which the polled mode does without
unfoldable pub dma_events : AttachAnswers → TransMode → Bool × List Act
unfolding dma_setup
dma_events a mode =
    if is_pio mode
    then (true, [])
    else (let (ready, acts) = dma_setup a in
        (ready, if ready then acts ++ set_idma_list ∷ [] else acts))

-- The interrupt is `sc->res[1]`.
unfoldable pub attach_events : AttachAnswers → Bool → Errno × List Act
attach_events a non_removable =
    let begun =
      register_card_detected
      ∷ register_err_occurred
      ∷ register_cmd_done
      ∷ register_data_done
      ∷ setup_intr 1
      ∷ [] in
    if not a.intr
    then (enxio, begun)
    else (success, begun ++ ((if non_removable then [] else init_tasks ∷ []) ++ run_card_task ∷ []))

unfoldable pub attach : AttachAnswers → TransMode → Bool → Errno × List Act
unfolding dma_events attach_events
attach a mode non_removable =
    let prefix = lock_init ∷ callout_init ∷ alloc_resources ∷ [] in
    if not a.resources
    then (enxio, prefix)
    else if not a.configured
    then (enxio, prefix ++ cfg_initialize ∷ [])
    else (let (ready, acts) = dma_events a mode in
        if not ready
        then (enxio, prefix ++ cfg_initialize ∷ acts)
        else (let (e, later) = attach_events a non_removable in
            (e, prefix ++ cfg_initialize ∷ (acts ++ later))))

-- `ret` values of the calls that may refuse; true is 0
pub record DetachAnswers : Type 0 where
  pub children_deleted : Bool
  pub intr_torn_down : Bool

-- false is a return of the call's error
unfoldable pub detach : DetachAnswers → TransMode → Bool → Bool → Bool × List Act
detach a mode non_removable has_intr =
    let drained = (if non_removable then [] else drain_card_task ∷ []) ++ drain_delayed_task ∷ [] in
    let torn = (if has_intr then teardown_intr 1 ∷ [] else []) in
    if not a.children_deleted
    then (false, delete_children ∷ [])
    else if has_intr && not a.intr_torn_down
    then (false, delete_children ∷ (drained ++ torn))
    else (
      true,
      delete_children
          ∷ (drained
              ++ torn
              ++ deinitialize
                ∷ ((if is_pio mode then [] else dma_destroy ∷ [])
                    ++ release_resources ∷ lock_destroy ∷ callout_drain ∷ [])),
    )
