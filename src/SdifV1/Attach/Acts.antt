-- ===== src/SdifV1/Attach/Acts.antt =====
-- What attach acquires, and that detach gives it back.
use phytium_sdk.Prelude.{
  ◌≡◌, Bool, true, false, not, ◌&&◌, ◌||◌, List, [], ◌∷◌, arith, ◌==◌, if◌then◌else◌,
}
use phytium_sdk.SdifV2.Softc.{success, is_success}
use phytium_sdk.SdifV1.Softc.{TransMode, is_pio}
use phytium_sdk.SdifV1.Attach.{
  Act, lock_init, lock_destroy, alloc_resources, release_resources, cfg_initialize, deinitialize,
  coherent_allocate_ring, coherent_allocate_buffer, dma_destroy, setup_intr, teardown_intr,
  AttachAnswers, DetachAnswers, attach, detach,
}

-- what the driver holds
pub record Holds : Type 0 where
  pub mutex : Bool
  pub resources : Bool
  pub controller : Bool
  pub ring : Bool
  pub bounce : Bool
  pub handler : Bool

abbrev pub nothing : Holds
nothing = record {
  mutex = false;
  resources = false;
  controller = false;
  ring = false;
  bounce = false;
  handler = false;
}

-- the handler is that of resource 1
perform : Act → Holds → Holds
perform lock_init h = record h { mutex = true }
perform lock_destroy h = record h { mutex = false }
perform alloc_resources h = record h { resources = true }
perform release_resources h = record h { resources = false }
perform cfg_initialize h = record h { controller = true }
perform deinitialize h = record h { controller = false }
perform coherent_allocate_ring h = record h { ring = true }
perform coherent_allocate_buffer h = record h { bounce = true }
perform dma_destroy h = record h { ring = false; bounce = false }
perform (setup_intr k) h = if k == 1 then record h { handler = true } else h
perform (teardown_intr k) h = if k == 1 then record h { handler = false } else h
perform _ h = h

-- what is held after the acts
unfoldable pub replay : List Act → Holds → Holds
unfolding perform
replay [] h = h
replay (x ∷ xs) h = replay xs (perform x h)

-- Attach succeeds exactly when every call that the mode of transfer makes does.
pub attach-succeeds_when :
    (a : AttachAnswers) (mode : TransMode) (non_removable : Bool)
    → is_success (attach a mode non_removable).0 ≡ (
        a.resources
        && a.configured
        && (is_pio mode || (a.ring_memory && a.buffer_memory))
        && a.intr)
unfolding attach
attach-succeeds_when a mode non_removable = ground arith

-- After a successful attach the driver holds the mutex, the resources, the controller, the interrupt
-- handler and, for DMA, its two memories; a complete detach in the same mode then leaves nothing held.
pub replay-detach-attach :
    (a : AttachAnswers) (d : DetachAnswers) (mode : TransMode) (non_removable : Bool)
    → (attach a mode non_removable).0 ≡ success
    → (detach d mode non_removable true).0 ≡ true
    → (replay (attach a mode non_removable).1 nothing ≡ record {
      mutex = true;
      resources = true;
      controller = true;
      ring = not (is_pio mode);
      bounce = not (is_pio mode);
      handler = true;
    })
      × (replay
            (detach d mode non_removable true).1
            (replay (attach a mode non_removable).1 nothing)
          ≡ nothing)
unfolding attach detach replay
replay-detach-attach a d mode non_removable e f = (ground arith, ground arith)
