-- ===== src/SdifV2/Attach/Acts.antt =====
-- What attach acquires and what it and detach give back.
use phytium_sdk.Prelude.{ℕ, ◌≡◌, ◌↔◌, Bool, true, false, ◌&&◌, ◌||◌, List, [], ◌∷◌, arith, ◌==◌}
use phytium_sdk.SdifV2.Softc.{success, is_success}
use phytium_sdk.SdifV2.Host.{MsgLayer}
use phytium_sdk.SdifV2.Attach.{
  Act, release_resources, lock_destroy, callout_drain, deinitialize, dma_destroy, setup_intr,
  teardown_intr, prepare_init_ios, prepare_init_volt, AttachAnswers, DetachAnswers, attach, detach,
}

gives_back_one : Act → Bool
gives_back_one release_resources = true
gives_back_one lock_destroy = true
gives_back_one callout_drain = true
gives_back_one deinitialize = true
gives_back_one dma_destroy = true
gives_back_one (teardown_intr k) = true
gives_back_one _ = false

-- some act gives back what attach acquires
unfoldable pub gives_back : List Act → Bool
unfolding gives_back_one
gives_back [] = false
gives_back (x ∷ xs) = gives_back_one x || gives_back xs

sets_up_one : ℕ → Act → Bool
sets_up_one k (setup_intr j) = j == k
sets_up_one k _ = false

-- the handler of resource `k` is set up
unfoldable pub sets_up : ℕ → List Act → Bool
unfolding sets_up_one
sets_up k [] = false
sets_up k (x ∷ xs) = sets_up_one k x || sets_up k xs

tears_down_one : ℕ → Act → Bool
tears_down_one k (teardown_intr j) = j == k
tears_down_one k _ = false

-- the handler of resource `k` is torn down
unfoldable pub tears_down : ℕ → List Act → Bool
unfolding tears_down_one
tears_down k [] = false
tears_down k (x ∷ xs) = tears_down_one k x || tears_down k xs

-- Attach succeeds exactly when every call that it makes does: the resources, the configuration, the
-- two DMA memories, the interrupt, and the initial settings and voltage.
pub attach-success_iff :
    (a : AttachAnswers) (msg : MsgLayer) (non_removable : Bool)
    → ((attach a msg non_removable).0 ≡ success) ↔ (
        (a.resources
          && a.configured
          && a.ring_memory
          && a.buffer_memory
          && a.intr
          && is_success (prepare_init_ios msg).0
          && is_success (prepare_init_volt msg non_removable).0)
        ≡ true)
unfolding attach
attach-success_iff a msg non_removable = (λ e. ground arith, λ e. ground arith)

-- An attach that fails gives nothing back of what it acquired: not the mutex, the resources, the
-- controller, the DMA memory or the interrupt.
pub attach-gives_back :
    (a : AttachAnswers) (msg : MsgLayer) (non_removable : Bool)
    → gives_back (attach a msg non_removable).1 ≡ false
unfolding attach gives_back
attach-gives_back a msg non_removable = ground arith

-- A successful attach sets up the handler of resource 2 alone, and a complete detach tears down that
-- of resource 1 alone, which is the controller's shared memory.
pub detach-tears_down_another :
    (a : AttachAnswers) (msg : MsgLayer) (d : DetachAnswers) (non_removable : Bool) (k : ℕ)
    → (attach a msg non_removable).0 ≡ success
    → (detach d non_removable true).0 ≡ true
    → (sets_up k (attach a msg non_removable).1 ≡ (2 == k))
      × (tears_down k (detach d non_removable true).1 ≡ (1 == k))
unfolding attach detach sets_up tears_down
detach-tears_down_another a msg d non_removable k e f = ground arith
