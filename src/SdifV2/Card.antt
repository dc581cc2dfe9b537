-- ===== src/SdifV2/Card.antt =====
-- drivers/fsdif_v2_0/phytium_sdif_v2.c: the task that attaches and detaches the card.
use phytium_sdk.Prelude.{◌≡◌, ◌⊎◌, Bool, true, false, arith, if◌then◌else◌, ◌∷◌}
use phytium_sdk.SdifV2.Softc.{
  Softc, attach_child, delete_child, enqueue_card_task, enqueue_card_task_delayed, emit,
}
use phytium_sdk.SdifV2.Finish.{handle_card_present}

-- `exists` is the answer of `FSdifMsgCheckifCardExists`, `added` that of `device_add_child`.
unfoldable pub card_task : Bool → Bool → Softc → Softc
card_task exists added s =
    let t = record s { locked = true } in
    if exists
    then (if t.child
        then record t { locked = false }
        else (let u = record t { child = added; locked = false } in
            if added then emit attach_child u else u))
    else (if t.child
        then record (emit delete_child (record t { locked = false })) { child = false }
        else record t { locked = false })

-- A card event that schedules nothing finds the child device as the card is; one that schedules the
-- task leads, when the task runs and the card is still as it was, to a child device exactly when the
-- card is there, with one attach or one detach and the mutex free. The kernel is running, and
-- `device_add_child` succeeds.
pub card_task-handle_card_present :
    (is_present : Bool) (s : Softc)
    → let t = handle_card_present false is_present s in
      ((t ≡ s) × (s.child ≡ is_present))
      ⊎ ((t.log ≡ (if is_present then enqueue_card_task_delayed else enqueue_card_task) ∷ s.log)
          × ((card_task is_present true t).child ≡ is_present)
          × ((card_task is_present true t).log
              ≡ (if is_present then attach_child else delete_child) ∷ t.log)
          × ((card_task is_present true t).locked ≡ false))
unfolding card_task handle_card_present
card_task-handle_card_present is_present s = ground arith

-- The task may run again at any time: a second run with the same card does nothing more.
pub card_task_idempotent :
    (exists : Bool) (s : Softc)
    → card_task exists true (card_task exists true s) ≡ card_task exists true s
unfolding card_task
card_task_idempotent exists s = ground arith
