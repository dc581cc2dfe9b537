-- ===== src/SdifV2/Finish.antt =====
-- drivers/fsdif_v2_0/phytium_sdif_v2.c: the callbacks that the FSdifMsg interrupt handler makes, the
-- timeout, and the completion of a request.
pub mod Order
pub mod Effects
use phytium_sdk.Prelude.{
  ℕ, ◌+◌, ◌-◌, Bool, true, false, not, ◌&&◌, Option, none, some, bit_and, ◌==◌, leb, ltb,
  if◌then◌else◌, update, Outcome, returns, panics, ◌>>=◌, ◌∷◌,
}
use phytium_sdk.SdifV2.Command.{truth}
use phytium_sdk.SdifV2.Softc.{
  Softc, MmcCommand, MmcData, MmcReg, Response, err_none, err_timeout, done, host_reset,
  enqueue_card_task, enqueue_card_task_delayed, emit,
}

-- `memcpy(dst, src, n)`
unfoldable pub memcpy : ℕ → ℕ → ℕ → (ℕ → ℕ) → ℕ → ℕ
memcpy dst src n mem a = if leb dst a && ltb a (dst + n) then mem (src + (a - dst)) else mem a

module _ (reg : MmcReg) where
  -- the response words that the upper layer sees
  unfoldable pub store_response : Response → MmcCommand → MmcCommand
  store_response r c =
      if truth (bit_and reg.rsp_136 c.flags)
      then record c { resp = r }
      else if truth (bit_and reg.rsp_present c.flags)
      then record c { resp = record { resp0 = r.resp0; resp1 = 0; resp2 = 0; resp3 = 0 } }
      else c

  -- a read that went through the bounce buffer is copied out of it
  unfoldable pub copy_out : MmcData → Softc → ℕ → ℕ
  unfolding memcpy
  copy_out d s =
      if truth (bit_and reg.data_read d.flags) && not (d.payload == s.transfer.buf)
      then memcpy d.payload s.transfer.buf d.len s.mem
      else s.mem

  -- `in_data` is dereferenced when data is expected
  unfoldable pub received : MmcCommand → Softc → Outcome (ℕ → ℕ)
  unfolding copy_out
  received c s =
      if s.expect_data
      then elim c.transfer [ none ↦ panics | some d ↦ returns (copy_out d s) ]
      else returns s.mem

  unfoldable pub complete : ℕ → Softc → (ℕ → ℕ) → Softc
  unfolding store_response
  complete r s memory = record s {
    mem = memory;
    requests =
        update s.requests r
          (record (store_response s.response (s.requests r)) { error = err_none });
    req = none;
    curcmd = none;
    req_pending = false;
    timer = false;
    log = done r ∷ s.log;
  }

  unfoldable pub finish_command : Softc → Outcome Softc
  unfolding received complete
  finish_command s = elim s.req [
    | none ↦ returns (record s { req_pending = false })
    | some r ↦
        if s.req_pending
        then (received (s.requests r) s >>= λ memory. returns (complete r s memory))
        else panics
  ]

  -- The FSdifMsg layer stores the response in `sc->cmd` before it calls the handler.
  unfoldable pub command_done : Response → Softc → Outcome Softc
  unfolding finish_command
  command_done r s =
      let t = record s { response = r; cmd_done = true } in
      if not t.expect_data
      then finish_command t
      else if t.dto_rcvd
      then finish_command t
      else returns t

  unfoldable pub data_done : Softc → Outcome Softc
  unfolding finish_command
  data_done s =
      let t = record s { dto_rcvd = true } in if t.cmd_done then finish_command t else returns t

-- `sdif_v2_error_occurred` calls `sdif_v2_dma_done` and `sdif_v2_dma_stop`, which do nothing on RTEMS.
unfoldable pub error_occurred : Softc → Softc
error_occurred s = s

-- The callout runs with the mutex held; it does not clear the request in progress.
unfoldable pub timeout : Softc → Outcome Softc
timeout s = elim s.curcmd [
  | none ↦ returns s
  | some c ↦ elim s.req [
    | none ↦ panics
    | some r ↦ returns (record s {
      requests = update s.requests r (record (s.requests r) { error = err_timeout });
      timer = false;
      log = done r ∷ host_reset ∷ s.log;
    })
  ]
]

-- `stopped`: the kernel is dumping or its scheduler has stopped
unfoldable pub handle_card_present : Bool → Bool → Softc → Softc
handle_card_present stopped is_present s =
    if stopped
    then s
    else if not s.child && is_present
    then emit enqueue_card_task_delayed s
    else if s.child && not is_present
    then emit enqueue_card_task s
    else s

-- The interrupts that the FSdifMsg layer turns into callbacks.
pub data Irq : Type 0 where
  irq_command_done : Response → Irq
  irq_data_done : Irq
  irq_error : Irq
  irq_card : Bool → Bool → Irq

unfoldable pub interrupt : MmcReg → Irq → Softc → Outcome Softc
interrupt reg (irq_command_done r) s = command_done reg r s
interrupt reg irq_data_done s = data_done reg s
interrupt reg irq_error s = returns (error_occurred s)
interrupt reg (irq_card stopped is_present) s = returns (handle_card_present stopped is_present s)
