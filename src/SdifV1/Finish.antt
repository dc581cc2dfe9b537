-- ===== src/SdifV1/Finish.antt =====
-- drivers/fsdif/phytium_sdif.c: the callbacks of the FSdif interrupt handler, the timeout, and the
-- completion of a request.
pub mod Order
use phytium_sdk.Prelude.{
  ℕ, Bool, true, false, not, ◌&&◌, Option, none, some, bit_and, ◌==◌, if◌then◌else◌, update,
  Outcome, returns, panics, ◌>>=◌, or_panic, ◌∷◌,
}
use phytium_sdk.SdifV2.Command.{truth}
use phytium_sdk.SdifV2.Softc.{MmcCommand, MmcData, MmcReg, Response, err_none, err_timeout}
use phytium_sdk.SdifV2.Finish.{memcpy}
use phytium_sdk.SdifV1.Softc.{
  Softc, done, restart, enqueue_card_task, enqueue_card_task_delayed, emit,
}

module _ (reg : MmcReg) where
  -- the response words that the upper layer sees: the last word of a long response is its first
  unfoldable pub store_response : Response → MmcCommand → MmcCommand
  store_response r c =
      if truth (bit_and reg.rsp_136 c.flags)
      then record c {
        resp = record { resp0 = r.resp3; resp1 = r.resp2; resp2 = r.resp1; resp3 = r.resp0 };
      }
      else if truth (bit_and reg.rsp_present c.flags)
      then record c { resp = record { resp0 = r.resp0; resp1 = 0; resp2 = 0; resp3 = 0 } }
      else c

  -- a read that went through the bounce buffer is copied out of it
  unfoldable pub copy_out : MmcData → Softc → ℕ → ℕ
  unfolding memcpy
  copy_out d s =
      if truth (bit_and reg.data_read d.flags) && not (d.payload == s.dat_pkg.buf)
      then memcpy d.payload s.dat_pkg.buf d.len s.mem
      else s.mem

  -- `in_data` is dereferenced when data is expected
  unfoldable pub received : MmcCommand → Softc → Outcome (ℕ → ℕ)
  unfolding copy_out
  received c s =
      if s.expect_data
      then elim c.transfer [ none ↦ panics | some d ↦ returns (copy_out d s) ]
      else returns s.mem

  unfoldable pub complete : ℕ → Response → Softc → (ℕ → ℕ) → Softc
  unfolding store_response
  complete r a s memory = record s {
    cmd_pkg = record s.cmd_pkg { response = a };
    mem = memory;
    requests = update s.requests r (record (store_response a (s.requests r)) { error = err_none });
    req = none;
    curcmd = none;
    req_pending = false;
    timer = false;
    log = done r ∷ s.log;
  }

  -- `answer` is that of `FSdifGetCmdResponse`: `none` is an error.
  unfoldable pub finish_command : Option Response → Softc → Outcome Softc
  unfolding received complete
  finish_command answer s = elim s.req [
    | none ↦ returns (record s { req_pending = false })
    | some r ↦
        if s.req_pending
        then (or_panic answer >>= λ a.
            received (s.requests r) s >>= λ memory. returns (complete r a s memory))
        else panics
  ]

  unfoldable pub command_done : Option Response → Softc → Outcome Softc
  unfolding finish_command
  command_done answer s =
      let t = record s { cmd_done = true } in
      if not t.expect_data
      then finish_command answer t
      else if t.dto_rcvd
      then finish_command answer t
      else returns t

  unfoldable pub data_done : Option Response → Softc → Outcome Softc
  unfolding finish_command
  data_done answer s =
      let t = record s { dto_rcvd = true } in
      if t.cmd_done then finish_command answer t else returns t

-- `sdif_error_occurred` calls `sdif_dma_done` and `sdif_dma_stop`, which do nothing on RTEMS.
unfoldable pub error_occurred : Softc → Softc
error_occurred s = s

-- The callout runs with the mutex held; it does not clear the request in progress.
unfoldable pub timeout : Softc → Outcome Softc
timeout s = elim s.curcmd [
  | none ↦ returns s
  | some c ↦ elim s.req [
    | none ↦ panics
    | some r ↦ returns (record s {
      requests = update s.requests r (record (s.requests r) { error = err_timeout });
      timer = false;
      log = done r ∷ restart ∷ s.log;
    })
  ]
]

-- `stopped`: the kernel is dumping or its scheduler has stopped
unfoldable pub handle_card_present : Bool → Bool → Softc → Softc
handle_card_present stopped is_present s =
    if stopped
    then s
    else if not s.child && is_present
    then emit enqueue_card_task_delayed s
    else if s.child && not is_present
    then emit enqueue_card_task s
    else s

-- The events of `FSdifInterruptHandler`, with what `FSdifGetCmdResponse` and `FSdifCheckCardExists`
-- answer in them.
pub data Irq : Type 0 where
  irq_command_done : Option Response → Irq
  irq_data_done : Option Response → Irq
  irq_error : Irq
  irq_card : Bool → Bool → Irq

unfoldable pub interrupt : MmcReg → Irq → Softc → Outcome Softc
unfolding command_done data_done error_occurred handle_card_present
interrupt reg (irq_command_done a) s = command_done reg a s
interrupt reg (irq_data_done a) s = data_done reg a s
interrupt reg irq_error s = returns (error_occurred s)
interrupt reg (irq_card stopped is_present) s = returns (handle_card_present stopped is_present s)
