-- ===== src/SdifV2/Request.antt =====
-- drivers/fsdif_v2_0/phytium_sdif_v2.c: the start of a request. What the FSdifMsg layer and the
-- hardware answer during it are the fields of `Answers`.
pub mod Steps
pub mod Start
pub mod Lock
use phytium_sdk.Prelude.{
  ℕ, ◌+◌, ◌/◌, ◌%◌, ◌^◌, Bool, true, false, not, ◌&&◌, ◌||◌, List, ◌∷◌, Option, none, some, bit_and,
  ◌==◌, ltb, if◌then◌else◌, update, Outcome, returns, panics, ◌>>=◌, or_panic,
}
use phytium_sdk.SdifV2.Msg.{Header, StartData}
use phytium_sdk.SdifV2.Command.{truth, prepare_data_transfer, prepare_command_transfer}
use phytium_sdk.SdifV2.Softc.{
  Softc, MmcCommand, MmcData, MmcReg, Errno, is_success, success, enxio, ecanceled, err_none,
  err_no_memory, err_failed, no_response, MmcError, done, submit, emit, sdif_time_out,
}
use phytium_sdk.SdifV2.Finish.{Irq, memcpy}
use phytium_sdk.SdifV2.Poll.{polling_card_busy, polling_request_done}

pub record Answers : Type 0 where
  -- `FSdifMsgCheckifCardBusy`, before the request and after SET_BLOCK_COUNT
  pub busy_before : ℕ → Bool
  pub busy_after_count : ℕ → Bool
  -- `FSdifMsgDMATransfer` of SET_BLOCK_COUNT, and the interrupts while its end is awaited
  pub count_started : Bool
  pub count_irqs : ℕ → List Irq
  -- `FSdifMsgSetupDMADescriptor`, and `FSdifMsgDMATransfer` of the request
  pub descriptors_ready : Bool
  pub transfer_started : Bool

unfoldable pub set_error : ℕ → MmcError → Softc → Softc
set_error r e s = record s { requests = update s.requests r (record (s.requests r) { error = e }) }

-- `memset(dst, 0, n)`
unfoldable pub memset_zero : ℕ → ℕ → (ℕ → ℕ) → ℕ → ℕ
memset_zero dst n mem a = if ltb a dst then mem a else if ltb a (dst + n) then 0 else mem a

module _ (h : Header) (reg : MmcReg) where
  -- the flags that are set before a transfer
  unfoldable pub armed : Bool → Softc → Softc
  armed data_expected s = record s {
    response = no_response;
    dto_rcvd = false;
    cmd_done = false;
    req_pending = true;
    expect_data = data_expected;
  }

  -- A failure returns after the mutex is released, as every other end does.
  unfoldable pub unlock : Errno × Softc → Errno × Softc
  unlock (e, s) = (e, record s { locked = false })

  -- after `FSdifMsgDMATransfer` of SET_BLOCK_COUNT
  unfoldable pub count_finished : Answers → Softc → Outcome (Errno × Softc)
  count_finished a s = polling_request_done reg a.count_irqs sdif_time_out s >>= λ r.
      (if is_success r.0
        then (polling_card_busy a.busy_after_count sdif_time_out >>= λ e. returns (e, r.1))
        else returns r)

  unfoldable pub set_block_count : Answers → ℕ → Softc → Outcome (Errno × Softc)
  unfolding count_finished armed unlock
  set_block_count a block_cnt s =
      or_panic (
        prepare_command_transfer h reg.set_block_count (bit_and (block_cnt % 2 ^ 32) 0x0000FFFF)
          s.non_removable)
      >>= λ cmd.
          (let t = emit (submit (some cmd) none) (armed false (record s { locked = true })) in
            if a.count_started
            then (count_finished a t >>= λ r. returns (unlock r))
            else returns (unlock (enxio, t)))

  -- commands of the SD card detection that an eMMC is not to see
  unfoldable pub ignored : MmcCommand → Bool
  ignored c =
      (reg.sd_send_op_cond == c.opcode)
      || (reg.app_cmd == c.opcode)
      || ((reg.sd_send_if_cond == c.opcode) && (0x1aa == c.arg))
      || (reg.bustest_w == c.opcode)
      || (reg.bustest_r == c.opcode)
      || (reg.set_blocklen == c.opcode)

  unfoldable pub counted : Answers → MmcCommand → Softc → Outcome (Errno × Softc)
  unfolding set_block_count
  counted a c s =
      if not s.auto_stop
        && ((reg.read_multiple_block == c.opcode) || (reg.write_multiple_block == c.opcode))
      then elim c.transfer [
        | none ↦ returns (success, s)
        | some d ↦ set_block_count a (d.len / reg.sector_size) s
      ]
      else returns (success, s)

  unfoldable pub pre_request : Answers → ℕ → Softc → Outcome (Errno × Softc)
  unfolding counted ignored
  pre_request a r s = counted a (s.requests r) s >>= λ o.
      (if o.1.non_removable && ignored (o.1.requests r)
        then returns (ecanceled, o.1)
        else returns o)

  -- the buffer of a transfer: the caller's, or the bounce buffer if that is not aligned
  unfoldable pub with_buffer : MmcData → Softc → Outcome Softc
  unfolding memset_zero memcpy
  with_buffer d s =
      if truth (d.payload % reg.dma_buf_alignment)
      then (if ltb s.aligned_dma_buf_len d.len
          then panics
          else returns (record s {
            mem =
                if truth (bit_and reg.data_write d.flags)
                then memcpy s.aligned_dma_buf d.payload d.len s.mem
                else memset_zero s.aligned_dma_buf d.len s.mem;
            transfer = record s.transfer { buf = s.aligned_dma_buf; buf_dma = s.aligned_dma_buf };
          }))
      else returns
          (record s { transfer = record s.transfer { buf = d.payload; buf_dma = d.payload } })

  unfoldable pub dma_prepare : Answers → MmcData → Softc → Outcome (Errno × Softc)
  unfolding with_buffer
  dma_prepare a d s =
      with_buffer d s >>= λ t. returns (if a.descriptors_ready then success else enxio, t)

  -- `request->data`, with the transfer's description
  unfoldable pub described :
      Answers → MmcCommand → Softc → Outcome (Errno × Option StartData × Softc)
  unfolding dma_prepare
  described a c s = elim c.transfer [
    | none ↦ returns (success, none, s)
    | some d ↦
        or_panic (
          prepare_data_transfer h c.opcode c.arg s.non_removable
            (truth (bit_and reg.data_write d.flags)) reg.sector_size
            (d.len / reg.sector_size % 2 ^ 32))
        >>= λ info.
            (dma_prepare a d
                (record s { transfer = record { datainfo = info; buf = 0; buf_dma = 0 } })
              >>= λ o. returns (o.0, some info, o.1))
  ]

  unfoldable pub has_data : MmcCommand → Bool
  has_data c = elim c.transfer [ none ↦ false | some d ↦ true ]

  -- The transfer is started, and the timeout armed. A transfer that does not start leaves `err` at 0.
  unfoldable pub started :
      Answers → ℕ → MmcCommand → Option StartData → Softc → Outcome (Errno × Softc)
  unfolding armed has_data set_error unlock
  started a r c info s =
      or_panic (prepare_command_transfer h c.opcode c.arg s.non_removable) >>= λ cmd.
      (let t = emit (submit (some cmd) info) (armed (has_data c) s) in
        if a.transfer_started
        then returns (unlock (success, record t { timer = true }))
        else returns (unlock (success, set_error r err_failed t)))

  -- the body of `phytium_sdif_v2_request` under the mutex
  unfoldable pub begun : Answers → ℕ → Softc → Outcome (Errno × Softc)
  unfolding described started set_error unlock
  begun a r s =
      let t = set_error r err_none (record s { locked = true; req = some r; curcmd = some r }) in
      described a (t.requests r) t >>= λ o.
      (if is_success o.0
        then started a r (t.requests r) o.1 o.2
        else returns (unlock (o.0, set_error r err_no_memory o.2)))

  unfoldable pub request : Answers → ℕ → Softc → Outcome (Errno × Softc)
  unfolding pre_request begun
  request a r s = polling_card_busy a.busy_before sdif_time_out >>= λ ready.
      (if is_success ready
        then (pre_request a r s >>= λ o.
            (if is_success o.0 then begun a r o.1 else returns (o.0, emit (done r) o.1)))
        else returns (enxio, s))
