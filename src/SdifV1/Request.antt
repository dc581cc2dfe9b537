-- ===== src/SdifV1/Request.antt =====
-- drivers/fsdif/phytium_sdif.c: the start of a request. What the FSdif layer and the hardware answer
-- during it are the fields of `Answers`.
pub mod Waits
pub mod Returns
pub mod Submit
pub mod Stale
use phytium_sdk.Prelude.{
  ℕ, ◌/◌, ◌%◌, ◌^◌, Bool, true, false, not, ◌&&◌, ◌||◌, List, Option, none, some, bit_and, ◌==◌,
  ltb, if◌then◌else◌, Outcome, returns, panics, ◌>>=◌, update,
}
use phytium_sdk.SdifV2.Command.{◌|||◌, truth}
use phytium_sdk.SdifV2.Softc.{
  MmcCommand, MmcData, MmcReg, Errno, is_success, success, enxio, ecanceled, MmcError, err_none,
  err_no_memory, err_failed, no_response,
}
use phytium_sdk.SdifV2.Finish.{memcpy}
use phytium_sdk.SdifV2.Poll.{polling_card_busy}
use phytium_sdk.SdifV2.Request.{memset_zero}
use phytium_sdk.SdifV1.Softc.{
  FsdifReg, Softc, CmdData, TransData, is_pio, done, transfer, emit, sdif_time_out,
}
use phytium_sdk.SdifV1.Command.{put, is_multiple, prepare_raw_cmd}
use phytium_sdk.SdifV1.Finish.{Irq}
use phytium_sdk.SdifV1.Poll.{polling_request_done}

pub record Answers : Type 0 where
  -- `FSdifCheckCardBusy`, before the request and after SET_BLOCK_COUNT
  pub busy_before : ℕ → Bool
  pub busy_after_count : ℕ → Bool
  -- the transfer of SET_BLOCK_COUNT, and the interrupts while its end is awaited
  pub count_started : Bool
  pub count_irqs : ℕ → List Irq
  -- `FSdifSetupDMADescriptor`, and the transfer of the request
  pub descriptors_ready : Bool
  pub transfer_started : Bool

unfoldable pub set_error : ℕ → MmcError → Softc → Softc
set_error r e s = record s { requests = update s.requests r (record (s.requests r) { error = e }) }

-- the flags that are set before a transfer
unfoldable pub armed : Bool → Softc → Softc
armed data_expected s = record s {
  dto_rcvd = false;
  cmd_done = false;
  req_pending = true;
  expect_data = data_expected;
}

-- `FSdifPIOTransfer` or `FSdifDMATransfer`
unfoldable pub submit : Softc → Softc
submit s = emit (transfer s.trans_mode s.cmd_pkg s.dat_pkg) s

unfoldable pub has_data : MmcCommand → Bool
has_data c = elim c.transfer [ none ↦ false | some d ↦ true ]

module _ (f : FsdifReg) (reg : MmcReg) where
  -- `cmd_pkg` of SET_BLOCK_COUNT for `block_cnt` blocks
  unfoldable pub count_cmd : ℕ → Softc → CmdData
  unfolding put
  count_cmd block_cnt s = record {
    cmdidx = reg.set_block_count;
    cmdarg = put s.cfg_non_removable (2 ^ 31) (bit_and (block_cnt % 2 ^ 32) 0x0000FFFF);
    rawcmd =
        put (truth s.use_hold) f.use_hold_reg
          (f.resp_exp ||| f.resp_crc ||| f.indx_set reg.set_block_count);
    response = no_response;
    has_data = false;
  }

  -- after the transfer of SET_BLOCK_COUNT has started
  unfoldable pub count_finished : Answers → Softc → Outcome (Errno × Softc)
  count_finished a s = polling_request_done reg a.count_irqs sdif_time_out s >>= λ r.
      (if is_success r.0
        then (polling_card_busy a.busy_after_count sdif_time_out >>= λ e. returns (e, r.1))
        else returns r)

  unfoldable pub set_block_count : Answers → Option MmcData → Softc → Outcome (Errno × Softc)
  unfolding count_cmd count_finished armed submit
  set_block_count a none s = panics
  set_block_count a (some d) s =
      let t = submit (armed false (record s { cmd_pkg = count_cmd (d.len / reg.sector_size) s })) in
      if a.count_started then count_finished a t else returns (enxio, t)

  -- commands of the SD card detection that an eMMC is not to see
  unfoldable pub ignored : MmcCommand → Bool
  ignored c =
      (reg.sd_send_op_cond == c.opcode)
      || (reg.app_cmd == c.opcode)
      || ((reg.sd_send_if_cond == c.opcode) && (0x1aa == c.arg))

  unfoldable pub counted : Answers → MmcCommand → Softc → Outcome (Errno × Softc)
  unfolding set_block_count has_data is_multiple
  counted a c s =
      if not s.auto_stop && is_multiple reg c.opcode && has_data c
      then set_block_count a c.transfer s
      else returns (success, s)

  unfoldable pub pre_request : Answers → ℕ → Softc → Outcome (Errno × Softc)
  unfolding counted ignored
  pre_request a r s = counted a (s.requests r) s >>= λ o.
      (if o.1.non_removable && ignored (o.1.requests r)
        then returns (ecanceled, o.1)
        else returns o)

  -- the buffer of a transfer: the caller's, or the bounce buffer if that is not aligned
  unfoldable pub with_buffer : MmcData → Softc → Outcome Softc
  unfolding memset_zero memcpy
  with_buffer d s =
      if truth (d.payload % reg.dma_buf_alignment)
      then (if ltb s.aligned_dma_buf_len d.len
          then panics
          else returns (record s {
            mem =
                if truth (bit_and reg.data_write d.flags)
                then memcpy s.aligned_dma_buf d.payload d.len s.mem
                else memset_zero s.aligned_dma_buf d.len s.mem;
            dat_pkg = record s.dat_pkg { buf = s.aligned_dma_buf; buf_dma = s.aligned_dma_buf };
          }))
      else returns
          (record s { dat_pkg = record s.dat_pkg { buf = d.payload; buf_dma = d.payload } })

  unfoldable pub dma_prepare : Answers → MmcData → Softc → Outcome (Errno × Softc)
  unfolding with_buffer
  dma_prepare a d s =
      with_buffer d s >>= λ t. returns (if a.descriptors_ready then success else enxio, t)

  -- `cmd_data`, for the caller's data
  unfoldable pub trans_data : MmcData → TransData
  trans_data d = record {
    buf = d.payload;
    buf_dma = 0;
    blksz = if ltb d.len f.block_size then d.len else f.block_size;
    blkcnt = if ltb (d.len / f.block_size) 1 then 1 else d.len / f.block_size;
    datalen = d.len;
  }

  -- `cmd_pkg` and `dat_pkg` of the command, and the flags
  unfoldable pub described : MmcCommand → Softc → Softc
  unfolding trans_data has_data prepare_raw_cmd armed
  described c s =
      let (raw, t) = prepare_raw_cmd f reg s c in
      armed (has_data c) (record t {
        cmd_pkg = record {
          cmdidx = c.opcode;
          cmdarg = c.arg;
          rawcmd = raw;
          response = no_response;
          has_data = has_data c;
        };
        dat_pkg = elim c.transfer [ none ↦ t.dat_pkg | some d ↦ trans_data d ];
      })

  -- the DMA's descriptors, if there is data
  unfoldable pub prepared : Answers → MmcCommand → Softc → Outcome (Errno × Softc)
  unfolding dma_prepare
  prepared a c s =
      if is_pio s.trans_mode
      then returns (success, s)
      else elim c.transfer [ none ↦ returns (success, s) | some d ↦ dma_prepare a d s ]

  -- The transfer is started, and the timeout armed.
  unfoldable pub launched : Answers → ℕ → Softc → Errno × Softc
  unfolding submit set_error
  launched a r s =
      let t = submit s in
      if a.transfer_started
      then (success, record t { timer = true })
      else (enxio, set_error r err_failed t)

  -- the current request is `r`, without an error
  unfoldable pub entered : ℕ → Softc → Softc
  unfolding set_error
  entered r s = set_error r err_none (record s { req = some r; curcmd = some r })

  unfoldable pub begun : Answers → ℕ → Softc → Outcome (Errno × Softc)
  unfolding described prepared launched entered set_error
  begun a r s =
      let t = entered r s in
      let u = described (t.requests r) t in
      prepared a (t.requests r) u >>= λ o.
      (if is_success o.0
        then returns (launched a r o.1)
        else returns (o.0, set_error r err_no_memory o.1))

  -- under the mutex, with the card ready
  unfoldable pub checked : Answers → ℕ → Softc → Outcome (Errno × Softc)
  unfolding pre_request begun
  checked a r s = pre_request a r s >>= λ o.
      (if is_success o.0 then begun a r o.1 else returns (o.0, emit (done r) o.1))

  -- `err_exit`
  unfoldable pub unlock : Errno × Softc → Errno × Softc
  unlock (e, s) = (e, record s { locked = false })

  unfoldable pub request : Answers → ℕ → Softc → Outcome (Errno × Softc)
  unfolding checked unlock
  request a r s =
      let t = record s { locked = true } in
      polling_card_busy a.busy_before sdif_time_out >>= λ ready.
      ((if is_success ready then checked a r t else returns (ready, t)) >>= λ o. returns (unlock o))
