-- ===== src/SdifV2/Request/Steps.antt =====
-- The steps of a request: what its description and its start leave of the state.
use phytium_sdk.Prelude.{
  ℕ, ◌+◌, ◌%◌, ◌≡◌, ◌<◌, bit_and, true, false, Option, some, arith, returns, ◌≤◌, if◌then◌else◌,
  Bool, Safe, bind-eq-returns,
}
use phytium_sdk.SdifV2.Msg.{Header, StartData}
use phytium_sdk.SdifV2.Command.{
  truth, prepare_command_flags, prepare_data_transfer, prepare_command_transfer,
  prepare_raw_command,
}
use phytium_sdk.SdifV2.Softc.{
  Softc, MmcReg, MmcData, MmcCommand, Errno, is_success, success, enxio, err_none, err_failed,
  err_no_memory, sdif_time_out,
}
use phytium_sdk.SdifV2.Finish.{memcpy}
use phytium_sdk.SdifV2.Finish.Effects.{completions}
use phytium_sdk.SdifV2.Poll.{polling_card_busy}
use phytium_sdk.SdifV2.Request.{
  Answers, described, started, set_error, begun, unlock, pre_request, request,
}

-- what `described` leaves of the state `s`, for the data `d`
pub record IsDescribed (reg : MmcReg) (d : MmcData) (ready : Bool) (s : Softc)
    (o : Errno × Option StartData × Softc) : Type 0 where
  pub answer : o.0 ≡ (if ready then success else enxio)
  pub same_log : o.2.log ≡ s.log
  pub same_timer : o.2.timer ≡ s.timer
  pub same_req : o.2.req ≡ s.req
  pub same_requests : o.2.requests ≡ s.requests
  pub buffer :
      o.2.transfer.buf
      ≡ (if truth (d.payload % reg.dma_buf_alignment) then s.aligned_dma_buf else d.payload)
  pub dma_address : o.2.transfer.buf_dma ≡ o.2.transfer.buf
  pub bytes :
      truth (bit_and reg.data_write d.flags) ≡ true
      → (i : ℕ) → i < d.len
      → o.2.mem (o.2.transfer.buf + i) ≡ s.mem (d.payload + i)

module _ (h : Header) (reg : MmcReg) (a : Answers) (r : ℕ) (s : Softc) where
  pub request-begun :
      {u : Softc}
      → polling_card_busy a.busy_before sdif_time_out ≡ returns success
      → pre_request h reg a r s ≡ returns (success, u)
      → request h reg a r s ≡ begun h reg a r u
  unfolding request
  request-begun ready passed = rw (ready, passed)

  pub handled-described :
      (c : MmcCommand) (d : MmcData) (flags : ℕ)
      → c.transfer ≡ some d
      → d.len ≤ s.aligned_dma_buf_len
      → prepare_command_flags h c.opcode c.arg s.non_removable ≡ some flags
      → Safe (described h reg a c s)
  unfolding described prepare_data_transfer prepare_raw_command
  handled-described c d flags data_is fits handled = ground arith

  pub non_removable-described :
      (c : MmcCommand) (d : MmcData) {o : Errno × Option StartData × Softc}
      → c.transfer ≡ some d
      → described h reg a c s ≡ returns o
      → o.2.non_removable ≡ s.non_removable
  unfolding described
  non_removable-described c d data_is e = ground arith

  pub handled-started :
      (c : MmcCommand) (info : Option StartData) (flags : ℕ)
      → prepare_command_flags h c.opcode c.arg s.non_removable ≡ some flags
      → Safe (started h reg a r c info s)
  unfolding started prepare_command_transfer prepare_raw_command
  handled-started c info flags handled = ground arith

  pub described-IsDescribed :
      (c : MmcCommand) (d : MmcData) {o : Errno × Option StartData × Softc}
      → c.transfer ≡ some d
      → described h reg a c s ≡ returns o
      → IsDescribed reg d a.descriptors_ready s o
  unfolding described memcpy
  described-IsDescribed c d data_is e = record {
    answer = ground arith;
    same_log = ground arith;
    same_timer = ground arith;
    same_req = ground arith;
    same_requests = ground arith;
    buffer = ground arith;
    dma_address = ground arith;
    bytes = λ w i k. ground arith;
  }

  pub started-fields :
      (c : MmcCommand) (info : Option StartData) {e : Errno} {t : Softc}
      → started h reg a r c info s ≡ returns (e, t)
      → (e ≡ success)
        × (t.locked ≡ false)
        × (t.req ≡ s.req)
        × (completions t.log ≡ completions s.log)
        × (t.mem ≡ s.mem)
        × (t.transfer ≡ s.transfer)
  unfolding started completions
  started-fields c info e =
      (ground arith, ground arith, ground arith, ground arith, ground arith, ground arith)

  pub transfer_started-fields :
      (c : MmcCommand) (info : Option StartData) (d : MmcData) {e : Errno} {t : Softc}
      → a.transfer_started ≡ true
      → c.transfer ≡ some d
      → started h reg a r c info s ≡ returns (e, t)
      → (t.timer ≡ true)
        × (t.req_pending ≡ true)
        × (t.expect_data ≡ true)
        × (t.cmd_done ≡ false)
        × (t.dto_rcvd ≡ false)
        × (t.requests ≡ s.requests)
  unfolding started
  transfer_started-fields c info d goes data_is e =
      (ground arith, ground arith, ground arith, ground arith, ground arith, ground arith)

  pub transfer_refused-fields :
      (c : MmcCommand) (info : Option StartData) {e : Errno} {t : Softc}
      → a.transfer_started ≡ false
      → started h reg a r c info s ≡ returns (e, t)
      → (t.timer ≡ s.timer) × ((t.requests r).error ≡ err_failed)
  unfolding started
  transfer_refused-fields c info goes e = (ground arith, ground arith)

-- the state in which `begun` describes the transfer
abbrev pub entered : ℕ → Softc → Softc
entered r s = set_error r err_none (record s { locked = true; req = some r; curcmd = some r })

module _ (h : Header) (reg : MmcReg) (a : Answers) (r : ℕ) (s : Softc) where
  pub entered-transfer :
      (d : MmcData)
      → (s.requests r).transfer ≡ some d
      → ((entered r s).requests r).transfer ≡ some d
  unfolding set_error
  entered-transfer d data_is = ground arith

  pub entered-error : ((entered r s).requests r).error ≡ err_none
  unfolding set_error
  entered-error = ground arith

  pub begun-IsDescribed :
      (d : MmcData) {t : Softc} {e : Errno}
      → (s.requests r).transfer ≡ some d
      → begun h reg a r s ≡ returns (e, t)
      → (o : Errno × Option StartData × Softc) × IsDescribed reg d a.descriptors_ready
          (entered r s)
          o
        × ((if is_success o.0
              then started h reg a r ((entered r s).requests r) o.1 o.2
              else returns (unlock h reg (o.0, set_error r err_no_memory o.2)))
            ≡ returns (e, t))
  unfolding begun
  begun-IsDescribed d data_is e =
      let (o, eo, rest) =
        bind-eq-returns (described h reg a ((entered r s).requests r) (entered r s)) _ e in
      let data_there = entered-transfer d data_is in
      (
        o,
        described-IsDescribed h reg a r (entered r s) ((entered r s).requests r) d data_there eo,
        rest,
      )
