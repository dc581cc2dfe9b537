-- ===== src/SdifV1/Request/Stale.antt =====
-- A request that could not be started stays the current one, and SET_BLOCK_COUNT of a later request
-- completes it.
use phytium_sdk.Prelude.{ℕ, ◌+◌, ◌≡◌, true, false, some, none, arith, returns}
use phytium_sdk.SdifV2.Softc.{MmcReg, Response, enxio, err_failed, err_none}
use phytium_sdk.SdifV1.Softc.{FsdifReg, Softc}
use phytium_sdk.SdifV1.Finish.{command_done, finish_command, complete}
use phytium_sdk.SdifV1.Finish.Order.{completions}
use phytium_sdk.SdifV1.Request.{Answers, launched, count_cmd, armed, submit, set_error}

module _ (f : FsdifReg) (reg : MmcReg) (a : Answers) where
  -- When the FSdif layer refuses the transfer of the current request `r`, the caller gets ENXIO with
  -- the error of the command set and no completion, and the request stays the current one: when
  -- SET_BLOCK_COUNT of another request has been sent, its command event completes `r`, once and
  -- without an error.
  pub launched-completed_by_count :
      (r : ℕ) (n : ℕ) (w : Response) (s : Softc)
      → s.req ≡ some r
      → a.transfer_started ≡ false
      → let t = (launched f reg a r s).1 in
        let u = submit (armed false (record t { cmd_pkg = count_cmd f reg n t })) in
        ((launched f reg a r s).0 ≡ enxio)
        × ((t.requests r).error ≡ err_failed)
        × (completions t.log ≡ completions s.log)
        × (v : Softc) × (command_done reg (some w) u ≡ returns v)
        × (completions v.log ≡ 1 + completions s.log)
        × ((v.requests r).error ≡ err_none)
        × (v.req ≡ none)
  unfolding launched submit armed set_error command_done finish_command completions
  launched-completed_by_count r n w s current refused =
      let t = (launched f reg a r s).1 in
      let u = submit (armed false (record t { cmd_pkg = count_cmd f reg n t })) in
      let v = record u { cmd_done = true } in
      (
        ground arith,
        ground arith,
        ground arith,
        complete reg r w v v.mem,
        ground arith,
        ground arith,
        ground arith,
        ground arith,
      )
