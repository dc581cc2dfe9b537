-- ===== src/SdifV2/Finish/Order.antt =====
-- The command interrupt and the data interrupt of one request, in either order.
use phytium_sdk.Prelude.{
  ℕ, ◌≡◌, refl, true, false, none, some, arith, returns, ◌>>=◌, ◌∷◌, ◌<◌, ◌≢◌, ◌+◌, bit_and,
}
use phytium_sdk.SdifV2.Command.{truth}
use phytium_sdk.SdifV2.Softc.{Softc, MmcReg, MmcData, Response, err_none, done}
use phytium_sdk.SdifV2.Finish.{finish_command, command_done, data_done, copy_out, complete}

-- a request with data of which neither interrupt has arrived
pub record IsInFlight (r : ℕ) (d : MmcData) (s : Softc) : Type 0 where
  pub current : s.req ≡ some r
  pub pending : s.req_pending ≡ true
  pub data_expected : s.expect_data ≡ true
  pub has_data : (s.requests r).transfer ≡ some d
  pub no_command : s.cmd_done ≡ false
  pub no_data : s.dto_rcvd ≡ false

-- what the upper layer finds when the request `r`, in flight in `s`, has been completed
pub record IsCompleted (reg : MmcReg) (r : ℕ) (d : MmcData) (a : Response) (s t : Softc)
    : Type 0 where
  pub told : t.log ≡ done r ∷ s.log
  pub idle : (t.req ≡ none) × (t.curcmd ≡ none) × (t.req_pending ≡ false) × (t.timer ≡ false)
  pub no_error : (t.requests r).error ≡ err_none
  pub long : truth (bit_and reg.rsp_136 (s.requests r).flags) ≡ true → (t.requests r).resp ≡ a
  pub short :
      truth (bit_and reg.rsp_136 (s.requests r).flags) ≡ false
      → truth (bit_and reg.rsp_present (s.requests r).flags) ≡ true
      → (t.requests r).resp ≡ record { resp0 = a.resp0; resp1 = 0; resp2 = 0; resp3 = 0 }
  pub others : (j : ℕ) → j ≢ r → t.requests j ≡ s.requests j
  pub bytes :
      truth (bit_and reg.data_read d.flags) ≡ true
      → (i : ℕ) → i < d.len
      → t.mem (d.payload + i) ≡ s.mem (s.transfer.buf + i)

module _ (reg : MmcReg) where
  -- With data expected, the order of the two interrupts makes no difference: the state, the memory
  -- and the calls made are the same.
  pub command_done-data_done_comm :
      (a : Response) (s : Softc)
      → s.expect_data ≡ true
      → s.cmd_done ≡ false
      → s.dto_rcvd ≡ false
      → (command_done reg a s >>= data_done reg) ≡ (data_done reg s >>= command_done reg a)
  unfolding command_done data_done
  command_done-data_done_comm a s e c d = rw (e, c, d)

  -- One interrupt alone completes nothing. After both the request is completed as `IsCompleted`
  -- says: the caller is told once, no request is in progress, the timeout is off, the error is
  -- cleared, the response words that the flags ask for are stored, other requests are as they were,
  -- and the bytes of a read that went through another buffer are in the caller's.
  pub command_done-data_done-IsCompleted :
      (a : Response) (r : ℕ) (d : MmcData) (s : Softc)
      → IsInFlight r d s
      → (command_done reg a s ≡ returns (record s { response = a; cmd_done = true }))
        × (data_done reg s ≡ returns (record s { dto_rcvd = true }))
        × (t : Softc) × ((command_done reg a s >>= data_done reg) ≡ returns t)
        × IsCompleted reg r d a s t
  unfolding command_done data_done finish_command
  command_done-data_done-IsCompleted a r d s f =
      let u = record s { response = a; cmd_done = true; dto_rcvd = true } in
      (
        ground arith,
        ground arith,
        complete reg r u (copy_out reg d u),
        ground arith,
        record {
          told = refl;
          idle = (refl, refl, refl, refl);
          no_error = ground arith;
          long = λ h. ground arith;
          short = λ h k. ground arith;
          others = λ j h. ground arith;
          bytes = λ h i k. ground arith;
        },
      )
