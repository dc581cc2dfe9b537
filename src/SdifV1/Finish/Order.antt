-- ===== src/SdifV1/Finish/Order.antt =====
-- The command event and the data event of one request, in either order, and the events that complete
-- a request.
use phytium_sdk.Prelude.{
  ℕ, ◌≡◌, refl, true, false, Option, none, some, arith, returns, ◌>>=◌, List, [], ◌∷◌, ◌<◌, ◌≢◌,
  ◌≤◌, ◌+◌, bit_and, bind-eq-returns,
}
use phytium_sdk.SdifV2.Command.{truth}
use phytium_sdk.SdifV2.Softc.{MmcReg, MmcData, Response, err_none}
use phytium_sdk.SdifV2.Finish.Effects.{in_progress}
use phytium_sdk.SdifV1.Softc.{Softc, Effect, done}
use phytium_sdk.SdifV1.Finish.{
  Irq, irq_command_done, irq_data_done, irq_error, irq_card, interrupt, finish_command,
  command_done, data_done, copy_out, complete, error_occurred, handle_card_present,
}
use phytium_sdk.SdifV1.Poll.{deliver}

is_done : Effect → ℕ
is_done (done r) = 1
is_done _ = 0

-- how often the upper layer has been told that a request is over
unfoldable pub completions : List Effect → ℕ
unfolding is_done
completions [] = 0
completions (e ∷ es) = is_done e + completions es

finish_bound :
    (reg : MmcReg) (a : Option Response) (s : Softc) {t : Softc}
    → finish_command reg a s ≡ returns t
    → completions t.log + in_progress t.req ≤ completions s.log + in_progress s.req
unfolding finish_command completions
finish_bound reg a s e = ground arith

pub interrupt_bound :
    (reg : MmcReg) (i : Irq) (s : Softc) {t : Softc}
    → interrupt reg i s ≡ returns t
    → completions t.log + in_progress t.req ≤ completions s.log + in_progress s.req
unfolding interrupt command_done data_done error_occurred handle_card_present completions
interrupt_bound reg (irq_command_done a) s e = ground arith
interrupt_bound reg (irq_data_done a) s e = ground arith
interrupt_bound reg irq_error s e = ground arith
interrupt_bound reg (irq_card stopped present) s e = ground arith

-- Any events, in any order, complete a request at most once.
pub deliver-completions :
    (reg : MmcReg) (is : List Irq) (s : Softc) {t : Softc}
    → deliver reg is s ≡ returns t
    → completions t.log + in_progress t.req ≤ completions s.log + in_progress s.req
unfolding deliver
deliver-completions reg [] s e = ground arith
deliver-completions reg (i ∷ is) s e =
    let (u, first, rest) = bind-eq-returns (interrupt reg i s) (deliver reg is) e in
    omega (arith, interrupt_bound reg i s first, deliver-completions reg is u rest)

-- a request with data of which neither event has arrived
pub record IsRunning (r : ℕ) (d : MmcData) (s : Softc) : Type 0 where
  pub current : s.req ≡ some r
  pub pending : s.req_pending ≡ true
  pub data_expected : s.expect_data ≡ true
  pub has_data : (s.requests r).transfer ≡ some d
  pub no_command : s.cmd_done ≡ false
  pub no_data : s.dto_rcvd ≡ false

-- what the upper layer finds when the request `r`, running in `s`, has been completed
pub record IsOver (reg : MmcReg) (r : ℕ) (d : MmcData) (a : Response) (s t : Softc) : Type 0 where
  pub told : t.log ≡ done r ∷ s.log
  pub idle : (t.req ≡ none) × (t.curcmd ≡ none) × (t.req_pending ≡ false) × (t.timer ≡ false)
  pub no_error : (t.requests r).error ≡ err_none
  pub long :
      truth (bit_and reg.rsp_136 (s.requests r).flags) ≡ true
      → (t.requests r).resp
        ≡ record { resp0 = a.resp3; resp1 = a.resp2; resp2 = a.resp1; resp3 = a.resp0 }
  pub short :
      truth (bit_and reg.rsp_136 (s.requests r).flags) ≡ false
      → truth (bit_and reg.rsp_present (s.requests r).flags) ≡ true
      → (t.requests r).resp ≡ record { resp0 = a.resp0; resp1 = 0; resp2 = 0; resp3 = 0 }
  pub others : (j : ℕ) → j ≢ r → t.requests j ≡ s.requests j
  pub bytes :
      truth (bit_and reg.data_read d.flags) ≡ true
      → (i : ℕ) → i < d.len
      → t.mem (d.payload + i) ≡ s.mem (s.dat_pkg.buf + i)

module _ (reg : MmcReg) where
  -- A request with data that runs is completed by its two events in either order, with the same
  -- result, and by none of them alone. It is then over as `IsOver` says: the caller is told once, no
  -- request is in progress, the timeout is off, the error is cleared, the response words that the
  -- flags ask for are stored, those of a long response in reverse, other requests are as they were,
  -- and the bytes of a read that went through another buffer are in the caller's. The controller
  -- gives the response at the second event.
  pub command_done-data_done-IsOver :
      (b : Option Response) (a : Response) (r : ℕ) (d : MmcData) (s : Softc)
      → IsRunning r d s
      → (command_done reg b s ≡ returns (record s { cmd_done = true }))
        × (data_done reg b s ≡ returns (record s { dto_rcvd = true }))
        × (t : Softc) × ((command_done reg b s >>= data_done reg (some a)) ≡ returns t)
        × ((data_done reg b s >>= command_done reg (some a)) ≡ returns t)
        × IsOver reg r d a s t
  unfolding command_done data_done finish_command
  command_done-data_done-IsOver b a r d s f =
      let u = record s { cmd_done = true; dto_rcvd = true } in
      (
        ground arith,
        ground arith,
        complete reg r a u (copy_out reg d u),
        ground arith,
        ground arith,
        record {
          told = refl;
          idle = (refl, refl, refl, refl);
          no_error = ground arith;
          long = λ h. ground arith;
          short = λ h k. ground arith;
          others = λ j h. ground arith;
          bytes = λ h i k. ground arith;
        },
      )
