-- ===== src/SdifV1/Poll.antt =====
-- drivers/fsdif/phytium_sdif.c: the wait for a request. It is recursion on fuel, one round more than
-- the timeout allows. The wait for the card is the loop of SdifV2/Poll, on `FSdifCheckCardBusy`.
use phytium_sdk.Prelude.{
  ℕ, zero, suc, ◌+◌, List, [], ◌∷◌, ltb, if◌then◌else◌, Outcome, returns, out_of_fuel, ◌>>=◌,
}
use phytium_sdk.SdifV2.Softc.{MmcReg, Errno, success, eio}
use phytium_sdk.SdifV1.Softc.{Softc}
use phytium_sdk.SdifV1.Finish.{Irq, interrupt}

-- the interrupts that arrive during one `DELAY(1)`, in their order
unfoldable pub deliver : MmcReg → List Irq → Softc → Outcome Softc
deliver reg [] s = returns s
deliver reg (i ∷ is) s = interrupt reg i s >>= deliver reg is

-- `irqs k` are the interrupts of the k-th wait.
unfoldable pub request_done_loop :
    ℕ → MmcReg → (ℕ → List Irq) → ℕ → ℕ → Softc → Outcome (Errno × Softc)
request_done_loop zero reg irqs timeout_us wait_counter s = out_of_fuel
request_done_loop (suc fuel) reg irqs timeout_us wait_counter s =
    let rest =
      deliver reg (irqs wait_counter) s
      >>= request_done_loop fuel reg irqs timeout_us (suc wait_counter) in
    if s.req_pending
    then (if ltb timeout_us wait_counter then returns (eio, s) else rest)
    else returns (success, s)

unfoldable pub polling_request_done : MmcReg → (ℕ → List Irq) → ℕ → Softc → Outcome (Errno × Softc)
unfolding request_done_loop
polling_request_done reg irqs timeout_us s =
    request_done_loop (timeout_us + 2) reg irqs timeout_us 0 s
