-- ===== src/SdifV2/Poll.antt =====
-- drivers/fsdif_v2_0/phytium_sdif_v2.c: the two polling loops. Each is recursion on fuel, the rounds
-- that it may make; the callers give as many as its timeout allows.
pub mod Total
use phytium_sdk.Prelude.{
  ℕ, zero, suc, ◌+◌, ◌/◌, Bool, List, [], ◌∷◌, ltb, if◌then◌else◌, Outcome, returns, out_of_fuel,
  ◌>>=◌,
}
use phytium_sdk.SdifV2.Softc.{Softc, MmcReg, Errno, success, ebusy, eio}
use phytium_sdk.SdifV2.Finish.{Irq, interrupt}

-- `busy k` is the answer of the k-th call of `FSdifMsgCheckifCardBusy`.
unfoldable pub card_busy_loop : ℕ → (ℕ → Bool) → ℕ → ℕ → ℕ → Outcome Errno
card_busy_loop zero busy timeout_us k wait_counter = out_of_fuel
card_busy_loop (suc fuel) busy timeout_us k wait_counter =
    let rest = card_busy_loop fuel busy timeout_us (suc k) (wait_counter + 100) in
    if busy k
    then (if ltb timeout_us wait_counter then returns ebusy else rest)
    else returns success

unfoldable pub polling_card_busy : (ℕ → Bool) → ℕ → Outcome Errno
unfolding card_busy_loop
polling_card_busy busy timeout_us = card_busy_loop (timeout_us / 100 + 2) busy timeout_us 0 0

-- the interrupts that arrive during one `DELAY(1)`, in their order
unfoldable pub deliver : MmcReg → List Irq → Softc → Outcome Softc
deliver reg [] s = returns s
deliver reg (i ∷ is) s = interrupt reg i s >>= deliver reg is

-- `irqs k` are the interrupts of the k-th wait.
unfoldable pub request_done_loop :
    ℕ → MmcReg → (ℕ → List Irq) → ℕ → ℕ → Softc → Outcome (Errno × Softc)
request_done_loop zero reg irqs timeout_us wait_counter s = out_of_fuel
request_done_loop (suc fuel) reg irqs timeout_us wait_counter s =
    let rest =
      deliver reg (irqs wait_counter) s
      >>= request_done_loop fuel reg irqs timeout_us (suc wait_counter) in
    if s.req_pending
    then (if ltb timeout_us wait_counter then returns (eio, s) else rest)
    else returns (success, s)

unfoldable pub polling_request_done : MmcReg → (ℕ → List Irq) → ℕ → Softc → Outcome (Errno × Softc)
unfolding request_done_loop
polling_request_done reg irqs timeout_us s =
    request_done_loop (timeout_us + 2) reg irqs timeout_us 0 s
