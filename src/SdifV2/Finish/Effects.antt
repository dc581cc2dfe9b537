-- ===== src/SdifV2/Finish/Effects.antt =====
-- However the interrupts arrive, a request is completed at most once.
use phytium_sdk.Prelude.{
  ℕ, ◌+◌, ◌≤◌, ◌≡◌, true, false, List, [], ◌∷◌, Option, none, some, arith, returns, bind-eq-returns,
  update,
}
use phytium_sdk.SdifV2.Softc.{
  Softc, MmcReg, Response, Effect, done, host_reset, err_timeout, err_none,
}
use phytium_sdk.SdifV2.Finish.{
  Irq, irq_command_done, irq_data_done, irq_error, irq_card, interrupt, finish_command,
  command_done, data_done, complete, error_occurred, handle_card_present, timeout,
}
use phytium_sdk.SdifV2.Poll.{deliver}

is_done : Effect → ℕ
is_done (done r) = 1
is_done _ = 0

-- how often the upper layer has been told that a request is over
unfoldable pub completions : List Effect → ℕ
unfolding is_done
completions [] = 0
completions (e ∷ es) = is_done e + completions es

-- 1 while a request is in progress
abbrev pub in_progress : Option ℕ → ℕ
in_progress none = 0
in_progress (some r) = 1

finish_bound :
    (reg : MmcReg) (s : Softc) {t : Softc}
    → finish_command reg s ≡ returns t
    → completions t.log + in_progress t.req ≤ completions s.log + in_progress s.req
unfolding finish_command completions
finish_bound reg s e = ground arith

interrupt_bound :
    (reg : MmcReg) (i : Irq) (s : Softc) {t : Softc}
    → interrupt reg i s ≡ returns t
    → completions t.log + in_progress t.req ≤ completions s.log + in_progress s.req
unfolding interrupt command_done data_done error_occurred handle_card_present completions
interrupt_bound reg (irq_command_done r) s e = ground arith
interrupt_bound reg irq_data_done s e = ground arith
interrupt_bound reg irq_error s e = ground arith
interrupt_bound reg (irq_card stopped present) s e = ground arith

-- Any interrupts, in any order, complete a request at most once, and none at all when no request is
-- in progress: the completions told afterwards, plus the request still in progress, are no more than
-- those told before plus the one then in progress.
pub deliver_bound :
    (reg : MmcReg) (is : List Irq) (s : Softc) {t : Softc}
    → deliver reg is s ≡ returns t
    → completions t.log + in_progress t.req ≤ completions s.log + in_progress s.req
unfolding deliver
deliver_bound reg [] s e = ground arith
deliver_bound reg (i ∷ is) s e =
    let (u, first, rest) = bind-eq-returns (interrupt reg i s) (deliver reg is) e in
    omega (arith, interrupt_bound reg i s first, deliver_bound reg is u rest)

-- The timeout leaves the request in progress: a command interrupt that comes after it completes the
-- request a second time, and replaces the timeout error by success. The request expects no data.
pub timeout-command_done_twice :
    (reg : MmcReg) (a : Response) (r : ℕ) (s : Softc)
    → s.req ≡ some r
    → s.curcmd ≡ some r
    → s.req_pending ≡ true
    → s.expect_data ≡ false
    → (u : Softc) × (t : Softc) × (timeout s ≡ returns u)
      × ((u.requests r).error ≡ err_timeout)
      × (command_done reg a u ≡ returns t)
      × ((t.requests r).error ≡ err_none)
      × (completions t.log ≡ 2 + completions s.log)
unfolding command_done completions timeout
timeout-command_done_twice reg a r s q c p x =
    let u = record s {
      requests = update s.requests r (record (s.requests r) { error = err_timeout });
      timer = false;
      log = done r ∷ host_reset ∷ s.log;
    } in
    let v = record u { response = a; cmd_done = true } in
    (
      u,
      complete reg r v v.mem,
      ground arith,
      ground arith,
      ground arith,
      ground arith,
      ground arith,
    )
