-- ===== src/SdifV2/Request/Lock.antt =====
-- Every return of the start of a request releases the mutex of the driver.
use phytium_sdk.Prelude.{ℕ, ◌≡◌, false, arith, returns, ◌>>=◌, bind-eq-returns, if◌then◌else◌}
use phytium_sdk.SdifV2.Msg.{Header}
use phytium_sdk.SdifV2.Softc.{
  Softc, MmcReg, MmcCommand, Errno, is_success, sdif_time_out, emit, done,
}
use phytium_sdk.SdifV2.Poll.{polling_card_busy}
use phytium_sdk.SdifV2.Request.{Answers, set_block_count, counted, pre_request, begun, request}

module _ (h : Header) (reg : MmcReg) (a : Answers) where
  unlocked-set_block_count :
      (count : ℕ) (s : Softc) {o : Errno × Softc}
      → set_block_count h reg a count s ≡ returns o
      → o.1.locked ≡ false
  unfolding set_block_count
  unlocked-set_block_count count s e = ground arith

  unlocked-counted :
      (c : MmcCommand) (s : Softc) {o : Errno × Softc}
      → s.locked ≡ false
      → counted h reg a c s ≡ returns o
      → o.1.locked ≡ false
  unfolding counted
  unlocked-counted c s free e = ground arith

  unlocked-pre_request :
      (r : ℕ) (s : Softc) {o : Errno × Softc}
      → s.locked ≡ false
      → pre_request h reg a r s ≡ returns o
      → o.1.locked ≡ false
  unfolding pre_request
  unlocked-pre_request r s {o} free e =
      let (u, counts, rest) = bind-eq-returns (counted h reg a (s.requests r) s) _ e in
      ground (arith, unlocked-counted (s.requests r) s {o = u} free counts)

  unlocked-begun :
      (r : ℕ) (s : Softc) {o : Errno × Softc} → begun h reg a r s ≡ returns o → o.1.locked ≡ false
  unfolding begun
  unlocked-begun r s e = ground arith

  unlocked-after_ready :
      (r : ℕ) (s : Softc) {o : Errno × Softc}
      → s.locked ≡ false
      → (pre_request h reg a r s >>= λ p.
          (if is_success p.0 then begun h reg a r p.1 else returns (p.0, emit (done r) p.1)))
        ≡ returns o
      → o.1.locked ≡ false
  unlocked-after_ready r s {o} free e =
      let (p, checked, rest) = bind-eq-returns (pre_request h reg a r s) _ e in
      ground (arith, unlocked-pre_request r s {o = p} free checked, unlocked-begun r p.1 {o = o})

  -- However a request begins, with an error or not, the mutex is free when the call returns, if it
  -- was free before.
  pub unlocked-request :
      (r : ℕ) (s : Softc) {o : Errno × Softc}
      → s.locked ≡ false
      → request h reg a r s ≡ returns o
      → o.1.locked ≡ false
  unfolding request
  unlocked-request r s {o} free e =
      let (ready, polled, rest) =
        bind-eq-returns (polling_card_busy a.busy_before sdif_time_out) _ e in
      ground (arith, rest, unlocked-after_ready r s {o = o} free)
