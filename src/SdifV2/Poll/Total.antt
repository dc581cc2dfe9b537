-- ===== src/SdifV2/Poll/Total.antt =====
-- The polling loops end within the rounds that their timeout allows, and how they end.
use phytium_sdk.Prelude.{
  ℕ, zero, suc, ◌+◌, ◌*◌, ◌/◌, ◌≤◌, ◌<◌, ◌≡◌, ◌≢◌, ◌⊎◌, refl, bind-ends, ◌>>=◌, [], ◌∷◌, panics,
  ◌==◌, Bool, true, false, arith, Outcome, returns, out_of_fuel, List, Bool-cases, inl, inr, ltb,
}
use phytium_sdk.SdifV2.Softc.{Softc, MmcReg, success, ebusy, eio, Errno}
use phytium_sdk.SdifV2.Finish.{
  Irq, interrupt, command_done, data_done, irq_command_done, irq_data_done, irq_error, irq_card,
}
use phytium_sdk.SdifV2.Poll.{
  card_busy_loop, polling_card_busy, deliver, request_done_loop, polling_request_done,
}

card_busy_loop-ready :
    (fuel : ℕ) (busy : ℕ → Bool) (t k n : ℕ)
    → k ≤ n
    → n ≤ t / 100 + 1
    → n < k + fuel
    → busy n ≡ false
    → card_busy_loop fuel busy t k (k * 100) ≡ returns success
unfolding card_busy_loop
card_busy_loop-ready zero busy t k n kn nt enough ready = absurd (omega arith)
card_busy_loop-ready (suc fuel) busy t k n kn nt enough ready = elim (Bool-cases (k == n)) [
  | inl e ↦ ground arith
  | inr e ↦ ground (arith, card_busy_loop-ready fuel busy t (suc k) n)
]

card_busy_loop-busy :
    (fuel : ℕ) (busy : ℕ → Bool) (t k : ℕ)
    → k ≤ t / 100 + 1
    → t / 100 + 1 < k + fuel
    → ((j : ℕ) → j ≤ t / 100 + 1 → busy j ≡ true)
    → card_busy_loop fuel busy t k (k * 100) ≡ returns ebusy
unfolding card_busy_loop
card_busy_loop-busy zero busy t k kn enough always = absurd (omega arith)
card_busy_loop-busy (suc fuel) busy t k kn enough always =
    ground (arith, always k, card_busy_loop-busy fuel busy t (suc k))

-- The wait for the card always ends: it succeeds when one of the polls 0 .. t / 100 + 1 finds the
-- card ready, and returns EBUSY when they all find it busy.
pub polling_card_busy_total :
    (busy : ℕ → Bool) (t : ℕ)
    → ((n : ℕ) → n ≤ t / 100 + 1 → busy n ≡ false → polling_card_busy busy t ≡ returns success)
      × (((j : ℕ) → j ≤ t / 100 + 1 → busy j ≡ true) → polling_card_busy busy t ≡ returns ebusy)
unfolding polling_card_busy
polling_card_busy_total busy t = (
  λ n near ready.
      card_busy_loop-ready (t / 100 + 2) busy t 0 n (omega arith) near (omega arith) ready,
  λ always. card_busy_loop-busy (t / 100 + 2) busy t 0 (omega arith) (omega arith) always,
)

interrupt-ends : (reg : MmcReg) (i : Irq) (s : Softc) → interrupt reg i s ≢ out_of_fuel
unfolding interrupt command_done data_done
interrupt-ends reg (irq_command_done r) s = ground arith
interrupt-ends reg irq_data_done s = ground arith
interrupt-ends reg irq_error s = ground arith
interrupt-ends reg (irq_card stopped present) s = ground arith

deliver-ends : (reg : MmcReg) (is : List Irq) (s : Softc) → deliver reg is s ≢ out_of_fuel
unfolding deliver
deliver-ends reg [] s = ground arith
deliver-ends reg (i ∷ is) s =
    bind-ends (interrupt reg i s) (deliver reg is) (interrupt-ends reg i s) (deliver-ends reg is)

-- How the wait for a request ends: the request is over, or it is not and the wait timed out.
abbrev pub Settled : Outcome (Errno × Softc) → Type 0
Settled (returns (e, s)) =
    ((e ≡ success) × (s.req_pending ≡ false)) ⊎ ((e ≡ eio) × (s.req_pending ≡ true))
Settled panics = Unit
Settled out_of_fuel = ⊥

bind-Settled :
    (m : Outcome Softc) (f : Softc → Outcome (Errno × Softc))
    → m ≢ out_of_fuel
    → ((s : Softc) → Settled (f s))
    → Settled (m >>= f)
bind-Settled (returns s) f h k = k s
bind-Settled panics f h k = tt
bind-Settled out_of_fuel f h k = h refl

request_done_loop-Settled :
    (fuel : ℕ) (reg : MmcReg) (irqs : ℕ → List Irq) (t w : ℕ) (s : Softc)
    → w ≤ t + 1
    → t + 1 < w + fuel
    → Settled (request_done_loop fuel reg irqs t w s)
unfolding request_done_loop
request_done_loop-Settled zero reg irqs t w s near enough = absurd (omega arith)
request_done_loop-Settled (suc fuel) reg irqs t w s near enough = elim (Bool-cases s.req_pending) [
  | inr over ↦ simp over (inl (refl, refl))
  | inl pending ↦ elim (Bool-cases (ltb t w)) [
    | inl late ↦ simp (pending, late) (inr (refl, refl))
    | inr early ↦
        simp (pending, early)
          (bind-Settled (deliver reg (irqs w) s) (request_done_loop fuel reg irqs t (suc w))
            (deliver-ends reg (irqs w) s)
            (λ u. request_done_loop-Settled fuel reg irqs t (suc w) u (ground arith) (omega arith)))
  ]
]

-- The wait for a request always ends, whatever interrupts arrive: it returns 0 only with no request
-- pending and EIO only with one still pending, unless a handler panics.
pub polling_request_done-Settled :
    (reg : MmcReg) (irqs : ℕ → List Irq) (t : ℕ) (s : Softc)
    → Settled (polling_request_done reg irqs t s)
unfolding polling_request_done
polling_request_done-Settled reg irqs t s =
    request_done_loop-Settled (t + 2) reg irqs t 0 s (omega arith) (omega arith)
