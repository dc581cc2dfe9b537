-- ===== src/Xmac/If/RxCleared.antt =====
-- Stopping frees every buffer of the receive ring once and leaves the ring empty.
use phytium_sdk.Prelude.{
  ℕ, zero, suc, ◌<◌, ltb, ◌≡◌, refl, List, ◌∷◌, ◌++◌, Option, none, some, if◌then◌else◌, update,
  arith, ap, ◌∙◌,
}
use phytium_sdk.Xmac.Softc.{XmacSoftc, XmacReg, Mbuf}
use phytium_sdk.Xmac.Rx.Ring.{IsRing}
use phytium_sdk.Xmac.If.Held.{held, cons_some, cons_some-append, none_below}
use phytium_sdk.Xmac.If.Clear.{stop_rx_one, stop_rx_loop, stop_rx}

-- the first `n` rounds have cleared the slots below `n`
record IsRxCleared (reg : XmacReg) (n : ℕ) (s t : XmacSoftc × List Mbuf) : Type 0 where
  slots : (p : ℕ) → t.0.rxring_m p ≡ (if ltb p n then none else s.0.rxring_m p)
  freed : t.1 ≡ held s.0.rxring_m n ++ s.1
  same_wanted : t.0.rxbufs ≡ s.0.rxbufs

module _ (reg : XmacReg) where
  stop_rx_one-freed :
      (i : ℕ) (t : XmacSoftc × List Mbuf) → (stop_rx_one reg i t).1 ≡ cons_some (t.0.rxring_m i) t.1
  unfolding stop_rx_one
  stop_rx_one-freed i t = freed_by (t.0.rxring_m i)
    where
      freed_by :
          (o : Option Mbuf)
          → elim o as (λ _. List Mbuf) [ none ↦ t.1 | some m ↦ m ∷ t.1 ] ≡ cons_some o t.1
      freed_by none = refl
      freed_by (some m) = refl

  stop_rx_one-rxring_m :
      (i : ℕ) (t : XmacSoftc × List Mbuf) (p : ℕ)
      → (stop_rx_one reg i t).0.rxring_m p ≡ update t.0.rxring_m i none p
  unfolding stop_rx_one
  stop_rx_one-rxring_m i t p = refl

  stop_rx_one-rxbufs :
      (i : ℕ) (t : XmacSoftc × List Mbuf) → (stop_rx_one reg i t).0.rxbufs ≡ t.0.rxbufs
  unfolding stop_rx_one
  stop_rx_one-rxbufs i t = refl

  stop_rx_loop-IsRxCleared :
      (n : ℕ) (s : XmacSoftc × List Mbuf) → IsRxCleared reg n s (stop_rx_loop reg n s)
  unfolding stop_rx_loop held
  stop_rx_loop-IsRxCleared zero s = record {
    slots = λ p. ground arith;
    freed = refl;
    same_wanted = refl;
  }
  stop_rx_loop-IsRxCleared (suc n) s =
      let t = stop_rx_loop reg n s in
      let f = stop_rx_loop-IsRxCleared n s in
      let here : t.0.rxring_m n ≡ s.0.rxring_m n = ground (arith, f.slots n) in
      record {
        slots = λ p. stop_rx_one-rxring_m n t p ∙ ground (arith, f.slots p);
        freed =
            stop_rx_one-freed n t
            ∙ ap (λ o. cons_some o t.1) here
            ∙ ap (cons_some (s.0.rxring_m n)) f.freed
            ∙ cons_some-append (s.0.rxring_m n) (held s.0.rxring_m n) s.1;
        same_wanted = stop_rx_one-rxbufs n t ∙ f.same_wanted;
      }

module _ (reg : XmacReg) (s : XmacSoftc) (freed : List Mbuf) where
  start_of : XmacSoftc
  start_of = record s { rxring = λ i. record { addr = 0; ctl = 0; addrhi = 0 } }

  cleared : IsRxCleared reg 512 (start_of, freed) (stop_rx_loop reg 512 (start_of, freed))
  cleared = stop_rx_loop-IsRxCleared reg 512 (start_of, freed)

  pub stop_rx-freed : (stop_rx reg (s, freed)).1 ≡ held s.rxring_m 512 ++ freed
  unfolding stop_rx start_of
  stop_rx-freed = cleared.freed

  pub stop_rx-rxring_m : (p : ℕ) → p < 512 → (stop_rx reg (s, freed)).0.rxring_m p ≡ none
  unfolding stop_rx start_of
  stop_rx-rxring_m p below = cleared.slots p ∙ none_below p 512 (s.rxring_m p) below

  pub stop_rx-rxbufs : (stop_rx reg (s, freed)).0.rxbufs ≡ s.rxbufs
  unfolding stop_rx start_of
  stop_rx-rxbufs = cleared.same_wanted

  pub stop_rx-queued : (stop_rx reg (s, freed)).0.rxring_queued ≡ 0
  unfolding stop_rx
  stop_rx-queued = refl

  pub stop_rx-IsRing : IsRing (stop_rx reg (s, freed)).0
  unfolding stop_rx start_of
  stop_rx-IsRing = record {
    tail = omega arith;
    fits = omega arith;
    head = refl;
    held = λ j k. absurd (omega arith);
  }
