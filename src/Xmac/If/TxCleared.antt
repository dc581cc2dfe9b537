-- ===== src/Xmac/If/TxCleared.antt =====
-- Stopping frees the mbuf of every packet in the transmit ring once and leaves the ring empty.
use phytium_sdk.Prelude.{
  ℕ, zero, suc, ◌<◌, ltb, ◌==◌, ◌≡◌, refl, Bool, true, false, [], ◌++◌, Option, none, some, bit_or,
  if◌then◌else◌, update, arith, ap, ◌∙◌, Bool-cases, inl, inr,
}
use phytium_sdk.Xmac.Tx.Ring.{TxSide, TxDesc, TxReg, m_freem, has}
use phytium_sdk.Xmac.Tx.Words.{IsTxLayout}
use phytium_sdk.Xmac.Tx.Queue.{IsUsed, IsTxRing}
use phytium_sdk.Xmac.Tx.Run.{fresh_used, wrap_used}
use phytium_sdk.Xmac.If.Held.{held, cons_some, cons_some-append, none_below}
use phytium_sdk.Xmac.If.Clear.{stop_tx_one, stop_tx_loop, stop_tx}

-- the first `n` rounds have cleared the slots below `n`
record IsTxCleared (reg : TxReg) (n : ℕ) (s t : TxSide) : Type 0 where
  slots : (p : ℕ) → t.txring_m p ≡ (if ltb p n then none else s.txring_m p)
  ctls : (p : ℕ) → p < n → (t.txring p).ctl ≡ reg.txbuf_used
  freed : t.freed ≡ held s.txring_m n ++ s.freed
  same_sendq : t.sendq ≡ s.sendq

module _ (reg : TxReg) where
  -- what one round does
  stop_tx_one-freed :
      (i : ℕ) (t : TxSide) → (stop_tx_one reg i t).freed ≡ cons_some (t.txring_m i) t.freed
  unfolding stop_tx_one m_freem
  stop_tx_one-freed i t = freed_by (t.txring_m i)
    where
      freed_by : (o : Option ℕ) → (m_freem o t).freed ≡ cons_some o t.freed
      freed_by none = refl
      freed_by (some m) = refl

  stop_tx_one-txring_m :
      (i : ℕ) (t : TxSide) → (stop_tx_one reg i t).txring_m ≡ update t.txring_m i none
  unfolding stop_tx_one m_freem
  stop_tx_one-txring_m i t = ap (λ f. update f i none) (kept (t.txring_m i))
    where
      kept : (o : Option ℕ) → (m_freem o t).txring_m ≡ t.txring_m
      kept none = refl
      kept (some m) = refl

  stop_tx_one-sendq : (i : ℕ) (t : TxSide) → (stop_tx_one reg i t).sendq ≡ t.sendq
  unfolding stop_tx_one m_freem
  stop_tx_one-sendq i t = kept (t.txring_m i)
    where
      kept : (o : Option ℕ) → (m_freem o t).sendq ≡ t.sendq
      kept none = refl
      kept (some m) = refl

  stop_tx_one-ctl :
      (i : ℕ) (t : TxSide) (p : ℕ)
      → ((stop_tx_one reg i t).txring p).ctl ≡ (if i == p then reg.txbuf_used else (t.txring p).ctl)
  unfolding stop_tx_one m_freem
  stop_tx_one-ctl i t p = kept (t.txring_m i) (i == p)
    where
      kept :
          (o : Option ℕ) (b : Bool)
          → (if b
              then record ((m_freem o t).txring i) { ctl = reg.txbuf_used }
              else (m_freem o t).txring p).ctl
            ≡ (if b then reg.txbuf_used else (t.txring p).ctl)
      kept none true = refl
      kept none false = refl
      kept (some m) true = refl
      kept (some m) false = refl

  stop_tx_loop-IsTxCleared : (n : ℕ) (s : TxSide) → IsTxCleared reg n s (stop_tx_loop reg n s)
  unfolding stop_tx_loop held
  stop_tx_loop-IsTxCleared zero s = record {
    slots = λ p. ground arith;
    ctls = λ p below. absurd (omega arith);
    freed = refl;
    same_sendq = refl;
  }
  stop_tx_loop-IsTxCleared (suc n) s =
      let t = stop_tx_loop reg n s in
      let f = stop_tx_loop-IsTxCleared n s in
      let here : t.txring_m n ≡ s.txring_m n = ground (arith, f.slots n) in
      record {
        slots = λ p. ap (λ g. g p) (stop_tx_one-txring_m n t) ∙ ground (arith, f.slots p);
        ctls = λ p below. stop_tx_one-ctl n t p ∙ ground (arith, f.ctls p);
        freed =
            stop_tx_one-freed n t
            ∙ ap (λ o. cons_some o t.freed) here
            ∙ ap (cons_some (s.txring_m n)) f.freed
            ∙ cons_some-append (s.txring_m n) (held s.txring_m n) s.freed;
        same_sendq = stop_tx_one-sendq n t ∙ f.same_sendq;
      }

-- a ring of used descriptors, whose last one gets the wrap mark
marked-IsUsed :
    (reg : TxReg) (l : IsTxLayout reg) (ring : ℕ → TxDesc)
    → ((p : ℕ) → p < 512 → (ring p).ctl ≡ reg.txbuf_used)
    → (p : ℕ) → p < 512
    → IsUsed reg
        (update ring 511 (record (ring 511) { ctl = bit_or (ring 511).ctl reg.txbuf_wrap }))
        p
marked-IsUsed reg l ring used p below = elim (Bool-cases (511 == p)) [
  | inl last ↦
      ap
        (λ b.
          has
            (if b
              then record (ring 511) { ctl = bit_or (ring 511).ctl reg.txbuf_wrap }
              else ring p).ctl
            reg.txbuf_used)
        last
      ∙ ap (λ c. has (bit_or c reg.txbuf_wrap) reg.txbuf_used) (used 511 (omega arith))
      ∙ wrap_used reg l
  | inr other ↦
      ap
        (λ b.
          has
            (if b
              then record (ring 511) { ctl = bit_or (ring 511).ctl reg.txbuf_wrap }
              else ring p).ctl
            reg.txbuf_used)
        other
      ∙ ap (λ c. has c reg.txbuf_used) (used p below)
      ∙ fresh_used reg l
]

module _ (reg : TxReg) (l : IsTxLayout reg) (s : TxSide) where
  start_of : TxSide
  start_of = record s { txring = λ i. record { addr = 0; ctl = 0; addrhi = 0 } }

  cleared : IsTxCleared reg 512 start_of (stop_tx_loop reg 512 start_of)
  cleared = stop_tx_loop-IsTxCleared reg 512 start_of

  pub stop_tx-freed : (stop_tx reg s).freed ≡ held s.txring_m 512 ++ s.freed
  unfolding stop_tx start_of
  stop_tx-freed = cleared.freed

  pub stop_tx-txring_m : (p : ℕ) → p < 512 → (stop_tx reg s).txring_m p ≡ none
  unfolding stop_tx start_of
  stop_tx-txring_m p below = cleared.slots p ∙ none_below p 512 (s.txring_m p) below

  pub stop_tx-sendq : (stop_tx reg s).sendq ≡ s.sendq
  unfolding stop_tx start_of
  stop_tx-sendq = cleared.same_sendq

  pub stop_tx-IsTxRing : IsTxRing reg [] (stop_tx reg s)
  unfolding stop_tx start_of
  stop_tx-IsTxRing = record {
    holds = refl;
    counted = refl;
    room = omega arith;
    tail = omega arith;
    idle_used = λ p inside idle.
        marked-IsUsed reg l (stop_tx_loop reg 512 start_of).txring cleared.ctls p inside;
  }
