-- ===== src/Xmac/Tx/Skip.antt =====
-- The loop over the descriptors of a packet that the device has sent.
use phytium_sdk.Prelude.{
  ℕ, zero, suc, ◌+◌, ◌-◌, ◌≤◌, ◌<◌, ◌≡◌, ◌⊎◌, inl, inr, refl, sym, ap, subst, ◌∙◌, true, false, leb,
  ◌==◌, if◌then◌else◌, arith, Bool-cases, returns,
}
use phytium_sdk.Xmac.Tx.Ring.{TxSide, TxReg, has, step_tail, mark_used, skip_loop, minus_one}
use phytium_sdk.Xmac.Tx.Words.{IsTxLayout, has-bit_or-last, has-bit_or-wrap, has-bit_or-used}
use phytium_sdk.Xmac.Tx.Queue.{IsUsed, HasDescs}
use phytium_sdk.Xmac.Tx.Keep.{SameMarks-trans, SameMarks, HasDescs-SameMarks}

module _ (reg : TxReg) (l : IsTxLayout reg) where
  pub mark_used-SameMarks :
      (s : TxSide) (p : ℕ)
      → SameMarks reg s.txring (mark_used reg s).txring s.txring_m (mark_used reg s).txring_m p
  unfolding mark_used
  mark_used-SameMarks s p = elim (Bool-cases (s.tl_ptr == p)) [
    | inl here ↦
        let same : s.tl_ptr ≡ p = ground arith in
        record {
          same_last = rw (here, sym same) (has-bit_or-last reg l (s.txring s.tl_ptr).ctl);
          same_wrap = rw (here, sym same) (has-bit_or-wrap reg l (s.txring s.tl_ptr).ctl);
          same_packet = refl;
        }
    | inr other ↦ record {
      same_last = rw other refl;
      same_wrap = rw other refl;
      same_packet = refl;
    }
  ]

  pub mark_used-IsUsed : (s : TxSide) → IsUsed reg (mark_used reg s).txring s.tl_ptr
  unfolding mark_used
  mark_used-IsUsed s = ground (arith, has-bit_or-used reg l (s.txring s.tl_ptr).ctl)

  mark_used-IsUsed_other :
      (s : TxSide) (p : ℕ)
      → (p == s.tl_ptr) ≡ false
      → IsUsed reg (mark_used reg s).txring p
      → IsUsed reg s.txring p
  unfolding mark_used
  mark_used-IsUsed_other s p other u = ground (arith, other, u)

  pub mark_used-IsUsed_mono :
      (s : TxSide) (p : ℕ) → IsUsed reg s.txring p → IsUsed reg (mark_used reg s).txring p
  unfolding mark_used
  mark_used-IsUsed_mono s p u = ground (arith, has-bit_or-used reg l (s.txring s.tl_ptr).ctl)

-- what the loop over the descriptors of a packet leaves: it started at the k-th of `n` at `i`
pub record IsSkipped (reg : TxReg) (s : TxSide) (i n k : ℕ) (o : ℕ × TxSide) : Type 0 where
  pub at_last : suc o.1.tl_ptr ≡ i + n
  pub left : o.1.queued + n ≡ s.queued + suc k
  pub last_word : has o.0 reg.txbuf_wrap ≡ leb 504 (i + n)
  pub marks : (p : ℕ) → SameMarks reg s.txring o.1.txring s.txring_m o.1.txring_m p
  pub used_kept : (p : ℕ) → IsUsed reg s.txring p → IsUsed reg o.1.txring p
  pub used_new : (p : ℕ) → i + k < p → p < i + n → IsUsed reg o.1.txring p
  pub used_old :
      (p : ℕ) → IsUsed reg o.1.txring p → IsUsed reg s.txring p ⊎ ((i + k < p) × (p < i + n))
  pub rest : o.1 ≡ record s { txring = o.1.txring; tl_ptr = o.1.tl_ptr; queued = o.1.queued }

module _ (reg : TxReg) (l : IsTxLayout reg) where
  pub step_tail-fields :
      (ctl : ℕ) (s : TxSide)
      → 0 < s.queued
      → s.queued < 512
      → ((step_tail reg ctl s).queued ≡ s.queued - 1)
        × ((step_tail reg ctl s).tl_ptr ≡ (if has ctl reg.txbuf_wrap then 0 else suc s.tl_ptr))
        × ((step_tail reg ctl s).txring ≡ s.txring)
        × ((step_tail reg ctl s).txring_m ≡ s.txring_m)
  unfolding step_tail minus_one
  step_tail-fields ctl s pos small = (omega arith, refl, refl, refl)

  skip_loop-last :
      (fuel ctl : ℕ) (s : TxSide)
      → has ctl reg.txbuf_last ≡ true
      → skip_loop reg (suc fuel) ctl s ≡ returns (ctl, s)
  unfolding skip_loop
  skip_loop-last fuel ctl s end = ground arith

  skip_loop-more :
      (fuel ctl : ℕ) (s : TxSide) {o : ℕ × TxSide}
      → has ctl reg.txbuf_last ≡ false
      → let t = step_tail reg ctl s in
        skip_loop reg fuel (t.txring t.tl_ptr).ctl (mark_used reg t) ≡ returns o
        → skip_loop reg (suc fuel) ctl s ≡ returns o
  unfolding skip_loop
  skip_loop-more fuel ctl s more e = ground arith

  pub skip_loop-IsSkipped :
      (fuel ctl i n k : ℕ) (s : TxSide)
      → HasDescs reg s.txring i n
      → k < n
      → n < k + fuel
      → s.tl_ptr ≡ i + k
      → n ≤ s.queued + k
      → s.queued < 512
      → has ctl reg.txbuf_last ≡ (suc k == n)
      → has ctl reg.txbuf_wrap ≡ (if suc k == n then leb 504 (i + n) else false)
      → (o : ℕ × TxSide) × (skip_loop reg fuel ctl s ≡ returns o) × IsSkipped reg s i n k o
  unfolding mark_used step_tail
  skip_loop-IsSkipped zero ctl i n k s d more enough at plenty small is_last wraps =
      absurd (omega arith)
  skip_loop-IsSkipped (suc fuel) ctl i n k s d more enough at plenty small is_last wraps =
      elim (Bool-cases (suc k == n)) [
        | inl end ↦ (
          (ctl, s),
          skip_loop-last fuel ctl s (is_last ∙ end),
          record {
            at_last = ground arith;
            left = ground arith;
            last_word = ground arith;
            marks = λ p. record { same_last = refl; same_wrap = refl; same_packet = refl };
            used_kept = λ p u. u;
            used_new = λ p lo hi. absurd (ground arith);
            used_old = λ p v. inl v;
            rest = refl;
          },
        )
        | inr on ↦
            let t = step_tail reg ctl s in
            let u = mark_used reg t in
            let (count, tail, ring, packets) = step_tail-fields ctl s (ground (arith, on)) small in
            let forward : t.tl_ptr ≡ i + suc k = ground (arith, on) in
            let d' : HasDescs reg u.txring i n =
              HasDescs-SameMarks reg t.txring u.txring t.txring_m u.txring_m i n
                (λ p lo hi. mark_used-SameMarks reg l t p) d in
            let (o, e, f) =
              skip_loop-IsSkipped fuel (t.txring t.tl_ptr).ctl i n (suc k) u d' (ground (arith, on))
                (omega arith) forward (ground (arith, on, count)) (omega (arith, count))
                (ap (λ x. has (s.txring x).ctl reg.txbuf_last) forward
                  ∙ d.marked (suc k) (ground (arith, on)))
                (ap (λ x. has (s.txring x).ctl reg.txbuf_wrap) forward
                  ∙ d.wraps (suc k) (ground (arith, on))) in
            (
              o,
              skip_loop-more fuel ctl s (is_last ∙ on) e,
              record {
                at_last = f.at_last;
                left = ground (arith, on, f.left, count);
                last_word = f.last_word;
                marks = λ p. SameMarks-trans (mark_used-SameMarks reg l t p) (f.marks p);
                used_kept = λ p v. f.used_kept p (mark_used-IsUsed_mono reg l t p v);
                used_new = λ p lo hi. elim (Bool-cases (p == i + suc k)) [
                  | inl here ↦ f.used_kept p (
                      subst (IsUsed reg u.txring) (forward ∙ ground (arith, here))
                        (mark_used-IsUsed reg l t))
                  | inr past ↦ f.used_new p (ground arith) hi
                ];
                used_old = λ p v. elim (f.used_old p v) [
                  | inr (lo, hi) ↦ inr (omega (arith, lo), hi)
                  | inl w ↦ elim (Bool-cases (p == t.tl_ptr)) [
                    | inl here ↦
                        inr (ground (arith, here, forward), ground (arith, here, forward, on))
                    | inr other ↦ inl (mark_used-IsUsed_other reg l t p other w)
                  ]
                ];
                rest = f.rest;
              },
            )
      ]
