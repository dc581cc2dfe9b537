-- ===== src/Xmac/Tx/Keep.antt =====
-- Writes to the transmit ring outside the queue leave the queue alone.
use phytium_sdk.Prelude.{
  ℕ, ◌+◌, ◌≤◌, ◌<◌, ◌≡◌, inl, inr, refl, sym, subst, ◌∙◌, List, [], ◌∷◌, ◌++◌, Option, some, arith,
}
use phytium_sdk.Xmac.Tx.Ring.{TxDesc, TxReg, has}
use phytium_sdk.Xmac.Tx.Queue.{InFlight, after, IsIdle, HasDescs, Holds}

-- two rings agree on the marks of a descriptor, and on its packet
pub record SameMarks (reg : TxReg) (ring ring' : ℕ → TxDesc) (ms ms' : ℕ → Option ℕ) (p : ℕ)
    : Type 0 where
  pub same_last : has (ring' p).ctl reg.txbuf_last ≡ has (ring p).ctl reg.txbuf_last
  pub same_wrap : has (ring' p).ctl reg.txbuf_wrap ≡ has (ring p).ctl reg.txbuf_wrap
  pub same_packet : ms' p ≡ ms p

pub SameMarks-trans :
    {reg : TxReg} {r0 r1 r2 : ℕ → TxDesc} {m0 m1 m2 : ℕ → Option ℕ} {p : ℕ}
    → SameMarks reg r0 r1 m0 m1 p
    → SameMarks reg r1 r2 m1 m2 p
    → SameMarks reg r0 r2 m0 m2 p
SameMarks-trans a b = record {
  same_last = b.same_last ∙ a.same_last;
  same_wrap = b.same_wrap ∙ a.same_wrap;
  same_packet = b.same_packet ∙ a.same_packet;
}

module _ (reg : TxReg) (ring ring' : ℕ → TxDesc) (ms ms' : ℕ → Option ℕ) where
  pub HasDescs-SameMarks :
      (i n : ℕ)
      → ((p : ℕ) → i ≤ p → p < i + n → SameMarks reg ring ring' ms ms' p)
      → HasDescs reg ring i n
      → HasDescs reg ring' i n
  HasDescs-SameMarks i n same d = record {
    some_descs = d.some_descs;
    few = d.few;
    inside = d.inside;
    marked = λ k small. (same (i + k) (omega arith) (omega arith)).same_last ∙ d.marked k small;
    wraps = λ k small. (same (i + k) (omega arith) (omega arith)).same_wrap ∙ d.wraps k small;
  }

  -- Where the two rings agree on all descriptors but the idle ones, they hold the same queue.
  pub Holds-SameMarks :
      (i : ℕ) (q : List InFlight) (h : ℕ)
      → ((p : ℕ) → ¬ IsIdle p i q → SameMarks reg ring ring' ms ms' p)
      → Holds reg ring ms i q h
      → Holds reg ring' ms' i q h
  Holds-SameMarks i [] h same r = r
  Holds-SameMarks i (f ∷ q) h same (at, d, r) = (
    (same i
          (λ x. elim x.0 [ inl a ↦ omega arith | inr b ↦ omega (arith, d.some_descs) ])).same_packet
        ∙ at,
    HasDescs-SameMarks i f.descs
        (λ p lo hi. same p (λ x. elim x.0 [ inl a ↦ omega arith | inr b ↦ omega arith ])) d,
    Holds-SameMarks (after i f.descs) q h (λ p busy. same p (λ x. busy x.1)) r,
  )

module _ (reg : TxReg) (ring : ℕ → TxDesc) (ms : ℕ → Option ℕ) where
  -- A queue is extended by a packet at its end.
  pub Holds-append :
      (i : ℕ) (q : List InFlight) (h : ℕ) (f : InFlight)
      → Holds reg ring ms i q h
      → ms h ≡ some f.packet
      → HasDescs reg ring h f.descs
      → Holds reg ring ms i (q ++ (f ∷ [])) (after h f.descs)
  Holds-append i [] h f r at d =
      subst
        (λ x.
          (ms x ≡ some f.packet)
          × HasDescs reg ring x f.descs
          × (after x f.descs ≡ after h f.descs))
        (sym r) (at, d, refl)
  Holds-append i (g ∷ q) h f (at', d', r) at d =
      (at', d', Holds-append (after i g.descs) q h f r at d)
