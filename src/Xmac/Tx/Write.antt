-- ===== src/Xmac/Tx/Write.antt =====
-- Filling the descriptors of a packet.
use phytium_sdk.Prelude.{
  ℕ, zero, suc, ◌+◌, ◌^◌, ◌≤◌, ◌<◌, ◌≡◌, ◌⊎◌, refl, ap, ◌∙◌, Bool, true, false, List, [], ◌∷◌, none,
  ◌==◌, update, update-ne, if◌then◌else◌, arith, length,
}
use phytium_sdk.Xmac.Tx.Chain.{Segment}
use phytium_sdk.Xmac.Tx.Ring.{TxSide, TxReg, has}
use phytium_sdk.Xmac.Tx.Output.{write_descs, ctl_of}
use phytium_sdk.Xmac.Tx.Words.{IsTxLayout, is_last, ctl_of-last, ctl_of-wrap, ctl_of-used}

-- every segment has a length that a descriptor can hold
abbrev pub AreSmall : List Segment → Type 0
AreSmall [] = Unit {0}
AreSmall (g ∷ gs) = (g.ds_len < 2 ^ 14) × AreSmall gs

-- the segments from the i-th on have been written at `base + i`
pub record IsWritten (reg : TxReg) (wrap : Bool) (base i n : ℕ) (s t : TxSide) : Type 0 where
  pub outside : (p : ℕ) → (p < base + i) ⊎ (base + i + n ≤ p) → t.txring p ≡ s.txring p
  pub packets :
      (p : ℕ) → (p < base + i) ⊎ (base + i + n ≤ p) ⊎ (p ≡ base) → t.txring_m p ≡ s.txring_m p
  pub last_marked :
      (k : ℕ) → k < n → has (t.txring (base + i + k)).ctl reg.txbuf_last ≡ (suc k == n)
  pub wrap_marked :
      (k : ℕ)
      → k < n
      → has (t.txring (base + i + k)).ctl reg.txbuf_wrap ≡ (if suc k == n then wrap else false)
  pub unused : (k : ℕ) → k < n → has (t.txring (base + i + k)).ctl reg.txbuf_used ≡ false
  pub rest : t ≡ record s { txring = t.txring; txring_m = t.txring_m }

length-is_last : (gs : List Segment) → is_last gs ≡ (1 == suc (length gs))
length-is_last [] = refl
length-is_last (g ∷ gs) = ground arith

module _ (reg : TxReg) (wrap : Bool) (base i : ℕ) (g : Segment) (gs : List Segment)
    (s : TxSide) where
  first_desc :
      ((write_descs reg wrap base i (g ∷ gs) s).txring (base + i + 0)).ctl ≡ ctl_of reg wrap g gs
  unfolding write_descs
  first_desc = let e : (base + i == base + i + 0) ≡ true = ground arith in rw e refl

  later_desc :
      (k : ℕ)
      → (write_descs reg wrap base i (g ∷ gs) s).txring (base + i + suc k)
        ≡ (write_descs reg wrap base (suc i) gs s).txring (base + suc i + k)
  unfolding write_descs
  later_desc k =
      let t = write_descs reg wrap base (suc i) gs s in
      update-ne t.txring (base + i) _ (base + i + suc k) (λ e. omega arith)
      ∙ ap t.txring (omega arith)

  -- a mark of the descriptors, from that of the first and those of the others
  marks_of :
      (mask : ℕ) (f : ℕ → Bool)
      → has (ctl_of reg wrap g gs) mask ≡ f 0
      → ((k : ℕ)
          → k < length gs
          → has ((write_descs reg wrap base (suc i) gs s).txring (base + suc i + k)).ctl mask
            ≡ f (suc k))
      → (k : ℕ) → k < suc (length gs)
      → has ((write_descs reg wrap base i (g ∷ gs) s).txring (base + i + k)).ctl mask ≡ f k
  marks_of mask f first others zero less = ap (λ x. has x mask) first_desc ∙ first
  marks_of mask f first others (suc k) less =
      ap (λ d. has d.ctl mask) (later_desc k) ∙ others k (omega arith)

module _ (reg : TxReg) (l : IsTxLayout reg) (wrap : Bool) (base : ℕ) where
  pub write_descs-IsWritten :
      (i : ℕ) (gs : List Segment) (s : TxSide)
      → AreSmall gs
      → IsWritten reg wrap base i (length gs) s (write_descs reg wrap base i gs s)
  unfolding write_descs
  write_descs-IsWritten i [] s small = record {
    outside = λ p away. refl;
    packets = λ p away. refl;
    last_marked = λ k less. absurd (omega arith);
    wrap_marked = λ k less. absurd (omega arith);
    unused = λ k less. absurd (omega arith);
    rest = refl;
  }
  write_descs-IsWritten i (g ∷ gs) s (small, smalls) =
      let t = write_descs reg wrap base (suc i) gs s in
      let w = write_descs-IsWritten (suc i) gs s smalls in
      record {
        outside = λ p away.
            update-ne t.txring (base + i) _ p (λ e. ground (arith, e)) ∙ w.outside p (ground arith);
        packets = λ p away. kept_packet t p away ∙ w.packets p (ground arith);
        last_marked =
            marks_of reg wrap base i g gs s reg.txbuf_last (λ k. suc k == suc (length gs))
              (ctl_of-last reg l g small wrap gs ∙ length-is_last gs)
              (λ k less. w.last_marked k less ∙ ground arith);
        wrap_marked =
            marks_of reg wrap base i g gs s reg.txbuf_wrap
              (λ k. if suc k == suc (length gs) then wrap else false)
              (ctl_of-wrap reg l g small wrap gs ∙ ground (arith, length-is_last gs))
              (λ k less. w.wrap_marked k less ∙ ground arith);
        unused =
            marks_of reg wrap base i g gs s reg.txbuf_used (λ k. false)
              (ctl_of-used reg l g small wrap gs) w.unused;
        rest =
            ap {A = TxSide} {B = TxSide}
              (λ x. record x {
                txring = (write_descs reg wrap base i (g ∷ gs) s).txring;
                txring_m = (write_descs reg wrap base i (g ∷ gs) s).txring_m;
              })
              w.rest;
      }
    where
      kept_packet :
          (t : TxSide) (p : ℕ)
          → (p < base + i) ⊎ (base + i + suc (length gs) ≤ p) ⊎ (p ≡ base)
          → (if i == 0 then t.txring_m else update t.txring_m (base + i) none) p ≡ t.txring_m p
      kept_packet t p away = ground arith
