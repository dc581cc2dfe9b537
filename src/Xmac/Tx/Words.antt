-- ===== src/Xmac/Tx/Words.antt =====
-- The control words of transmit descriptors.
use phytium_sdk.Prelude.{
  ℕ, ◌^◌, ◌%◌, ◌≤◌, ◌<◌, ◌≡◌, ap, ◌∙◌, Bool, true, false, ◌&&◌, ◌||◌, List, [], ◌∷◌, bit_or, arith,
  ◌==◌,
}
use phytium_sdk.Bits.{testb}
use phytium_sdk.Bits.Laws.{testb-bit_or, testb-pow, bit_and-pow, testb-below}
use phytium_sdk.Xmac.Tx.Chain.{Segment}
use phytium_sdk.Xmac.Tx.Ring.{TxReg, has}
use phytium_sdk.Xmac.Tx.Output.{ctl_of}

-- The bits of a control word, as the manual of the controller has them.
pub record IsTxLayout (reg : TxReg) : Type 0 where
  pub used_bit : reg.txbuf_used ≡ 2 ^ 31
  pub wrap_bit : reg.txbuf_wrap ≡ 2 ^ 30
  pub last_bit : reg.txbuf_last ≡ 2 ^ 15

pub has-pow : (x k : ℕ) → has x (2 ^ k) ≡ testb x k
unfolding has
has-pow x k = ground (arith, bit_and-pow x k)

has-bit_or : (x j k : ℕ) → has (bit_or x (2 ^ j)) (2 ^ k) ≡ (testb x k || (j == k))
has-bit_or x j k =
    has-pow (bit_or x (2 ^ j)) k
    ∙ testb-bit_or x (2 ^ j) k
    ∙ ap (λ b. testb x k || b) (testb-pow j k)

abbrev pub is_last : List Segment → Bool
is_last [] = true
is_last (g ∷ gs) = false

module _ (reg : TxReg) (l : IsTxLayout reg) where
  -- Marking a descriptor as used leaves its other marks alone.
  pub has-bit_or-last :
      (x : ℕ) → has (bit_or x reg.txbuf_used) reg.txbuf_last ≡ has x reg.txbuf_last
  has-bit_or-last x = rw (l.used_bit, l.last_bit) (ground (arith, has-bit_or x 31 15, has-pow x 15))

  pub has-bit_or-wrap :
      (x : ℕ) → has (bit_or x reg.txbuf_used) reg.txbuf_wrap ≡ has x reg.txbuf_wrap
  has-bit_or-wrap x = rw (l.used_bit, l.wrap_bit) (ground (arith, has-bit_or x 31 30, has-pow x 30))

  pub has-bit_or-used : (x : ℕ) → has (bit_or x reg.txbuf_used) reg.txbuf_used ≡ true
  has-bit_or-used x = rw l.used_bit (ground (arith, has-bit_or x 31 31))

  module _ (g : Segment) (small : g.ds_len < 2 ^ 14) (i : ℕ) (high : 14 ≤ i) where
    low_bits : testb (g.ds_len % 2 ^ 32) i ≡ false
    low_bits =
        let same : g.ds_len % 2 ^ 32 ≡ g.ds_len = omega arith in
        rw same (testb-below 14 i g.ds_len small high)

    testb-ctl_of :
        (wrap : Bool) (gs : List Segment)
        → testb (ctl_of reg wrap g gs) i
          ≡ ((is_last gs && (15 == i)) || (is_last gs && wrap && (30 == i)))
    unfolding ctl_of
    testb-ctl_of true [] =
        rw (l.last_bit, l.wrap_bit)
          (ground (
            arith,
            low_bits,
            testb-bit_or (bit_or (g.ds_len % 2 ^ 32) (2 ^ 15)) (2 ^ 30) i,
            testb-bit_or (g.ds_len % 2 ^ 32) (2 ^ 15) i,
            testb-pow 15 i,
            testb-pow 30 i,
          ))
    testb-ctl_of false [] =
        rw l.last_bit
          (ground (arith, low_bits, testb-bit_or (g.ds_len % 2 ^ 32) (2 ^ 15) i, testb-pow 15 i))
    testb-ctl_of wrap (x ∷ xs) = low_bits

  module _ (g : Segment) (small : g.ds_len < 2 ^ 14) (wrap : Bool) (gs : List Segment) where
    pub ctl_of-last : has (ctl_of reg wrap g gs) reg.txbuf_last ≡ is_last gs
    ctl_of-last =
        ap (has (ctl_of reg wrap g gs)) l.last_bit
        ∙ has-pow (ctl_of reg wrap g gs) 15
        ∙ testb-ctl_of g small 15 (omega arith) wrap gs
        ∙ ground arith

    pub ctl_of-wrap : has (ctl_of reg wrap g gs) reg.txbuf_wrap ≡ (is_last gs && wrap)
    ctl_of-wrap =
        ap (has (ctl_of reg wrap g gs)) l.wrap_bit
        ∙ has-pow (ctl_of reg wrap g gs) 30
        ∙ testb-ctl_of g small 30 (omega arith) wrap gs
        ∙ ground arith

    pub ctl_of-used : has (ctl_of reg wrap g gs) reg.txbuf_used ≡ false
    ctl_of-used =
        ap (has (ctl_of reg wrap g gs)) l.used_bit
        ∙ has-pow (ctl_of reg wrap g gs) 31
        ∙ testb-ctl_of g small 31 (omega arith) wrap gs
        ∙ ground arith
