-- ===== src/Xmac/If/Accept.antt =====
-- The receive filter accepts exactly the packets that the flags and the multicast addresses ask for.
use phytium_sdk.Prelude.{
  ℕ, ◌+◌, ◌-◌, ◌^◌, ◌<◌, ◌≢◌, bit_or, ◌==◌, ◌≡◌, refl, Bool, true, false, not, ◌&&◌, ◌||◌, ◌∷◌,
  if◌then◌else◌, returns, ◌>>=◌, arith, ap, ◌∙◌,
}
use phytium_sdk.Bits.{testb}
use phytium_sdk.Bits.Laws.{testb-bit_or, testb-bit_and, testb-pow}
use phytium_sdk.Bits.Complement.{testb-complement}
use phytium_sdk.Xmac.Media.{clear}
use phytium_sdk.Xmac.Tx.Ring.{has}
use phytium_sdk.Xmac.Tx.Words.{has-pow}
use phytium_sdk.Xmac.If.Driver.{Driver, IfReg, nwcfg, hashl, hashh, write_reg, set_net_cfg}
use phytium_sdk.Xmac.If.Filter.{Hashes, filter_cfg, rx_filter}
use phytium_sdk.Xmac.If.Hashes.{any_hash, hash_bit, hash_bit-zero, hashes_for-hash_bit}

-- The bits of the network configuration, as the manual of the controller has them.
pub record IsFilterLayout (reg : IfReg) : Type 0 where
  pub copyallen_bit : reg.nwcfg_copyallen ≡ 2 ^ 4
  pub bcastdi_bit : reg.nwcfg_bcastdi ≡ 2 ^ 5
  pub mcasthashen_bit : reg.nwcfg_mcasthashen ≡ 2 ^ 6

-- the controller takes a multicast packet whose destination has the hash `k`
unfoldable pub passes : IfReg → ℕ → Hashes → ℕ → Bool
unfolding has hash_bit
passes reg cfg hs k =
    has cfg reg.nwcfg_copyallen || (has cfg reg.nwcfg_mcasthashen && hash_bit hs k)

pub has-mask : (x : ℕ) {m : ℕ} (k : ℕ) → m ≡ 2 ^ k → has x m ≡ testb x k
has-mask x k e = ap (has x) e ∙ has-pow x k

testb-clear :
    (x i : ℕ)
    → i < 32
    → testb (clear x (bit_or (bit_or (2 ^ 6) (2 ^ 5)) (2 ^ 4))) i
      ≡ (testb x i && not ((6 == i) || (5 == i) || (4 == i)))
unfolding clear
testb-clear x i small = ground (
  arith,
  testb-bit_and x (2 ^ 32 - 1 - 112) i,
  testb-complement 32 112 i (omega arith),
  testb-bit_or (2 ^ 6 + 2 ^ 5) (2 ^ 4) i,
  testb-bit_or (2 ^ 6) (2 ^ 5) i,
  testb-pow 6 i,
  testb-pow 5 i,
  testb-pow 4 i,
)

testb-choice :
    (p b nz : Bool) (bare i : ℕ)
    → testb
        (if p
          then bit_or bare (2 ^ 4)
          else let with_broadcast = if not b then bit_or bare (2 ^ 5) else bare in
            if nz then bit_or with_broadcast (2 ^ 6) else with_broadcast)
        i
      ≡ (testb bare i
          || (p && (4 == i))
          || (not p && not b && (5 == i))
          || (not p && nz && (6 == i)))
testb-choice true b nz bare i = ground (arith, testb-bit_or bare (2 ^ 4) i, testb-pow 4 i)
testb-choice false true true bare i = ground (arith, testb-bit_or bare (2 ^ 6) i, testb-pow 6 i)
testb-choice false true false bare i = ground arith
testb-choice false false true bare i = ground (
  arith,
  testb-bit_or (bit_or bare (2 ^ 5)) (2 ^ 6) i,
  testb-bit_or bare (2 ^ 5) i,
  testb-pow 5 i,
  testb-pow 6 i,
)
testb-choice false false false bare i = ground (arith, testb-bit_or bare (2 ^ 5) i, testb-pow 5 i)

-- the bits that the filter sets, `nz` when a hash register is not zero
abbrev pub filter_bits : Bool → Bool → Bool → ℕ → ℕ → Bool
filter_bits p b nz cfg i =
    (testb cfg i && not ((6 == i) || (5 == i) || (4 == i)))
    || (p && (4 == i))
    || (not p && not b && (5 == i))
    || (not p && nz && (6 == i))

pass_bits :
    (p b a m : Bool) (cfg : ℕ) (hs : Hashes) (k : ℕ)
    → hash_bit hs k ≡ (not p && (a || m))
    → (filter_bits p b (not (hs.high == 0) || not (hs.low == 0)) cfg 4
        || (filter_bits p b (not (hs.high == 0) || not (hs.low == 0)) cfg 6 && hash_bit hs k))
      ≡ (p || a || m)
pass_bits true b a m cfg hs k same = ground arith
pass_bits false b true m cfg hs k same = ground (arith, same, hash_bit-zero hs k)
pass_bits false b false true cfg hs k same = ground (arith, same, hash_bit-zero hs k)
pass_bits false b false false cfg hs k same = ground (arith, same)

broadcast_bit : (p b nz : Bool) (cfg : ℕ) → filter_bits p b nz cfg 5 ≡ (not p && not b)
broadcast_bit p b nz cfg = ground arith

other_bit :
    (p b nz : Bool) (cfg i : ℕ) → i ≢ 4 → i ≢ 5 → i ≢ 6 → filter_bits p b nz cfg i ≡ testb cfg i
other_bit p b nz cfg i x y z = ground arith

-- what `rx_filter` made of the driver `d`: the driver `t`, and `hs` in the hash registers
pub record IsFiltered (reg : IfReg) (d t : Driver) (hs : Hashes) : Type 0 where
  pub written : t.regs ≡ (nwcfg, t.rx.net_cfg_shadow) ∷ (hashl, hs.low) ∷ (hashh, hs.high) ∷ d.regs
  pub accepted :
      (k : ℕ)
      → k < 64
      → passes reg t.rx.net_cfg_shadow hs k
        ≡ (d.flags.promisc || d.flags.allmulti || any_hash d.multicast k)
  pub no_broadcast :
      has t.rx.net_cfg_shadow reg.nwcfg_bcastdi ≡ (not d.flags.promisc && not d.flags.broadcast)
  pub others_kept :
      (i : ℕ)
      → i < 32
      → i ≢ 4
      → i ≢ 5
      → i ≢ 6
      → testb t.rx.net_cfg_shadow i ≡ testb d.rx.net_cfg_shadow i

module _ (reg : IfReg) (l : IsFilterLayout reg) where
  testb-filter_cfg :
      (d : Driver) (hs : Hashes) (i : ℕ)
      → i < 32
      → testb (filter_cfg reg d hs) i
        ≡ filter_bits d.flags.promisc d.flags.broadcast
            (not (hs.high == 0) || not (hs.low == 0))
            d.rx.net_cfg_shadow
            i
  unfolding filter_cfg
  testb-filter_cfg d hs i small =
      rw (l.copyallen_bit, l.bcastdi_bit, l.mcasthashen_bit)
        (testb-choice d.flags.promisc d.flags.broadcast (not (hs.high == 0) || not (hs.low == 0))
            (clear d.rx.net_cfg_shadow (bit_or (bit_or (2 ^ 6) (2 ^ 5)) (2 ^ 4))) i
          ∙ ap
              (λ c.
                c
                || (d.flags.promisc && (4 == i))
                || (not d.flags.promisc && not d.flags.broadcast && (5 == i))
                || (not d.flags.promisc && (not (hs.high == 0) || not (hs.low == 0)) && (6 == i)))
              (testb-clear d.rx.net_cfg_shadow i small))

  filter_cfg-passes :
      (d : Driver) (hs : Hashes) (k : ℕ)
      → hash_bit hs k ≡ (not d.flags.promisc && (d.flags.allmulti || any_hash d.multicast k))
      → passes reg (filter_cfg reg d hs) hs k
        ≡ (d.flags.promisc || d.flags.allmulti || any_hash d.multicast k)
  unfolding passes
  filter_cfg-passes d hs k same =
      ap (λ b. b || (has (filter_cfg reg d hs) reg.nwcfg_mcasthashen && hash_bit hs k))
        (has-mask (filter_cfg reg d hs) 4 l.copyallen_bit ∙ testb-filter_cfg d hs 4 (omega arith))
      ∙ ap
          (λ b.
            filter_bits d.flags.promisc d.flags.broadcast (not (hs.high == 0) || not (hs.low == 0))
              d.rx.net_cfg_shadow 4
            || (b && hash_bit hs k))
          (has-mask (filter_cfg reg d hs) 6 l.mcasthashen_bit
            ∙ testb-filter_cfg d hs 6 (omega arith))
      ∙ pass_bits d.flags.promisc d.flags.broadcast d.flags.allmulti (any_hash d.multicast k)
          d.rx.net_cfg_shadow hs k same

  -- The receive filter returns. Afterwards the controller takes the multicast packets with a hash
  -- exactly when the interface is promiscuous, takes all of them, or has joined an address with that
  -- hash; it drops broadcasts exactly when the interface is neither promiscuous nor takes broadcasts;
  -- the other bits of the network configuration are as they were, and all three registers are
  -- written. The three masks are those of the manual.
  pub rx_filter-IsFiltered :
      (d : Driver)
      → (t : Driver) × (rx_filter reg d ≡ returns t) × ((hs : Hashes) × IsFiltered reg d t hs)
  unfolding rx_filter write_reg set_net_cfg
  rx_filter-IsFiltered d =
      let (hs, e, bits) = hashes_for-hash_bit d in
      (
        _,
        ap
            (λ o. o >>= λ hs.
              let cfg = filter_cfg reg d hs in
              returns (
                write_reg nwcfg cfg
                  (write_reg hashl hs.low (write_reg hashh hs.high (set_net_cfg cfg d)))))
            e,
        (
          hs,
          record {
            written = refl;
            accepted = λ k small. filter_cfg-passes d hs k (bits k small);
            no_broadcast =
                has-mask (filter_cfg reg d hs) 5 l.bcastdi_bit
                ∙ testb-filter_cfg d hs 5 (omega arith)
                ∙ broadcast_bit d.flags.promisc d.flags.broadcast _ d.rx.net_cfg_shadow;
            others_kept = λ i small a b c.
                testb-filter_cfg d hs i small
                ∙ other_bit d.flags.promisc d.flags.broadcast _ d.rx.net_cfg_shadow i a b c;
          },
        ),
      )
