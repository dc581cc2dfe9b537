-- ===== src/Xmac/If/Filter.antt =====
-- drivers/fxmac/phytium_xmac.c: `phytium_xmac_rx_filter`, which packets the controller accepts.
use phytium_sdk.Prelude.{
  ℕ, ◌-◌, ◌^◌, bit_or, ltb, ◌==◌, not, ◌||◌, List, [], ◌∷◌, if◌then◌else◌, Outcome, returns, ◌>>=◌,
}
use phytium_sdk.Xmac.Media.{clear}
use phytium_sdk.Xmac.If.Hash.{mac_hash}
use phytium_sdk.Xmac.If.Driver.{Driver, IfReg, nwcfg, hashl, hashh, write_reg, set_net_cfg}

-- `uint32_t hashes[2]`
pub record Hashes : Type 0 where
  pub high : ℕ
  pub low : ℕ

-- one address of the list
unfoldable pub hash_maddr : (ℕ → ℕ) → Hashes → Outcome Hashes
unfolding mac_hash
hash_maddr eaddr hs = mac_hash eaddr >>= λ index. returns (
    if ltb 31 index
    then record hs { high = bit_or hs.high (2 ^ (index - 32)) }
    else record hs { low = bit_or hs.low (2 ^ index) })

-- the addresses in the order in which `if_foreach_llmaddr` visits them
unfoldable pub hash_all : List (ℕ → ℕ) → Hashes → Outcome Hashes
unfolding hash_maddr
hash_all [] hs = returns hs
hash_all (e ∷ es) hs = hash_maddr e hs >>= hash_all es

-- the hash registers for the flags and the addresses
unfoldable pub hashes_for : Driver → Outcome Hashes
unfolding hash_all
hashes_for d =
    if d.flags.promisc
    then returns (record { high = 0; low = 0 })
    else if d.flags.allmulti
    then returns (record { high = 2 ^ 32 - 1; low = 2 ^ 32 - 1 })
    else hash_all d.multicast (record { high = 0; low = 0 })

module _ (reg : IfReg) where
  -- `net_cfg_shadow` for the flags and the hash registers
  unfoldable pub filter_cfg : Driver → Hashes → ℕ
  unfolding clear
  filter_cfg d hs =
      let bare =
        clear d.rx.net_cfg_shadow
          (bit_or (bit_or reg.nwcfg_mcasthashen reg.nwcfg_bcastdi) reg.nwcfg_copyallen) in
      if d.flags.promisc
      then bit_or bare reg.nwcfg_copyallen
      else let with_broadcast =
          if not d.flags.broadcast then bit_or bare reg.nwcfg_bcastdi else bare in
        if not (hs.high == 0) || not (hs.low == 0)
        then bit_or with_broadcast reg.nwcfg_mcasthashen
        else with_broadcast

  unfoldable pub rx_filter : Driver → Outcome Driver
  unfolding hashes_for filter_cfg write_reg set_net_cfg
  rx_filter d = hashes_for d >>= λ hs.
      let cfg = filter_cfg d hs in
      returns
        (write_reg nwcfg cfg (write_reg hashl hs.low (write_reg hashh hs.high (set_net_cfg cfg d))))
