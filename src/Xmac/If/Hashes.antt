-- ===== src/Xmac/If/Hashes.antt =====
-- What the hash registers hold for a list of addresses.
use phytium_sdk.Prelude.{
  ℕ, ◌-◌, ◌^◌, ◌<◌, bit_or, ltb, ◌==◌, ◌≡◌, refl, Bool, true, false, not, ◌&&◌, ◌||◌, List, [], ◌∷◌,
  if◌then◌else◌, returns, result_of, ◌>>=◌, arith, ap, sym, ◌∙◌,
}
use phytium_sdk.Bits.{testb}
use phytium_sdk.Bits.Laws.{testb-bit_or, testb-pow, testb-zero}
use phytium_sdk.Bits.Complement.{testb-complement}
use phytium_sdk.Xmac.If.Hash.{mac_hash, mac_hash-bits}
use phytium_sdk.Xmac.If.Driver.{Driver}
use phytium_sdk.Xmac.If.Filter.{Hashes, hash_maddr, hash_all, hashes_for}

-- the hash of an address as a number
abbrev pub hash_value : (ℕ → ℕ) → ℕ
hash_value e = result_of 0 (mac_hash e)

-- an address of the list has the hash `k`
unfoldable pub any_hash : List (ℕ → ℕ) → ℕ → Bool
any_hash [] k = false
any_hash (e ∷ es) k = (hash_value e == k) || any_hash es k

-- the bit of the hash registers for the hash `k`
unfoldable pub hash_bit : Hashes → ℕ → Bool
hash_bit hs k = if ltb 31 k then testb hs.high (k - 32) else testb hs.low k

mac_hash-returns : (e : ℕ → ℕ) → mac_hash e ≡ returns (hash_value e)
mac_hash-returns e =
    let (h, r, _, _) = mac_hash-bits e in r ∙ ap (λ o. returns (result_of 0 o)) (sym r)

hash_value_bound : (e : ℕ → ℕ) → hash_value e < 64
hash_value_bound e =
    let (h, r, small, _) = mac_hash-bits e in
    let same : hash_value e ≡ h = ap (result_of 0) r in omega arith

set_bit : ℕ → Hashes → Hashes
set_bit index hs =
    if ltb 31 index
    then record hs { high = bit_or hs.high (2 ^ (index - 32)) }
    else record hs { low = bit_or hs.low (2 ^ index) }

hash_bit-set_bit :
    (index k : ℕ) (hs : Hashes)
    → index < 64
    → k < 64
    → hash_bit (set_bit index hs) k ≡ (hash_bit hs k || (index == k))
unfolding hash_bit set_bit
hash_bit-set_bit index k hs si sk = ground (
  arith,
  testb-bit_or hs.high (2 ^ (index - 32)) (k - 32),
  testb-pow (index - 32) (k - 32),
  testb-bit_or hs.low (2 ^ index) k,
  testb-pow index k,
)

hash_maddr_lem : (e : ℕ → ℕ) (hs : Hashes) → hash_maddr e hs ≡ returns (set_bit (hash_value e) hs)
unfolding hash_maddr set_bit
hash_maddr_lem e hs = ap (λ o. o >>= λ index. returns (set_bit index hs)) (mac_hash-returns e)

hash_all-hash_bit :
    (es : List (ℕ → ℕ)) (hs : Hashes)
    → (t : Hashes) × (hash_all es hs ≡ returns t)
      × ((k : ℕ) → k < 64 → hash_bit t k ≡ (hash_bit hs k || any_hash es k))
unfolding hash_all any_hash
hash_all-hash_bit [] hs = (hs, refl, λ k small. or_false (hash_bit hs k))
  where
    or_false : (b : Bool) → b ≡ (b || false)
    or_false true = refl
    or_false false = refl
hash_all-hash_bit (e ∷ es) hs =
    let (t, r, bits) = hash_all-hash_bit es (set_bit (hash_value e) hs) in
    (
      t,
      ap (λ o. o >>= hash_all es) (hash_maddr_lem e hs) ∙ r,
      λ k small.
          bits k small
          ∙ ap (λ b. b || any_hash es k)
              (hash_bit-set_bit (hash_value e) k hs (hash_value_bound e) small)
          ∙ or_assoc (hash_bit hs k) (hash_value e == k) (any_hash es k),
    )
  where
    or_assoc : (a b c : Bool) → ((a || b) || c) ≡ (a || (b || c))
    or_assoc true b c = refl
    or_assoc false b c = refl

-- a bit of the hash registers is on, so one of them is not zero
pub hash_bit-zero : (hs : Hashes) (k : ℕ) → hs.high ≡ 0 → hs.low ≡ 0 → hash_bit hs k ≡ false
unfolding hash_bit
hash_bit-zero hs k h l = ground (arith, h, l, testb-zero (k - 32), testb-zero k)

abbrev none_on : Hashes
none_on = record { high = 0; low = 0 }

-- all bits of the all-ones register are on
ones_bit : (k : ℕ) → k < 64 → hash_bit (record { high = 2 ^ 32 - 1; low = 2 ^ 32 - 1 }) k ≡ true
unfolding hash_bit
ones_bit k small = ground (
  arith,
  testb-complement 32 0 k (omega arith),
  testb-complement 32 0 (k - 32) (omega arith),
  testb-zero k,
  testb-zero (k - 32),
)

-- the choice of `hashes_for`
pub chosen-hash_bit :
    (p a : Bool) (es : List (ℕ → ℕ))
    → (hs : Hashes) × ((if p
          then returns (record { high = 0; low = 0 })
          else if a
          then returns (record { high = 2 ^ 32 - 1; low = 2 ^ 32 - 1 })
          else hash_all es (record { high = 0; low = 0 }))
        ≡ returns hs)
      × ((k : ℕ) → k < 64 → hash_bit hs k ≡ (not p && (a || any_hash es k)))
chosen-hash_bit true a es = (none_on, refl, λ k small. hash_bit-zero none_on k refl refl)
chosen-hash_bit false true es = (record { high = 2 ^ 32 - 1; low = 2 ^ 32 - 1 }, refl, ones_bit)
chosen-hash_bit false false es =
    let (t, e, bits) = hash_all-hash_bit es none_on in
    (
      t,
      e,
      λ k small. bits k small ∙ ap (λ b. b || any_hash es k) (hash_bit-zero none_on k refl refl),
    )

pub hashes_for-hash_bit :
    (d : Driver)
    → (hs : Hashes) × (hashes_for d ≡ returns hs)
      × ((k : ℕ)
          → k < 64
          → hash_bit hs k ≡ (not d.flags.promisc && (d.flags.allmulti || any_hash d.multicast k)))
unfolding hashes_for
hashes_for-hash_bit d = chosen-hash_bit d.flags.promisc d.flags.allmulti d.multicast
