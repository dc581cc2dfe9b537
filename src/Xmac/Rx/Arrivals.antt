-- ===== src/Xmac/Rx/Arrivals.antt =====
-- What draining the receive ring is to hand on, apart from the loop.
use phytium_sdk.Prelude.{
  ℕ, zero, suc, ◌+◌, ◌%◌, ◌≤◌, ◌<◌, ◌≡◌, ◌≢◌, refl, ap, ◌∙◌, subst, sym, ◌-◌, Bool, List, [], ◌∷◌,
  ◌++◌, Option, none, some, update, arith, if◌then◌else◌,
}
use phytium_sdk.Xmac.Softc.{XmacSoftc, RxDesc, Mbuf, Packet, XmacReg}
use phytium_sdk.Xmac.Rx.{is_whole, packet_of, advance, next_index}
use phytium_sdk.Xmac.Rx.Ring.{IsRing, next_index-mod}

-- the packet of a slot, if it is whole
unfoldable pub packets_at : XmacReg → Bool → RxDesc → Option Mbuf → List Packet
packets_at reg rxcsum d none = []
packets_at reg rxcsum d (some m) =
    if is_whole reg d.ctl then packet_of reg rxcsum d.ctl m ∷ [] else []

-- the whole packets among `n` slots from the index `i` on, in their order
unfoldable pub arrivals : XmacReg → Bool → (ℕ → RxDesc) → (ℕ → Option Mbuf) → ℕ → ℕ → List Packet
arrivals reg rxcsum ring ms i zero = []
arrivals reg rxcsum ring ms i (suc n) =
    packets_at reg rxcsum (ring (i % 512)) (ms (i % 512)) ++ arrivals reg rxcsum ring ms (suc i) n

module _ (reg : XmacReg) (b : Bool) (ring : ℕ → RxDesc) where
  -- a slot before those that are read does not matter
  pub arrivals-update :
      (ms : ℕ → Option Mbuf) (k c n : ℕ)
      → k < 512
      → 0 < c
      → c + n ≤ 512
      → arrivals reg b ring (update ms k none) (k + c) n ≡ arrivals reg b ring ms (k + c) n
  unfolding arrivals
  arrivals-update ms k c zero small later fits = refl
  arrivals-update ms k c (suc n) small later fits =
      let other : (k + c) % 512 ≢ k = omega arith in
      let same : update ms k none ((k + c) % 512) ≡ ms ((k + c) % 512) = ground (arith, other) in
      let next : k + suc c ≡ suc (k + c) = omega arith in
      let rest : arrivals reg b ring (update ms k none) (suc (k + c)) n
          ≡ arrivals reg b ring ms (suc (k + c)) n =
        subst (λ x. arrivals reg b ring (update ms k none) x n ≡ arrivals reg b ring ms x n) next
          (arrivals-update ms k (suc c) n small (omega arith) (omega arith)) in
      ap
        (λ o.
          packets_at reg b (ring ((k + c) % 512)) o
          ++ arrivals reg b ring (update ms k none) (suc (k + c)) n)
        same
      ∙ ap (λ x. packets_at reg b (ring ((k + c) % 512)) (ms ((k + c) % 512)) ++ x) rest

  pub arrivals-mod :
      (ms : ℕ → Option Mbuf) (i j n : ℕ)
      → i % 512 ≡ j % 512
      → arrivals reg b ring ms i n ≡ arrivals reg b ring ms j n
  unfolding arrivals
  arrivals-mod ms i j zero e = refl
  arrivals-mod ms i j (suc n) e =
      ap (λ k. packets_at reg b (ring k) (ms k) ++ arrivals reg b ring ms (suc i) n) e
      ∙ ap (λ x. packets_at reg b (ring (j % 512)) (ms (j % 512)) ++ x)
          (arrivals-mod ms (suc i) (suc j) n (omega arith))

-- the slots of the ring from the tail on, of which `left` are not taken
abbrev pub arrivals_of : XmacReg → XmacSoftc → ℕ → List Packet
arrivals_of reg s left =
    arrivals reg s.rxcsum s.rxring s.rxring_m s.rxring_tl_ptr (s.rxring_queued - left)

pub arrivals_of-advance :
    (reg : XmacReg) (s : XmacSoftc) (left : ℕ) {ps : List Packet}
    → IsRing s
    → 0 < s.rxring_queued
    → left ≤ s.rxring_queued - 1
    → packets_at reg s.rxcsum (s.rxring s.rxring_tl_ptr) (s.rxring_m s.rxring_tl_ptr) ≡ ps
    → arrivals_of reg s left ≡ ps ++ arrivals_of reg (advance s) left
unfolding arrivals advance
arrivals_of-advance reg s left {ps} f queued fewer first =
    let n = s.rxring_queued - 1 - left in
    let count : s.rxring_queued - left ≡ suc n = omega arith in
    let tail : s.rxring_tl_ptr % 512 ≡ s.rxring_tl_ptr = omega (arith, f.tail) in
    let next : suc s.rxring_tl_ptr ≡ s.rxring_tl_ptr + 1 = omega arith in
    let rest : arrivals reg s.rxcsum s.rxring s.rxring_m (s.rxring_tl_ptr + 1) n
        ≡ arrivals_of reg (advance s) left =
      sym (
        arrivals-mod reg s.rxcsum s.rxring (update s.rxring_m s.rxring_tl_ptr none)
          (next_index s.rxring_tl_ptr) (s.rxring_tl_ptr + 1) n
          (omega (arith, next_index-mod s.rxring_tl_ptr f.tail))
        ∙ arrivals-update reg s.rxcsum s.rxring s.rxring_m s.rxring_tl_ptr 1 n f.tail (omega arith)
            (omega (arith, f.fits))) in
    ap (arrivals reg s.rxcsum s.rxring s.rxring_m s.rxring_tl_ptr) count
    ∙ ap
        (λ k.
          packets_at reg s.rxcsum (s.rxring k) (s.rxring_m k)
          ++ arrivals reg s.rxcsum s.rxring s.rxring_m (suc s.rxring_tl_ptr) n)
        tail
    ∙ ap (λ x. x ++ arrivals reg s.rxcsum s.rxring s.rxring_m (suc s.rxring_tl_ptr) n) first
    ∙ ap (λ k. ps ++ arrivals reg s.rxcsum s.rxring s.rxring_m k n) next
    ∙ ap (λ x. ps ++ x) rest
