-- ===== src/Xmac/Tx/Queue.antt =====
-- The transmit ring as a queue: the packets in flight, each with its number of descriptors.
use phytium_sdk.Prelude.{
  ℕ, suc, ◌+◌, ◌≤◌, ◌<◌, ◌≡◌, ◌⊎◌, inl, inr, true, false, List, [], ◌∷◌, ◌++◌, subst, Option, some,
  leb, ◌==◌, if◌then◌else◌, arith, Bool-cases,
}
use phytium_sdk.Xmac.Tx.Ring.{TxDesc, TxSide, TxReg, has}

pub record InFlight : Type 0 where
  pub packet : ℕ
  pub descs : ℕ

-- the index after a packet of `n` descriptors at `i`: the ring wraps early, so that no packet wraps
abbrev pub after : ℕ → ℕ → ℕ
after i n = if leb 504 (i + n) then 0 else i + n

-- the descriptors in flight
abbrev pub total : List InFlight → ℕ
total [] = 0
total (f ∷ q) = f.descs + total q

-- the index after the queue at `i`
abbrev pub past : ℕ → List InFlight → ℕ
past i [] = i
past i (f ∷ q) = past (after i f.descs) q

-- `p` is no descriptor of the queue `q` at `i`
abbrev pub IsIdle : ℕ → ℕ → List InFlight → Type 0
IsIdle p i [] = Unit {0}
IsIdle p i (f ∷ q) = ((p < i) ⊎ (i + f.descs ≤ p)) × IsIdle p (after i f.descs) q

-- A queue of less than a lap leaves alone what is behind it.
pub behind-IsIdle :
    (p i : ℕ) (q : List InFlight)
    → ((p < i) × (i + total q ≤ 504 + p)) ⊎ ((i ≤ p) × (i + total q ≤ p))
    → IsIdle p i q
behind-IsIdle p i [] away = tt
behind-IsIdle p i (f ∷ q) away = (
  ground arith,
  behind-IsIdle p (after i f.descs) q (elim (Bool-cases (leb 504 (i + f.descs))) [
    | inl wrapped ↦ inr (ground arith)
    | inr straight ↦ elim away [ inl a ↦ inl (ground arith) | inr b ↦ inr (ground arith) ]
  ]),
)

module _ (reg : TxReg) where
  -- The descriptors of a packet: the last one alone is marked as such, and it wraps exactly when the
  -- next packet could reach the end of the ring.
  pub record HasDescs (ring : ℕ → TxDesc) (i n : ℕ) : Type 0 where
    pub some_descs : 0 < n
    pub few : n ≤ 8
    pub inside : i < 504
    pub marked : (k : ℕ) → k < n → has (ring (i + k)).ctl reg.txbuf_last ≡ (suc k == n)
    pub wraps :
        (k : ℕ)
        → k < n
        → has (ring (i + k)).ctl reg.txbuf_wrap ≡ (if suc k == n then leb 504 (i + n) else false)

  -- a descriptor that is marked as used: the device stops there
  abbrev pub IsUsed : (ℕ → TxDesc) → ℕ → Type 0
  IsUsed ring p = has (ring p).ctl reg.txbuf_used ≡ true

  -- the queue `q` stands in the ring from `i` to `h`
  abbrev pub Holds : (ℕ → TxDesc) → (ℕ → Option ℕ) → ℕ → List InFlight → ℕ → Type 0
  Holds ring ms i [] h = i ≡ h
  Holds ring ms i (f ∷ q) h =
      (ms i ≡ some f.packet) × HasDescs ring i f.descs × Holds ring ms (after i f.descs) q h

  -- where a queue of less than a lap ends
  pub Holds-end :
      (ring : ℕ → TxDesc) (ms : ℕ → Option ℕ) (i : ℕ) (q : List InFlight) (h : ℕ)
      → total q < 504
      → Holds ring ms i q h
      → (h ≡ i + total q) ⊎ ((e : ℕ) × (504 ≤ e) × (e ≤ 511) × (i < e) × (i + total q ≡ e + h))
  Holds-end ring ms i [] h small r = inl (omega arith)
  Holds-end ring ms i (f ∷ q) h small (at, d, r) = elim (Bool-cases (leb 504 (i + f.descs))) [
    | inl wrapped ↦
        let e : after i f.descs ≡ 0 = ground arith in
        let rest = Holds-end ring ms 0 q h (omega arith) (rw e at r) in
        elim rest [
          | inl straight ↦ inr (
            i + f.descs,
            ground arith,
            omega (arith, d.few, d.inside),
            omega (arith, d.some_descs),
            omega arith,
          )
          | inr (e', lo, hi, pos, sum) ↦ absurd (omega arith)
        ]
    | inr straight ↦
        let e : after i f.descs ≡ i + f.descs = ground arith in
        elim (Holds-end ring ms (i + f.descs) q h (omega arith) (rw e at r)) [
          | inl straight' ↦ inl (omega arith)
          | inr (e', lo, hi, pos, sum) ↦ inr (e', lo, hi, omega arith, omega arith)
        ]
  ]

  -- The room that `start_locked` keeps: the eight descriptors at the head are idle, with the ones
  -- that a packet may take.
  pub Holds-IsIdle :
      (ring : ℕ → TxDesc) (ms : ℕ → Option ℕ) (i : ℕ) (q : List InFlight) (h p : ℕ)
      → total q < 496
      → Holds ring ms i q h
      → h ≤ p
      → p < h + 8
      → IsIdle p i q
  Holds-IsIdle ring ms i [] h p small r lo hi = tt
  Holds-IsIdle ring ms i (f ∷ q) h p small (at, d, r) lo hi = (
    elim (Holds-end ring ms i (f ∷ q) h (omega arith) (at, d, r)) [
      | inl straight ↦ inr (omega arith)
      | inr (e, near, end, pos, sum) ↦ inl (omega arith)
    ],
    Holds-IsIdle ring ms (after i f.descs) q h p (omega arith) r lo hi,
  )

  -- The head stays away from the end of the ring.
  pub Holds-head :
      (ring : ℕ → TxDesc) (ms : ℕ → Option ℕ) (i : ℕ) (q : List InFlight) (h : ℕ)
      → i < 504
      → Holds ring ms i q h
      → h < 504
  Holds-head ring ms i [] h small r = omega arith
  Holds-head ring ms i (f ∷ q) h small (at, d, r) =
      Holds-head ring ms (after i f.descs) q h (ground arith) r

  -- The transmit ring holds the queue `q`, and the device stops at every descriptor outside it.
  pub record IsTxRing (q : List InFlight) (s : TxSide) : Type 0 where
    pub holds : Holds s.txring s.txring_m s.tl_ptr q s.hd_ptr
    pub counted : s.queued ≡ total q
    pub room : total q < 504
    pub tail : s.tl_ptr < 504
    pub idle_used : (p : ℕ) → p < 512 → IsIdle p s.tl_ptr q → IsUsed s.txring p

  -- the device has sent each packet of the queue at `i`: it marks the first descriptor of each
  abbrev pub AreSent : (ℕ → TxDesc) → ℕ → List InFlight → Type 0
  AreSent ring i [] = Unit {0}
  AreSent ring i (f ∷ q) = IsUsed ring i × AreSent ring (after i f.descs) q

  -- Descriptors that were marked as used in the meantime, beside the queue, are no report of its packets.
  pub AreSent-back :
      (ring later marks : ℕ → TxDesc) (ms : ℕ → Option ℕ) (i : ℕ) (done rest : List InFlight)
      (h : ℕ)
      → Holds marks ms i (done ++ rest) h
      → ((p : ℕ) → IsUsed later p → IsUsed ring p ⊎ IsIdle p i (done ++ rest))
      → AreSent later i done
      → AreSent ring i done
  AreSent-back ring later marks ms i [] rest h r back sent = tt
  AreSent-back ring later marks ms i (f ∷ done) rest h (at, d, r) back (first, sent) = (
    elim (back i first) [
      | inl used ↦ used
      | inr (away, _) ↦ absurd (ground (arith, away, d.some_descs))
    ],
    AreSent-back ring later marks ms (after i f.descs) done rest h r
        (λ p v. elim (back p v) [ inl used ↦ inl used | inr (_, idle) ↦ inr idle ]) sent,
  )

  pub AreSent-append :
      (ring : ℕ → TxDesc) (i : ℕ) (q r : List InFlight)
      → AreSent ring i q
      → AreSent ring (past i q) r
      → AreSent ring i (q ++ r)
  AreSent-append ring i [] r a b = b
  AreSent-append ring i (f ∷ q) r (first, a) b =
      (first, AreSent-append ring (after i f.descs) q r a b)

  -- the packet after the queue
  pub AreSent-last :
      (ring marks : ℕ → TxDesc) (ms : ℕ → Option ℕ) (i : ℕ) (q : List InFlight) (f : InFlight)
      (h : ℕ)
      → Holds marks ms i q h
      → AreSent ring i (q ++ (f ∷ []))
      → IsUsed ring h
  AreSent-last ring marks ms i [] f h r (used, _) = subst (IsUsed ring) r used
  AreSent-last ring marks ms i (g ∷ q) f h (at, d, r) (_, sent) =
      AreSent-last ring marks ms (after i g.descs) q f h r sent

  pub AreSent-mono :
      (ring later : ℕ → TxDesc) (i : ℕ) (q : List InFlight)
      → ((p : ℕ) → IsUsed ring p → IsUsed later p)
      → AreSent ring i q
      → AreSent later i q
  AreSent-mono ring later i [] keeps sent = tt
  AreSent-mono ring later i (f ∷ q) keeps (first, sent) =
      (keeps i first, AreSent-mono ring later (after i f.descs) q keeps sent)
