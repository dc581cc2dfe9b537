-- ===== src/Xmac/Tx/Clean.antt =====
-- Taking one packet that the device has sent off the transmit ring.
use phytium_sdk.Prelude.{
  ℕ, suc, ◌+◌, ◌&&◌, update-ne, ◌≤◌, ◌<◌, ◌≡◌, ◌⊎◌, inl, inr, refl, sym, ap, subst, ◌∙◌, true,
  false, List, [], ◌∷◌, ◌++◌, some, none, leb, ltb, ◌==◌, update, arith, Bool-cases, returns,
  length,
}
use phytium_sdk.Xmac.Tx.Ring.{TxSide, TxReg, has, step_tail, retire, skip_loop, clean_one}
use phytium_sdk.Xmac.Tx.Words.{IsTxLayout}
use phytium_sdk.Xmac.Tx.Queue.{
  InFlight, IsUsed, after, total, IsIdle, HasDescs, Holds, IsTxRing, behind-IsIdle,
}
use phytium_sdk.Xmac.Tx.Keep.{Holds-SameMarks}
use phytium_sdk.Xmac.Tx.Skip.{IsSkipped, skip_loop-IsSkipped, step_tail-fields}

-- the packets, the last first
abbrev pub retired : List InFlight → List ℕ
retired [] = []
retired (f ∷ q) = retired q ++ (f.packet ∷ [])

-- what cleaning may change, when it frees the packets `fs`
pub record IsCleaned (fs : List ℕ) (s t : TxSide) : Type 0 where
  pub frees : t.freed ≡ fs ++ s.freed
  pub counts : t.oerrors + t.opackets ≤ s.oerrors + s.opackets + length fs
  pub counts_up : s.oerrors + s.opackets ≤ t.oerrors + t.opackets
  pub same_head : t.hd_ptr ≡ s.hd_ptr
  pub same_sendq : t.sendq ≡ s.sendq
  pub same_tapped : t.tapped ≡ s.tapped
  pub same_kicks : t.kicks ≡ s.kicks

-- what `retire` leaves alone
record IsRetired (m : ℕ) (s t : TxSide) : Type 0 where
  pub same_ring : t.txring ≡ s.txring
  pub packet_gone : t.txring_m ≡ update s.txring_m s.tl_ptr none
  pub same_tail : t.tl_ptr ≡ s.tl_ptr
  pub same_queued : t.queued ≡ s.queued
  pub cleaned : IsCleaned (m ∷ []) s t

module _ (reg : TxReg) where
  retire-IsRetired :
      (m : ℕ) (s : TxSide) → s.txring_m s.tl_ptr ≡ some m → IsRetired m s (retire reg s)
  unfolding retire
  retire-IsRetired m s at = record {
    same_ring = ground arith;
    packet_gone = ground arith;
    same_tail = ground arith;
    same_queued = ground arith;
    cleaned = record {
      frees = ground arith;
      counts = ground arith;
      counts_up = ground arith;
      same_head = ground arith;
      same_sendq = ground arith;
      same_tapped = ground arith;
      same_kicks = ground arith;
    };
  }

  -- the first packet of the queue
  module _ (f : InFlight) (q : List InFlight) (s : TxSide) (r : IsTxRing reg (f ∷ q) s) where
    first-IsIdle :
        (p : ℕ) → s.tl_ptr ≤ p → p < s.tl_ptr + f.descs → IsIdle p (after s.tl_ptr f.descs) q
    first-IsIdle p lo hi =
        behind-IsIdle p (after s.tl_ptr f.descs) q
          (elim (Bool-cases (leb 504 (s.tl_ptr + f.descs))) [
            | inl wrapped ↦ inr (ground (arith, r.room))
            | inr straight ↦ inl (ground (arith, r.room))
          ])

    retired_skip :
        IsTxLayout reg
        → (o : ℕ × TxSide) × (skip_loop reg (suc s.queued) (s.txring s.tl_ptr).ctl (retire reg s)
            ≡ returns o)
          × IsSkipped reg (retire reg s) s.tl_ptr f.descs 0 o
    retired_skip l =
        let (at, d, _) = r.holds in
        let u = retire reg s in
        let e = retire-IsRetired f.packet s at in
        let first : s.tl_ptr ≡ s.tl_ptr + 0 = omega arith in
        skip_loop-IsSkipped reg l (suc s.queued) (s.txring s.tl_ptr).ctl s.tl_ptr f.descs 0 u
          (subst (λ x. HasDescs reg x s.tl_ptr f.descs) (sym e.same_ring) d) d.some_descs
          (omega (arith, r.counted)) (e.same_tail ∙ first) (omega (arith, r.counted, e.same_queued))
          (omega (arith, r.counted, r.room, e.same_queued))
          (ap (λ x. has (s.txring x).ctl reg.txbuf_last) first ∙ d.marked 0 d.some_descs)
          (ap (λ x. has (s.txring x).ctl reg.txbuf_wrap) first ∙ d.wraps 0 d.some_descs)

module _ (reg : TxReg) (l : IsTxLayout reg) where
  pub clean_one-IsTxRing :
      (f : InFlight) (q : List InFlight) (s : TxSide)
      → IsTxRing reg (f ∷ q) s
      → IsUsed reg s.txring s.tl_ptr
      → (t : TxSide) × (clean_one reg s ≡ returns t)
        × IsTxRing reg q t
        × IsCleaned (f.packet ∷ []) s t
        × (t.oactive ≡ false)
        × ((p : ℕ) → IsUsed reg s.txring p → IsUsed reg t.txring p)
        × (t.tl_ptr ≡ after s.tl_ptr f.descs)
        × ((p : ℕ) → IsUsed reg t.txring p → IsUsed reg s.txring p ⊎ IsIdle p t.tl_ptr q)
  unfolding clean_one step_tail
  clean_one-IsTxRing f q s r used =
      let (at, d, later) = r.holds in
      let n = f.descs in
      let g = retire-IsRetired reg f.packet s at in
      let (o, e, k) = retired_skip reg f q s r l in
      let u = o.1 in
      let left : u.queued ≡ suc (total q) = omega (arith, k.left, g.same_queued, r.counted) in
      let (count, tail, ring, packets) =
        step_tail-fields reg l o.0 u (omega (arith, left)) (omega (arith, left, r.room)) in
      let t = record (step_tail reg o.0 u) { oactive = false } in
      let at_next : t.tl_ptr ≡ after s.tl_ptr n = tail ∙ ground (arith, k.last_word, k.at_last) in
      let kept : (p : ℕ) → IsUsed reg s.txring p → IsUsed reg u.txring p =
        λ p v. k.used_kept p (subst (λ x. IsUsed reg x p) (sym g.same_ring) v) in
      let head : u.hd_ptr ≡ s.hd_ptr = ap (λ x. x.hd_ptr) k.rest ∙ g.cleaned.same_head in
      let moved : Holds reg u.txring u.txring_m (after s.tl_ptr n) q s.hd_ptr =
        Holds-SameMarks reg s.txring u.txring s.txring_m u.txring_m (after s.tl_ptr n) q s.hd_ptr
          (λ p busy. record {
            same_last = (k.marks p).same_last ∙ ap (λ x. has (x p).ctl reg.txbuf_last) g.same_ring;
            same_wrap = (k.marks p).same_wrap ∙ ap (λ x. has (x p).ctl reg.txbuf_wrap) g.same_ring;
            same_packet =
                (k.marks p).same_packet
                ∙ ap (λ x. x p) g.packet_gone
                ∙ update-ne s.txring_m s.tl_ptr none p (λ here.
                  busy (first-IsIdle reg f q s r p (omega arith) (omega (arith, d.some_descs))));
          })
          later in
      let freed_or_idle : (p : ℕ)
          → p < 512
          → IsIdle p (after s.tl_ptr n) q
          → ((leb s.tl_ptr p && ltb p (s.tl_ptr + n)) ≡ true)
            ⊎ ((leb s.tl_ptr p && ltb p (s.tl_ptr + n)) ≡ false)
          → IsUsed reg u.txring p =
        λ p small idle where_. elim where_ [
          | inl within ↦ elim (Bool-cases (p == s.tl_ptr)) [
            | inl first ↦ kept p (subst (IsUsed reg s.txring) (ground (arith, first)) used)
            | inr later_one ↦
                k.used_new p (ground (arith, within, later_one)) (ground (arith, within))
          ]
          | inr outside ↦ kept p (r.idle_used p small (ground (arith, outside), idle))
        ] in
      (
        t,
        rw e refl,
        record {
          holds =
              subst (λ x. Holds reg u.txring u.txring_m x q u.hd_ptr) (sym at_next)
                (subst (Holds reg u.txring u.txring_m (after s.tl_ptr n) q) (sym head) moved);
          counted = omega (arith, count, left);
          room = omega (arith, r.room);
          tail = ground (arith, at_next);
          idle_used = λ p small idle.
              freed_or_idle p small (subst (λ x. IsIdle p x q) at_next idle)
                (Bool-cases (leb s.tl_ptr p && ltb p (s.tl_ptr + n)));
        },
        record {
          frees = ap (λ x. x.freed) k.rest ∙ g.cleaned.frees;
          counts =
              omega
                (arith, g.cleaned.counts, ap (λ x. x.oerrors) k.rest, ap (λ x. x.opackets) k.rest);
          counts_up =
              omega (
                arith,
                g.cleaned.counts_up,
                ap (λ x. x.oerrors) k.rest,
                ap (λ x. x.opackets) k.rest,
              );
          same_head = head;
          same_sendq = ap (λ x. x.sendq) k.rest ∙ g.cleaned.same_sendq;
          same_tapped = ap (λ x. x.tapped) k.rest ∙ g.cleaned.same_tapped;
          same_kicks = ap (λ x. x.kicks) k.rest ∙ g.cleaned.same_kicks;
        },
        refl,
        kept,
        at_next,
        (λ p v. elim (k.used_old p v) [
          | inl w ↦ inl (subst (λ x. IsUsed reg x p) g.same_ring w)
          | inr (lo, hi) ↦ inr (
              subst (λ x. IsIdle p x q) (sym at_next)
                (first-IsIdle reg f q s r p (omega (arith, lo)) (omega (arith, hi))))
        ]),
      )
