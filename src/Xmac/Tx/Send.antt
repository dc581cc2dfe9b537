-- ===== src/Xmac/Tx/Send.antt =====
-- Sending a packet puts it at the end of the queue, over descriptors that are idle.
use phytium_sdk.Prelude.{
  ℕ, suc, ◌+◌, ◌≤◌, ◌<◌, ◌≡◌, ◌≢◌, ◌⊎◌, inl, inr, refl, sym, ap, subst, ◌∙◌, true, false, List, [],
  ◌∷◌, ◌++◌, Option, some, ◌==◌, ◌&&◌, leb, ltb, update, update-ne, if◌then◌else◌, arith,
  Bool-cases, length,
}
use phytium_sdk.Xmac.Tx.Chain.{Segment}
use phytium_sdk.Xmac.Tx.Ring.{TxDesc, TxSide, TxReg, has}
use phytium_sdk.Xmac.Tx.Output.{Kick, write_descs, transmit}
use phytium_sdk.Xmac.Tx.Words.{IsTxLayout}
use phytium_sdk.Xmac.Tx.Queue.{
  InFlight, IsUsed, after, total, IsIdle, HasDescs, Holds, Holds-IsIdle, Holds-head, IsTxRing,
}
use phytium_sdk.Xmac.Tx.Keep.{Holds-SameMarks, Holds-append}
use phytium_sdk.Xmac.Tx.Write.{AreSmall, IsWritten, write_descs-IsWritten}

total-append : (q : List InFlight) (f : InFlight) → total (q ++ (f ∷ [])) ≡ total q + f.descs
total-append [] f = omega arith
total-append (g ∷ q) f = omega (arith, total-append q f)

-- what is idle beside the longer queue is idle beside the shorter, and no descriptor of the new packet
IsIdle-append :
    (reg : TxReg) (ring : ℕ → TxDesc) (ms : ℕ → Option ℕ) (p i : ℕ) (q : List InFlight) (h : ℕ)
    (f : InFlight)
    → Holds reg ring ms i q h
    → IsIdle p i (q ++ (f ∷ []))
    → IsIdle p i q × ((p < h) ⊎ (h + f.descs ≤ p))
IsIdle-append reg ring ms p i [] h f r (away, _) = (tt, ground (arith, r))
IsIdle-append reg ring ms p i (g ∷ q) h f (at, d, r) (away, idle) =
    let (a, b) = IsIdle-append reg ring ms p (after i g.descs) q h f r idle in ((away, a), b)

module _ (reg : TxReg) (l : IsTxLayout reg) (m : ℕ) (segs : List Segment) (q : List InFlight)
    (s : TxSide) (r : IsTxRing reg q s) (room : total q < 496) (small : AreSmall segs)
    (some_segs : 0 < length segs) (few : length segs ≤ 8) where
  new_packet : InFlight
  new_packet = record { packet = m; descs = length segs }

  -- the ring with the packet in it
  filled : TxSide
  filled =
      write_descs reg (leb 512 (s.hd_ptr + length segs + 8)) s.hd_ptr 0 segs
        (record s { txring_m = update s.txring_m s.hd_ptr (some m) })

  filled-IsWritten :
      IsWritten reg
        (leb 512 (s.hd_ptr + length segs + 8))
        s.hd_ptr
        0
        (length segs)
        (record s { txring_m = update s.txring_m s.hd_ptr (some m) })
        filled
  unfolding filled
  filled-IsWritten =
      write_descs-IsWritten reg l (leb 512 (s.hd_ptr + length segs + 8)) s.hd_ptr 0 segs
        (record s { txring_m = update s.txring_m s.hd_ptr (some m) }) small

  head_in : s.hd_ptr < 504
  head_in = Holds-head reg s.txring s.txring_m s.tl_ptr q s.hd_ptr r.tail r.holds

  -- the descriptors that are written were idle
  filled-idle : (p : ℕ) → ¬ IsIdle p s.tl_ptr q → (p < s.hd_ptr) ⊎ (s.hd_ptr + length segs ≤ p)
  filled-idle p busy = elim (Bool-cases (leb s.hd_ptr p && ltb p (s.hd_ptr + length segs))) [
    | inl inside ↦ absurd (
        busy (
          Holds-IsIdle reg s.txring s.txring_m s.tl_ptr q s.hd_ptr p room r.holds
            (ground (arith, inside)) (ground (arith, inside, few))))
    | inr outside ↦ ground (arith, outside)
  ]

  leb-add_8 : (x : ℕ) → leb 512 (x + 8) ≡ leb 504 x
  leb-add_8 x = ground arith

  filled-Holds : Holds reg filled.txring filled.txring_m s.tl_ptr q s.hd_ptr
  filled-Holds =
      let w = filled-IsWritten in
      Holds-SameMarks reg s.txring filled.txring s.txring_m filled.txring_m s.tl_ptr q s.hd_ptr
        (λ p busy.
          let away : (p < s.hd_ptr + 0) ⊎ (s.hd_ptr + 0 + length segs ≤ p) =
            ground (arith, filled-idle p busy) in
          let not_head : s.hd_ptr ≢ p = ground (arith, filled-idle p busy, some_segs) in
          record {
            same_last = ap (λ d. has d.ctl reg.txbuf_last) (w.outside p away);
            same_wrap = ap (λ d. has d.ctl reg.txbuf_wrap) (w.outside p away);
            same_packet =
                w.packets p (ground (arith, away))
                ∙ update-ne s.txring_m s.hd_ptr (some m) p not_head;
          })
        r.holds

  filled-HasDescs : HasDescs reg filled.txring s.hd_ptr (length segs)
  filled-HasDescs =
      let w = filled-IsWritten in
      let at : (k : ℕ) → s.hd_ptr + k ≡ s.hd_ptr + 0 + k = λ k. omega arith in
      record {
        some_descs = some_segs;
        few = few;
        inside = head_in;
        marked = λ k less.
            ap (λ x. has (filled.txring x).ctl reg.txbuf_last) (at k) ∙ w.last_marked k less;
        wraps = λ k less.
            ap (λ x. has (filled.txring x).ctl reg.txbuf_wrap) (at k)
            ∙ w.wrap_marked k less
            ∙ ap (λ b. if suc k == length segs then b else false)
                (leb-add_8 (s.hd_ptr + length segs));
      }

  filled-packet : filled.txring_m s.hd_ptr ≡ some m
  filled-packet = filled-IsWritten.packets s.hd_ptr (inr (inr refl)) ∙ ground arith

  filled-rest : filled ≡ record s { txring = filled.txring; txring_m = filled.txring_m }
  filled-rest = filled-IsWritten.rest

  filled-IsUsed :
      (p : ℕ) → p < 512 → IsIdle p s.tl_ptr (q ++ (new_packet ∷ [])) → IsUsed reg filled.txring p
  unfolding new_packet
  filled-IsUsed p inside idle =
      let (old, away) =
        IsIdle-append reg s.txring s.txring_m p s.tl_ptr q s.hd_ptr new_packet r.holds idle in
      ap (λ d. has d.ctl reg.txbuf_used) (filled-IsWritten.outside p (ground (arith, away)))
      ∙ r.idle_used p inside old

  pub transmit-IsTxRing :
      (kick : Kick)
      → IsTxRing reg
          (q ++ (record { packet = m; descs = length segs } ∷ []))
          (transmit reg kick m segs s)
  unfolding transmit filled new_packet
  transmit-IsTxRing kick =
      let same_tail : filled.tl_ptr ≡ s.tl_ptr = ap (λ x. x.tl_ptr) filled-rest in
      let next : (if leb 512 (s.hd_ptr + length segs + 8) then 0 else s.hd_ptr + length segs)
          ≡ after s.hd_ptr (length segs) =
        ap (λ b. if b then 0 else s.hd_ptr + length segs) (leb-add_8 (s.hd_ptr + length segs)) in
      record {
        holds =
            subst
              (λ x.
                Holds reg filled.txring filled.txring_m x (q ++ (new_packet ∷ []))
                  (if leb 512 (s.hd_ptr + length segs + 8) then 0 else s.hd_ptr + length segs))
              (sym same_tail)
              (subst (Holds reg filled.txring filled.txring_m s.tl_ptr (q ++ (new_packet ∷ [])))
                (sym next)
                (Holds-append reg filled.txring filled.txring_m s.tl_ptr q s.hd_ptr new_packet
                  filled-Holds filled-packet filled-HasDescs));
        counted = omega (arith, r.counted, total-append q new_packet);
        room = omega (arith, total-append q new_packet);
        tail = omega (arith, same_tail, r.tail);
        idle_used = λ p inside idle.
            filled-IsUsed p inside
              (subst (λ x. IsIdle p x (q ++ (new_packet ∷ []))) same_tail idle);
      }

  pub transmit-rest :
      (kick : Kick)
      → let t = transmit reg kick m segs s in
        (t.tapped ≡ m ∷ s.tapped) × (t.sendq ≡ s.sendq) × (t.oactive ≡ s.oactive)
  unfolding transmit filled
  transmit-rest kick = (refl, ap (λ x. x.sendq) filled-rest, ap (λ x. x.oactive) filled-rest)

  -- Sending a packet changes only descriptors inside the ring that no packet in flight has. The ring
  -- holds a queue of less than 496 descriptors, and the packet has 1 to 8 segments below 16 KiB.
  pub transmit_bounds :
      (kick : Kick) (p : ℕ)
      → ((transmit reg kick m segs s).txring p ≡ s.txring p) ⊎ ((p < 512) × IsIdle p s.tl_ptr q)
  unfolding transmit filled
  transmit_bounds kick p = elim (Bool-cases (leb s.hd_ptr p && ltb p (s.hd_ptr + length segs))) [
    | inl inside ↦ inr (
      ground (arith, inside, few, head_in),
      Holds-IsIdle reg s.txring s.txring_m s.tl_ptr q s.hd_ptr p room r.holds
          (ground (arith, inside)) (ground (arith, inside, few)),
    )
    | inr outside ↦ inl (filled-IsWritten.outside p (ground (arith, outside)))
  ]

  -- The first descriptor of the packet is the device's, and no descriptor is newly marked as used.
  pub transmit_marks :
      (kick : Kick)
      → let t = transmit reg kick m segs s in
        (t.tl_ptr ≡ s.tl_ptr)
        × (has (t.txring s.hd_ptr).ctl reg.txbuf_used ≡ false)
        × ((p : ℕ) → IsUsed reg t.txring p → IsUsed reg s.txring p)
  unfolding transmit filled
  transmit_marks kick = (
    ap (λ x. x.tl_ptr) filled-rest,
    ap (λ x. has (filled.txring x).ctl reg.txbuf_used) (omega arith)
        ∙ filled-IsWritten.unused 0 some_segs,
    (λ p v. elim (transmit_bounds kick p) [
      | inl same ↦ subst (λ d. has d.ctl reg.txbuf_used ≡ true) same v
      | inr (inside, idle) ↦ r.idle_used p inside idle
    ]),
  )
