-- ===== src/Xmac/Tx/Drain.antt =====
-- Cleaning the transmit ring takes the packets that the device has sent off the queue, in order.
use phytium_sdk.Prelude.{
  ℕ, zero, suc, ◌<◌, ◌≡◌, ◌≢◌, ◌⊎◌, inl, inr, refl, sym, ap, subst, ◌∙◌, true, false, List, [], ◌∷◌,
  ◌++◌, arith, Bool-cases, returns, length-append,
}
use mathlib.Core.List.{append_assoc, append-nil}
use phytium_sdk.Xmac.Tx.Ring.{TxSide, TxReg, clean_one, is_sent, clean_loop, clean_tx, is_positive}
use phytium_sdk.Xmac.Tx.Words.{IsTxLayout}
use phytium_sdk.Xmac.Tx.Queue.{
  InFlight, IsUsed, IsIdle, Holds, after, past, total, IsTxRing, AreSent, AreSent-mono,
  AreSent-back,
}
use phytium_sdk.Xmac.Tx.Clean.{retired, IsCleaned, clean_one-IsTxRing}

IsCleaned-trans :
    {fs gs : List ℕ} {s t u : TxSide}
    → IsCleaned fs s t
    → IsCleaned gs t u
    → IsCleaned (gs ++ fs) s u
IsCleaned-trans {fs} {gs} {s} {t} {u} a b = record {
  frees = b.frees ∙ ap (λ x. gs ++ x) a.frees ∙ sym (append_assoc gs fs s.freed);
  counts = omega (arith, a.counts, b.counts, length-append gs fs);
  counts_up = omega (arith, a.counts_up, b.counts_up);
  same_head = b.same_head ∙ a.same_head;
  same_sendq = b.same_sendq ∙ a.same_sendq;
  same_tapped = b.same_tapped ∙ a.same_tapped;
  same_kicks = b.same_kicks ∙ a.same_kicks;
}

-- The queue `q` in `s` has become `rest` in `t`: the packets `done` before it have been freed, and the
-- device, which had marked the first descriptor of each of them as used, has not sent the first that
-- is left.
pub record IsDrained (reg : TxReg) (q done rest : List InFlight) (s t : TxSide) : Type 0 where
  pub split : q ≡ done ++ rest
  pub ring : IsTxRing reg rest t
  pub cleaned : IsCleaned (retired done) s t
  pub unsent : is_sent reg t ≡ false
  pub opened : (done ≡ []) ⊎ (t.oactive ≡ false)
  pub kept : (done ≢ []) ⊎ (t ≡ s)
  pub reported : AreSent reg s.txring s.tl_ptr done
  pub moved : t.tl_ptr ≡ past s.tl_ptr done
  pub used_back : (p : ℕ) → IsUsed reg t.txring p → IsUsed reg s.txring p ⊎ IsIdle p t.tl_ptr rest
  pub still_sent : AreSent reg s.txring s.tl_ptr q → AreSent reg t.txring t.tl_ptr rest

-- what is idle beside a queue is idle beside the rest of it
IsIdle-suffix :
    (p i : ℕ) (done rest : List InFlight) (j : ℕ)
    → j ≡ past i done
    → IsIdle p i (done ++ rest)
    → IsIdle p j rest
IsIdle-suffix p i [] rest j e idle = subst (λ x. IsIdle p x rest) (sym e) idle
IsIdle-suffix p i (f ∷ done) rest j e (away, idle) =
    IsIdle-suffix p (after i f.descs) done rest j e idle

module _ (reg : TxReg) where
  is_sent-IsUsed :
      (s : TxSide) → is_sent reg s ≡ true → IsUsed reg s.txring s.tl_ptr × (0 < s.queued)
  unfolding is_sent is_positive
  is_sent-IsUsed s e = ground arith

  nothing-is_sent : (s : TxSide) → s.queued ≡ 0 → is_sent reg s ≡ false
  unfolding is_sent is_positive
  nothing-is_sent s e = ground arith

  nothing-IsDrained :
      (q : List InFlight) (s : TxSide)
      → IsTxRing reg q s
      → is_sent reg s ≡ false
      → IsDrained reg q [] q s s
  nothing-IsDrained q s r unsent = record {
    split = refl;
    ring = r;
    cleaned = record {
      frees = refl;
      counts = omega arith;
      counts_up = omega arith;
      same_head = refl;
      same_sendq = refl;
      same_tapped = refl;
      same_kicks = refl;
    };
    unsent = unsent;
    opened = inl refl;
    kept = inr refl;
    reported = tt;
    moved = refl;
    used_back = λ p v. inl v;
    still_sent = λ sent. sent;
  }

  first_counts :
      (f : InFlight) (q : List InFlight) (s : TxSide)
      → IsTxRing reg (f ∷ q) s
      → total q < total (f ∷ q)
  first_counts f q s r = omega (arith, r.holds.1.some_descs)

  clean_loop-stop :
      (fuel : ℕ) (s : TxSide) → is_sent reg s ≡ false → clean_loop reg (suc fuel) s ≡ returns s
  unfolding clean_loop
  clean_loop-stop fuel s e = ground arith

  clean_loop-step :
      (fuel : ℕ) (s : TxSide) {t : TxSide}
      → is_sent reg s ≡ true
      → clean_one reg s ≡ returns t
      → clean_loop reg (suc fuel) s ≡ clean_loop reg fuel t
  unfolding clean_loop
  clean_loop-step fuel s sent e = ground (arith, sent, e)

  clean_loop-IsDrained :
      (l : IsTxLayout reg) (fuel : ℕ) (q : List InFlight) (s : TxSide)
      → IsTxRing reg q s
      → total q < fuel
      → (t : TxSide) × (clean_loop reg fuel s ≡ returns t)
        × ((done : List InFlight) × (rest : List InFlight) × IsDrained reg q done rest s t)
  clean_loop-IsDrained l zero q s r enough = absurd (omega arith)
  clean_loop-IsDrained l (suc fuel) [] s r enough =
      let unsent : is_sent reg s ≡ false = nothing-is_sent s r.counted in
      (s, clean_loop-stop fuel s unsent, ([], [], nothing-IsDrained [] s r unsent))
  clean_loop-IsDrained l (suc fuel) (f ∷ q) s r enough = elim (Bool-cases (is_sent reg s)) [
    | inr unsent ↦
        (s, clean_loop-stop fuel s unsent, ([], f ∷ q, nothing-IsDrained (f ∷ q) s r unsent))
    | inl sent ↦
        let (u, e, r', c, open_now, used_on, at_next, back) =
          clean_one-IsTxRing reg l f q s r (is_sent-IsUsed s sent).0 in
        let (t, e', (done, rest, d)) =
          clean_loop-IsDrained l fuel q u r' (omega (arith, first_counts f q s r)) in
        (
          t,
          clean_loop-step fuel s sent e ∙ e',
          (
            f ∷ done,
            rest,
            record {
              split = ap (λ x. f ∷ x) d.split;
              ring = d.ring;
              cleaned = IsCleaned-trans c d.cleaned;
              unsent = d.unsent;
              opened = elim d.kept [
                | inl some_done ↦ elim d.opened [ inl e ↦ absurd (some_done e) | inr x ↦ inr x ]
                | inr same ↦ inr (ap (λ x. x.oactive) same ∙ open_now)
              ];
              kept = inl (λ e. cc);
              reported = (
                (is_sent-IsUsed s sent).0,
                subst (λ x. AreSent reg s.txring x done) at_next
                    (AreSent-back reg s.txring u.txring u.txring u.txring_m u.tl_ptr done rest
                      u.hd_ptr
                      (subst (λ x. Holds reg u.txring u.txring_m u.tl_ptr x u.hd_ptr) d.split
                        r'.holds)
                      (subst
                        (λ x.
                          (p : ℕ)
                          → IsUsed reg u.txring p
                          → IsUsed reg s.txring p ⊎ IsIdle p u.tl_ptr x)
                        d.split back)
                      d.reported),
              );
              moved = d.moved ∙ ap (λ x. past x done) at_next;
              used_back = λ p v. elim (d.used_back p v) [
                | inr idle ↦ inr idle
                | inl w ↦ elim (back p w) [
                  | inl old ↦ inl old
                  | inr idle ↦ inr (
                      IsIdle-suffix p u.tl_ptr done rest t.tl_ptr d.moved
                        (subst (IsIdle p u.tl_ptr) d.split idle))
                ]
              ];
              still_sent = λ (_, later). d.still_sent (
                  subst (λ x. AreSent reg u.txring x q) (sym at_next)
                    (AreSent-mono reg s.txring u.txring (after s.tl_ptr f.descs) q used_on later));
            },
          ),
        )
  ]

  -- Cleaning the transmit ring always ends and frees exactly the packets at the front of the queue,
  -- in order, up to the first that the device has not marked as used: the first descriptor of each that
  -- is freed was marked as used before. Each is counted at most once.
  -- The rest stays in the ring as it was, and the device still stops at every descriptor outside it.
  -- The ring holds a queue before, and the masks of a descriptor's marks are those of the manual.
  pub clean_tx-IsDrained :
      (l : IsTxLayout reg) (q : List InFlight) (s : TxSide)
      → IsTxRing reg q s
      → (t : TxSide) × (clean_tx reg s ≡ returns t)
        × ((done : List InFlight) × (rest : List InFlight) × IsDrained reg q done rest s t)
  unfolding clean_tx
  clean_tx-IsDrained l q s r =
      clean_loop-IsDrained l (suc s.queued) q s r (omega (arith, r.counted))

  counted_some :
      (f : InFlight) (q : List InFlight) (s : TxSide)
      → IsTxRing reg (f ∷ q) s
      → (0 < s.queued) × (s.queued < 504)
  counted_some f q s r =
      (omega (arith, r.counted, r.holds.1.some_descs), omega (arith, r.counted, r.room))

  used-is_sent :
      (s : TxSide)
      → (0 < s.queued) × (s.queued < 504)
      → IsUsed reg s.txring s.tl_ptr
      → is_sent reg s ≡ true
  unfolding is_sent is_positive
  used-is_sent s (pos, few) used = ground arith

  -- a queue of which every packet has been sent drains
  sent-drained :
      (q done rest : List InFlight) (s t : TxSide)
      → IsDrained reg q done rest s t
      → AreSent reg s.txring s.tl_ptr q
      → rest ≡ []
  sent-drained q done [] s t d all_sent = refl
  sent-drained q done (f ∷ rest) s t d all_sent =
      let sent = used-is_sent t (counted_some f rest t d.ring) (d.still_sent all_sent).0 in
      absurd (ground (arith, sent, d.unsent))

  -- Once the device has sent every packet of the ring, which it reports in the first descriptor of
  -- each, one cleaning frees all of them, in order, leaves the ring empty, and opens the interface for
  -- more packets if the ring was not empty before. The ring holds a queue before, and the masks of a
  -- descriptor's marks are those of the manual.
  pub clean_tx-frees_all :
      (l : IsTxLayout reg) (q : List InFlight) (s : TxSide)
      → IsTxRing reg q s
      → AreSent reg s.txring s.tl_ptr q
      → (t : TxSide) × (clean_tx reg s ≡ returns t)
        × IsTxRing reg [] t
        × (t.freed ≡ retired q ++ s.freed)
        × ((q ≡ []) ⊎ (t.oactive ≡ false))
  clean_tx-frees_all l q s r all_sent =
      let (t, e, (done, rest, d)) = clean_tx-IsDrained l q s r in
      let none_left = sent-drained q done rest s t d all_sent in
      let all_done : q ≡ done = d.split ∙ ap (λ x. done ++ x) none_left ∙ append-nil done in
      (
        t,
        e,
        subst (λ x. IsTxRing reg x t) none_left d.ring,
        d.cleaned.frees ∙ ap (λ x. retired x ++ s.freed) (sym all_done),
        elim d.opened [ inl none_done ↦ inl (all_done ∙ none_done) | inr open_now ↦ inr open_now ],
      )
