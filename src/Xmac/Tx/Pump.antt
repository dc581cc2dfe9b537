-- ===== src/Xmac/Tx/Pump.antt =====
-- What transmission makes of the queue, packet by packet.
use mathlib.Core.List.{append_assoc, append-nil}
use phytium_sdk.Prelude.{
  ℕ, ◌≤◌, ◌≡◌, ◌⊎◌, inl, inr, refl, sym, ap, subst, ◌∙◌, Bool, true, List, [], ◌∷◌, ◌++◌, arith,
  length, length-append,
}
use phytium_sdk.Xmac.Tx.Ring.{TxPacket, TxSide, TxReg}
use phytium_sdk.Xmac.Tx.Queue.{
  InFlight, IsUsed, IsIdle, Holds, past, total, IsTxRing, AreSent, AreSent-back, AreSent-append,
  AreSent-last,
}
use phytium_sdk.Xmac.Tx.Clean.{retired}
use phytium_sdk.Xmac.Tx.Sendable.{IsSendable, IsSent}

-- every packet of the send queue is sendable
abbrev pub AreSendable : List TxPacket → Type 0
AreSendable [] = Unit {0}
AreSendable (p ∷ ps) = IsSendable p × AreSendable ps

-- The queue `q` in `s` has become `q'` in `t`: the packets `sent` entered it at its end, in the order
-- in which they were shown to BPF, and the packets `done`, whose first descriptors the device had
-- marked as used in `s`, left it at its front: none that entered did. The send queue is empty, or the
-- ring is full.
pub record IsPumped (reg : TxReg) (q sent done q' : List InFlight) (s t : TxSide) : Type 0 where
  pub fifo : q ++ sent ≡ done ++ q'
  pub stays : (kept : List InFlight) × (q ≡ done ++ kept) × (q' ≡ kept ++ sent)
  pub reported : AreSent reg s.txring s.tl_ptr done
  pub ring : IsTxRing reg q' t
  pub told : t.tapped ≡ retired sent ++ s.tapped
  pub settled : (t.sendq ≡ []) ⊎ ((t.oactive ≡ true) × (496 ≤ total q'))
  pub taken : (ps : List TxPacket) × (s.sendq ≡ ps ++ t.sendq) × (length sent ≤ length ps)

pub retired-append : (q r : List InFlight) → retired (q ++ r) ≡ retired r ++ retired q
retired-append [] r = sym (append-nil (retired r))
retired-append (f ∷ q) r =
    ap (λ x. x ++ (f.packet ∷ [])) (retired-append q r)
    ∙ append_assoc (retired r) (retired q) (f.packet ∷ [])

-- a ring with other flags, counters and send queue
pub IsTxRing-flags :
    (reg : TxReg) (q : List InFlight) (s : TxSide) (o : Bool) (full : ℕ) (sq : List TxPacket)
    → IsTxRing reg q s
    → IsTxRing reg q (record s { oactive = o; txfull = full; sendq = sq })
IsTxRing-flags reg q s o full sq r = record {
  holds = r.holds;
  counted = r.counted;
  room = r.room;
  tail = r.tail;
  idle_used = r.idle_used;
}

-- what `make_room` does to the queue `q`
pub record HasRoom (reg : TxReg) (q done rest : List InFlight) (s t : TxSide) : Type 0 where
  pub split : q ≡ done ++ rest
  pub ring : IsTxRing reg rest t
  pub same_tapped : t.tapped ≡ s.tapped
  pub same_sendq : t.sendq ≡ s.sendq
  pub reported : AreSent reg s.txring s.tl_ptr done
  pub moved : t.tl_ptr ≡ past s.tl_ptr done
  pub used_back : (p : ℕ) → IsUsed reg t.txring p → IsUsed reg s.txring p ⊎ IsIdle p t.tl_ptr rest

-- the front of a queue that one packet has joined
split_last :
    (done kept rest : List InFlight) (f : InFlight)
    → rest ++ (f ∷ []) ≡ done ++ kept
    → (done ≡ rest ++ (f ∷ []))
      ⊎ ((k : List InFlight) × (rest ≡ done ++ k) × (kept ≡ k ++ (f ∷ [])))
split_last [] kept rest f e = inr (rest, refl, sym e)
split_last (d ∷ done) kept [] f e = inl (ground (arith, e))
split_last (d ∷ done) kept (g ∷ rest) f e = elim (split_last done kept rest f (ground (arith, e))) [
  | inl all ↦ inl (ground (arith, e, all))
  | inr (k, a, b) ↦ inr (k, ground (arith, e, a), b)
]

module _ {reg : TxReg} {rest : List InFlight} {t w : TxSide} where
  -- the packets that leave after a packet has been sent were in the ring before
  sent_stays :
      (new done kept : List InFlight)
      → IsTxRing reg rest t
      → IsSent reg rest new t w
      → rest ++ new ≡ done ++ kept
      → AreSent reg w.txring w.tl_ptr done
      → (k : List InFlight) × (rest ≡ done ++ k) × (kept ≡ k ++ new)
  sent_stays [] done kept r f e sent = (kept, sym (append-nil rest) ∙ e, sym (append-nil kept))
  sent_stays (n ∷ []) done kept r f e sent = elim (split_last done kept rest n e) [
    | inr x ↦ x
    | inl all ↦
        let used = AreSent-last reg w.txring t.txring t.txring_m t.tl_ptr rest n t.hd_ptr r.holds (
          subst (λ x. AreSent reg w.txring x (rest ++ (n ∷ []))) f.same_tail
            (subst (AreSent reg w.txring w.tl_ptr) all sent)) in
        elim f.unsent [
          | inl none_new ↦ absurd (ground (arith, none_new))
          | inr unused ↦ absurd (ground (arith, used, unused))
        ]
  ]
  sent_stays (n ∷ n' ∷ new) done kept r f e sent = absurd (omega (arith, f.one))

-- Making room, then sending a packet, then going on.
pub pump_step :
    {reg : TxReg} {q done rest new sent done' q' : List InFlight} {s t w v : TxSide} (p : TxPacket)
    (ps : List TxPacket)
    → s.sendq ≡ p ∷ ps
    → HasRoom reg q done rest s t
    → IsSent reg rest new (record t { sendq = ps }) w
    → IsPumped reg (rest ++ new) sent done' q' w v
    → IsPumped reg q (new ++ sent) (done ++ done') q' s v
pump_step {reg = reg} {q = q} {done = done} {rest = rest} {new = new} {sent = sent} {done' = done'}
      {q' = q'} {s = s} {t = t} {w = w} p ps same h f g =
    let (kept, e, e') = g.stays in
    let (k, rest_is, kept_is) =
      sent_stays {t = record t { sendq = ps }} new done' kept
        (IsTxRing-flags reg rest t t.oactive t.txfull ps h.ring) f e g.reported in
    record {
      fifo =
          ap (λ x. x ++ (new ++ sent)) h.split
          ∙ append_assoc done rest (new ++ sent)
          ∙ ap (λ x. done ++ x) (sym (append_assoc rest new sent) ∙ g.fifo)
          ∙ sym (append_assoc done done' q');
      stays = (
        k,
        h.split ∙ ap (λ x. done ++ x) rest_is ∙ sym (append_assoc done done' k),
        e' ∙ ap (λ x. x ++ sent) kept_is ∙ append_assoc k new sent,
      );
      reported = AreSent-append reg s.txring s.tl_ptr done done' h.reported (
          subst (λ x. AreSent reg s.txring x done') h.moved
            (AreSent-back reg s.txring w.txring t.txring t.txring_m t.tl_ptr done' k t.hd_ptr
              (subst (λ x. Holds reg t.txring t.txring_m t.tl_ptr x t.hd_ptr) rest_is h.ring.holds)
              (λ p v.
                subst (λ x. IsUsed reg s.txring p ⊎ IsIdle p t.tl_ptr x) rest_is
                  (h.used_back p (f.used_back p v)))
              (subst (λ x. AreSent reg w.txring x done') f.same_tail g.reported)));
      ring = g.ring;
      told =
          g.told
          ∙ ap (λ x. retired sent ++ x) (f.told ∙ ap (λ x. retired new ++ x) h.same_tapped)
          ∙ sym (append_assoc (retired sent) (retired new) s.tapped)
          ∙ ap (λ x. x ++ s.tapped) (sym (retired-append new sent));
      settled = g.settled;
      taken =
          let (qs, e, less) = g.taken in
          (
            p ∷ qs,
            same ∙ ap (λ x. p ∷ x) (sym f.same_sendq ∙ e),
            omega (arith, length-append new sent, f.one, less),
          );
    }
